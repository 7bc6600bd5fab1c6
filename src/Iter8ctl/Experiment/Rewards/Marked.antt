-- ===== src/Iter8ctl/Experiment/Rewards/Marked.antt =====
-- GetAnnotatedMetricStrs of iter8ctl/experiment/experiment.go: the row that it gives.
use etc.Prelude.{
  ℕ, zero, suc, ◌≡◌, refl, ◌∙◌, Bool, false, Option, none, some, List, [], ◌∷◌, String, map,
  get_elem?, arith, if◌then◌else◌, ◌==◌,
}
use etc.Prelude.Text.{◌+++◌}
use etc.Api.Types.{Reward, Experiment, Analysis}
use etc.Controller.Effects.{done}
use etc.Iter8ctl.Effects.{◌>>=◌, traverse-done, Decimals, HasOrder}
use etc.Iter8ctl.Experiment.{
  get_versions, aggregated_value, get_metric_dec, dec_or_unavailable, prefers_higher,
}
use etc.Iter8ctl.Experiment.Rewards.{best_from, mark_at, mark_best, get_annotated_metric_strs}
use etc.Iter8ctl.Experiment.Rewards.Best.{IsFirstBest, IsFirstBest-empty, best_from-IsFirstBest}

module _ ⦃ds : Decimals⦄ where
  is_best : Option (ℕ × ds.Decimal) → ℕ → Bool
  is_best none j = false
  is_best (some best) j = best.0 == j

  -- The entry of a version: its value, with the mark at the best one.
  entry_text : Option (ℕ × ds.Decimal) → ℕ → Option (Option ds.Decimal) → Option String
  unfolding is_best
  entry_text best j none = none
  entry_text best j (some o) =
      some (if is_best best j then dec_or_unavailable o +++ " *" else dec_or_unavailable o)

  entry_text-same :
      (best best' : Option (ℕ × ds.Decimal)) (j j' : ℕ) (entry : Option (Option ds.Decimal))
      → is_best best j ≡ is_best best' j'
      → entry_text best j entry ≡ entry_text best' j' entry
  unfolding entry_text
  entry_text-same best best' j j' none h = refl
  entry_text-same best best' j j' (some o) h = rw h

  unfoldable pub IsMarkedRow :
      List (Option ds.Decimal) → Option (ℕ × ds.Decimal) → List String → Type 0
  unfolding entry_text
  IsMarkedRow vals best row = (j : ℕ) → get_elem? row j ≡ entry_text best j (get_elem? vals j)

  map-entry :
      (vals : List (Option ds.Decimal)) (j : ℕ)
      → get_elem? (map dec_or_unavailable vals) j ≡ entry_text none j (get_elem? vals j)
  unfolding entry_text
  map-entry [] j = refl
  map-entry (o ∷ vals) zero = refl
  map-entry (o ∷ vals) (suc j) = map-entry vals j

  mark_at-entry :
      (i : ℕ) (b : ds.Decimal) (vals : List (Option ds.Decimal)) (j : ℕ)
      → get_elem? (mark_at i (map dec_or_unavailable vals)) j
        ≡ entry_text (some (i, b)) j (get_elem? vals j)
  unfolding mark_at entry_text is_best
  mark_at-entry i b [] j = refl
  mark_at-entry zero b (o ∷ vals) zero = ground arith
  mark_at-entry zero b (o ∷ vals) (suc j) =
      map-entry vals j
      ∙ entry_text-same none (some (zero, b)) j (suc j) (get_elem? vals j) (ground arith)
  mark_at-entry (suc i) b (o ∷ vals) zero = ground arith
  mark_at-entry (suc i) b (o ∷ vals) (suc j) =
      mark_at-entry i b vals j
      ∙ entry_text-same (some (i, b)) (some (suc i, b)) j (suc j) (get_elem? vals j) (ground arith)

  mark_best-IsMarkedRow :
      (vals : List (Option ds.Decimal)) (best : Option (ℕ × ds.Decimal))
      → IsMarkedRow vals best (mark_best best (map dec_or_unavailable vals))
  unfolding IsMarkedRow
  mark_best-IsMarkedRow vals none = map-entry vals
  mark_best-IsMarkedRow vals (some best) = mark_at-entry best.0 best.1 vals

  -- With a comparison of decimals that is a strict weak order, the row of a reward for an
  -- experiment that has an analysis is read without a panic: each entry is the value of its version
  -- or unavailable, and the mark stands at one entry only, the first whose value no other value
  -- beats in the reward's direction; without any value there is no mark.
  pub get_annotated-IsFirstBest :
      (order : HasOrder ds) (e : Experiment) (a : Analysis) (reward : Reward)
      → e.status.analysis ≡ some a
      → (let values =
            map (λ v. aggregated_value reward.metric v a.aggregated_metrics) (get_versions e) in
          (best : Option (ℕ × ds.Decimal)) × (row : List String) × (get_annotated_metric_strs e
              reward
            ≡ done row)
          × IsFirstBest (prefers_higher reward.preferred_direction) values best
          × IsMarkedRow values best row)
  unfolding get_annotated_metric_strs get_metric_dec ◌>>=◌
  get_annotated-IsFirstBest order e a reward h =
      let value : String → Option ds.Decimal =
        λ v. aggregated_value reward.metric v a.aggregated_metrics in
      let direction = prefers_higher reward.preferred_direction in
      let values = map value (get_versions e) in
      let best = best_from direction 0 values none in
      (
        best,
        mark_best best (map dec_or_unavailable values),
        rw (traverse-done (get_metric_dec e reward.metric) value (get_versions e) (λ v. rw h)),
        best_from-IsFirstBest order direction [] values none (IsFirstBest-empty direction),
        mark_best-IsMarkedRow values best,
      )
