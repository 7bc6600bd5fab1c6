-- ===== src/Iter8ctl/Experiment/Rewards.antt =====
-- GetAnnotatedMetricStrs of iter8ctl/experiment/experiment.go: the row of a reward.
pub mod Best
pub mod Marked
use etc.Prelude.{
  ℕ, zero, suc, ◌+◌, ◌≡◌, refl, Bool, true, false, Option, none, some, List, [], ◌∷◌, String, map,
  if◌then◌else◌,
}
use etc.Prelude.Int.{ℤ, pos, negsuc, eqb_ℤ}
use etc.Prelude.Text.{◌+++◌}
use etc.Api.Types.{Reward, Experiment}
use etc.Controller.Effects.{Outcome, done, panic}
use etc.Iter8ctl.Effects.{◌>>=◌, traverse, Decimals}
use etc.Iter8ctl.Experiment.{get_versions, get_metric_dec, dec_or_unavailable, prefers_higher}

module _ ⦃ds : Decimals⦄ where
  -- Does the new value take the place of the current best?
  unfoldable pub beats : Bool → ds.Decimal → ds.Decimal → Bool
  beats true new current = eqb_ℤ (negsuc 0) (ds.cmp current new)
  beats false new current = eqb_ℤ (ds.cmp current new) (pos 1)

  -- currentBestIndex and currentBestValue, both nil or neither.
  unfoldable pub update_best :
      Bool → ℕ → Option ds.Decimal → Option (ℕ × ds.Decimal) → Option (ℕ × ds.Decimal)
  unfolding beats
  update_best direction index none best = best
  update_best direction index (some val) none = some (index, val)
  update_best direction index (some val) (some current) =
      if beats direction val current.1 then some (index, val) else some current

  -- The loop over the values, from `index`.
  unfoldable pub best_from :
      Bool → ℕ → List (Option ds.Decimal) → Option (ℕ × ds.Decimal) → Option (ℕ × ds.Decimal)
  unfolding update_best
  best_from direction index [] best = best
  best_from direction index (val ∷ vals) best =
      best_from direction (suc index) vals (update_best direction index val best)

  unfoldable pub mark_at : ℕ → List String → List String
  mark_at i [] = []
  mark_at zero (s ∷ row) = (s +++ " *") ∷ row
  mark_at (suc i) (s ∷ row) = s ∷ mark_at i row

  abbrev mark_best : Option (ℕ × ds.Decimal) → List String → List String
  mark_best none row = row
  mark_best (some best) row = mark_at best.0 row

  -- The source reads, prints and compares a value in one pass. Reading panics or not before any
  -- comparison counts, since the row is returned only at the end.
  unfoldable pub get_annotated_metric_strs : Experiment → Reward → Outcome (List String)
  unfolding ◌>>=◌ get_versions traverse get_metric_dec dec_or_unavailable best_from mark_at
  get_annotated_metric_strs e reward = do
    vals ← traverse (get_metric_dec e reward.metric) (get_versions e)
    done (
        mark_best (best_from (prefers_higher reward.preferred_direction) 0 vals none)
          (map dec_or_unavailable vals))
