-- ===== src/Controller/Weights/Patches.antt =====
-- The patches of weights: controllers/weights.go, addPatch and the loop of redistributeWeight.
use etc.Prelude.{
  ◌≡◌, refl, sym, ap, ◌∙◌, false, Option, none, some, List, [], ◌∷◌, ◌++◌, String, inl, inr,
  Bool-cases,
}
use mathlib.Core.List.{append_assoc, append-nil}
use mathlib.Core.Path.{subst}
use etc.Prelude.Int.{ℤ, eqb_ℤ}
use etc.Prelude.Text.{is_empty}
use etc.Api.Types.{
  ObjectReference, VersionDetail, WeightData, Analysis, WeightsAnalysis, Experiment,
}
use etc.Controller.Effects.{done, Result, ok, err, Env, ◌>>=◌, pure, deref}
use etc.Controller.Effects.RunsTo.{
  RunsTo, RunsTo-bind, RunsTo-pure, RunsTo-gets, RunsTo-weaken, RunsTo-of,
}
use etc.Controller.Weights.{
  get_key, get_weight_recommendation, get_current_weight, PatchMap, recommended, add_weight,
  add_patch_to, add_patch, add_patches,
}
use etc.Controller.Weights.Wanted.{
  patches_at, version_patch, patches_for, expected, patches_at-add, Adds, AddsAll,
}

module _ (i₀ : Experiment) (a : Analysis) (w : WeightsAnalysis)
    (known : i₀.status.analysis ≡ some a) (weighed : a.weights ≡ some w) where
  abbrev current : List WeightData
  current = i₀.status.current_weight_distribution

  abbrev Keeps : {A : Type 0} → (A → Type 0) → A → Experiment → Type 0
  Keeps P x i = P x × (i ≡ i₀)

  recommended_run :
      (name : String) (s : Env)
      → recommended name (some a) s ≡ (done (get_weight_recommendation name w.content), s)
  unfolding recommended ◌>>=◌ deref pure
  recommended_run name s = rw weighed refl

  weighed_Adds :
      (v : VersionDetail) (ref : ObjectReference) (m : PatchMap) (o : Option ℤ)
      → v.weight_obj_ref ≡ some ref
      → is_empty ref.field_path ≡ false
      → get_weight_recommendation v.name w.content ≡ o
      → Adds w.content current v m (elim o [
        | none ↦ err "no weight recommendation provided"
        | some weight ↦ ok (add_weight v ref weight current m)
      ])
  unfolding add_weight patches_for
  weighed_Adds v ref m none e f g = (ref, e, f, g)
  weighed_Adds v ref m (some weight) e f g = λ key.
      elim (Bool-cases (eqb_ℤ weight (get_current_weight v.name current))) [
        | inl same ↦ rw (e, f, g, same) (sym (append-nil (patches_at key m)))
        | inr new ↦ rw (e, f, g, new) (patches_at-add (get_key ref) key _ m)
      ]

  recommended_returns :
      (name : String) (o : Option Analysis) (t : Env)
      → o ≡ some a
      → t.instance_ ≡ i₀
      → RunsTo (Keeps (λ x. x ≡ get_weight_recommendation name w.content)) (recommended name o) t
  recommended_returns name o t e p =
      subst
        (λ x.
          RunsTo (Keeps (λ y. y ≡ get_weight_recommendation name w.content)) (recommended name x) t)
        (sym e)
        (RunsTo-of _ t (get_weight_recommendation name w.content)
          (ap (λ r. r.0) (recommended_run name t))
          (refl, ap (λ r. r.1.instance_) (recommended_run name t) ∙ p))

  ref_returns :
      (v : VersionDetail) (ref : ObjectReference) (m : PatchMap) (s : Env)
      → v.weight_obj_ref ≡ some ref
      → s.instance_ ≡ i₀
      → RunsTo (Keeps (Adds w.content current v m)) (add_patch_to v ref m) s
  unfolding add_patch_to patches_for
  ref_returns v ref m s e p = elim (Bool-cases (is_empty ref.field_path)) [
    | inl f ↦ rw f (RunsTo-pure _ s ((λ key. rw (e, f) (sym (append-nil (patches_at key m)))), p))
    | inr f ↦ rw f (
        RunsTo-bind {Q = Keeps (λ i. i ≡ i₀)} _ _ s (RunsTo-gets _ s (p, p)) (λ i t k.
          RunsTo-bind _ _ t
            (recommended_returns v.name i.status.analysis t
              (ap (λ j. j.status.analysis) k.0 ∙ known) k.1)
            (λ o u l. RunsTo-pure _ u (
              subst
                  (λ c. Adds w.content current v m (elim o [
                    | none ↦ err "no weight recommendation provided"
                    | some weight ↦ ok (add_weight v ref weight c m)
                  ]))
                  (ap (λ j. j.status.current_weight_distribution) (sym k.0))
                  (weighed_Adds v ref m o e f (sym l.0)),
              l.1,
            ))))
  ]

  option_returns :
      (v : VersionDetail) (m : PatchMap) (o : Option ObjectReference) (s : Env)
      → v.weight_obj_ref ≡ o
      → s.instance_ ≡ i₀
      → RunsTo
          (Keeps (Adds w.content current v m))
          (elim o [ none ↦ pure (ok m) | some ref ↦ add_patch_to v ref m ])
          s
  unfolding patches_for
  option_returns v m none s e p =
      RunsTo-pure _ s ((λ key. rw e (sym (append-nil (patches_at key m)))), p)
  option_returns v m (some ref) s e p = ref_returns v ref m s e p

  join_Adds :
      (v : VersionDetail) (vs : List VersionDetail) (m m' : PatchMap) (r : Result PatchMap)
      → Adds w.content current v m (ok m')
      → AddsAll w.content current vs m' r
      → AddsAll w.content current (v ∷ vs) m r
  unfolding expected
  join_Adds v vs m m' (ok n) h k = λ key.
      let mine = patches_for key (version_patch w.content current v) in
      let rest = expected key w.content current vs in
      k key ∙ ap (λ l. l ++ rest) (h key) ∙ append_assoc (patches_at key m) mine rest
  join_Adds v vs m m' (err e) h k = inr k

  later_returns :
      (v : VersionDetail) (vs : List VersionDetail) (m : PatchMap) (r : Result PatchMap) (t : Env)
      → Keeps (Adds w.content current v m) r t.instance_
      → ((m' : PatchMap) → RunsTo (Keeps (AddsAll w.content current vs m')) (add_patches vs m') t)
      → RunsTo
          (Keeps (AddsAll w.content current (v ∷ vs) m))
          (elim r [ ok m' ↦ add_patches vs m' | err e ↦ pure (err e) ])
          t
  later_returns v vs m (ok m') t h k =
      RunsTo-weaken _ t (k m') (λ r i x. (join_Adds v vs m m' r h.0 x.0, x.1))
  later_returns v vs m (err e) t h k = RunsTo-pure _ t (inl h.0, h.1)

  add_patches_returns :
      (vs : List VersionDetail) (m : PatchMap) (s : Env)
      → s.instance_ ≡ i₀
      → RunsTo (Keeps (AddsAll w.content current vs m)) (add_patches vs m) s
  unfolding add_patches add_patch expected
  add_patches_returns [] m s p = RunsTo-pure _ s ((λ key. sym (append-nil (patches_at key m))), p)
  add_patches_returns (v ∷ vs) m s p =
      RunsTo-bind _ _ s (option_returns v m v.weight_obj_ref s refl p)
        (λ r t h. later_returns v vs m r t h (λ m'. add_patches_returns vs m' t h.1))

-- With recommended weights in the analysis, the loop that collects the patches returns and leaves
-- the experiment as it is; it gives a map in which every object has exactly the patches of the
-- versions that refer to a field of it and whose recommended weight differs from the current one,
-- in the order of the versions, or an error where some version refers to a field and no weight is
-- recommended for it.
pub add_patches-AddsAll :
    (vs : List VersionDetail) (s : Env) (a : Analysis) (w : WeightsAnalysis)
    → s.instance_.status.analysis ≡ some a
    → a.weights ≡ some w
    → RunsTo
        (λ r i.
          AddsAll w.content s.instance_.status.current_weight_distribution vs [] r
          × (i ≡ s.instance_))
        (add_patches vs [])
        s
add_patches-AddsAll vs s a w e f = add_patches_returns s.instance_ a w e f vs [] s refl
