-- ===== src/Controller/Target/Exclusion.antt =====
-- Who gets a target: controllers/target.go, acquireTarget against what was listed.
use etc.Prelude.{
  ◌≡◌, ◌≤◌, refl, sym, ◌∙◌, ap, true, false, Option, none, some, List, [], ◌∷◌, String, str_eq, All,
  Any, arith, ltb, inl, inr, Bool-cases, if◌then◌else◌,
}
use mathlib.Core.Path.{subst}
use etc.Api.Constants.{experiment_completed, target_acquired}
use etc.Api.Types.{Time, Experiment}
use etc.Api.Status.{is_true, is_false}
use etc.Controller.Effects.{Cluster, HasTimeOrder}
use etc.Controller.Target.{condition_of, same_instance, contenders, contend}

-- It does not have the target, and was not initialized before `t`.
pub record Yields (now t : Time) (e : Experiment) : Type 0 where
  pub free : is_true (condition_of now target_acquired e) ≡ false
  pub not_sooner : (u : Time) → e.status.init_time ≡ some u → t ≤ u

abbrev pub AllYield : Time → Time → Experiment → List Experiment → Type 0
AllYield now t i es = All (λ e. same_instance i e ≡ false → Yields now t e) es

module _ ⦃cl : Cluster⦄ (order : HasTimeOrder cl) where
  Yields-earlier : (now t u : Time) (e : Experiment) → Yields now t e → u ≤ t → Yields now u e
  Yields-earlier now t u e y h = record {
    free = y.free;
    not_sooner = λ x p. omega (arith, y.not_sooner x p);
  }

  contend_same :
      (now : Time) (i e : Experiment) (t : Option Time) (es : List Experiment)
      → same_instance i e ≡ true
      → contend now i t (e ∷ es) ≡ contend now i t es
  unfolding contend
  contend_same now i e t es h = rw h

  contend_nil : (now : Time) (i : Experiment) (t : Option Time) → contend now i t [] ≡ some t
  unfolding contend
  contend_nil now i t = refl

  contend_owned :
      (now : Time) (i e : Experiment) (t : Option Time) (es : List Experiment)
      → same_instance i e ≡ false
      → is_true (condition_of now target_acquired e) ≡ true
      → contend now i t (e ∷ es) ≡ none
  unfolding contend
  contend_owned now i e t es h k = rw (h, k)

  contend_free :
      (now : Time) (i e : Experiment) (t v : Option Time) (es : List Experiment)
      → same_instance i e ≡ false
      → is_true (condition_of now target_acquired e) ≡ false
      → (if cl.before e.status.init_time t then e.status.init_time else t) ≡ v
      → contend now i t (e ∷ es) ≡ contend now i v es
  unfolding contend
  contend_free now i e t v es h k w = rw (h, k) (ap (λ x. contend now i x es) w)

  -- The earlier of the time so far and that of another experiment.
  earlier :
      (t : Time) (o : Option Time)
      → (v : Time) × ((if cl.before o (some t) then o else some t) ≡ some v)
        × (v ≤ t)
        × ((x : Time) → o ≡ some x → v ≤ x)
  earlier t none = (t, rw (order.none_before (some t)), omega arith, λ x p. cc)
  earlier t (some w) = elim (Bool-cases (ltb w t)) [
    | inl h ↦ (w, rw (order.before_some w t, h), ground (arith, h), λ x p. ground arith)
    | inr h ↦ (t, rw (order.before_some w t, h), omega arith, λ x p. ground (arith, h))
  ]

  -- The loop keeps the earliest time of all; where it reports no owner, every other one yields.
  pub contend_sound :
      (now : Time) (i : Experiment) (t : Time) (es : List Experiment) (m : Option Time)
      → contend now i (some t) es ≡ some m
      → (u : Time) × (m ≡ some u) × (u ≤ t) × AllYield now u i es
  contend_sound now i t [] m h = (t, cc (contend_nil now i (some t)), omega arith, tt)
  contend_sound now i t (e ∷ es) m h = elim (Bool-cases (same_instance i e)) [
    | inl same ↦
        let (u, p, q, r) =
          contend_sound now i t es m (sym (contend_same now i e (some t) es same) ∙ h) in
        (u, p, q, ((λ d. cc), r))
    | inr other ↦ elim (Bool-cases (is_true (condition_of now target_acquired e))) [
      | inl owner ↦ absurd (cc (contend_owned now i e (some t) es other owner))
      | inr free ↦
          let (v, w, x, y) = earlier t e.status.init_time in
          let h' = sym (contend_free now i e (some t) (some v) es other free w) ∙ h in
          let (u, p, q, r) = contend_sound now i v es m h' in
          (
            u,
            p,
            omega arith,
            ((λ d. record { free = free; not_sooner = λ z k. omega (arith, y z k) }), r),
          )
    ]
  ]

pub All-Any :
    (P : Experiment → Type 0) (j : Experiment) (es : List Experiment)
    → All P es
    → Any (λ e. e ≡ j) es
    → P j
All-Any P j [] h m = absurd m
All-Any P j (e ∷ es) h (inl p) = subst P p h.0
All-Any P j (e ∷ es) h (inr m) = All-Any P j es h.1 m

pub All-contenders :
    (P : Experiment → Type 0) (now : Time) (target : String) (es : List Experiment)
    → All P (contenders now target es)
    → All
        (λ e.
          str_eq e.spec.target target ≡ true
          → is_false (condition_of now experiment_completed e) ≡ true
          → P e)
        es
unfolding contenders
All-contenders P now target [] h = tt
All-contenders P now target (e ∷ es) h = elim (Bool-cases (str_eq e.spec.target target)) [
  | inl same ↦ elim (Bool-cases (is_false (condition_of now experiment_completed e))) [
    | inl active ↦
        let h' = rw (same, active) at h in ((λ p q. h'.0), All-contenders P now target es h'.1)
    | inr over ↦ let h' = rw (same, over) at h in ((λ p q. cc), All-contenders P now target es h')
  ]
  | inr other ↦ let h' = rw other at h in ((λ p q. cc), All-contenders P now target es h')
]
