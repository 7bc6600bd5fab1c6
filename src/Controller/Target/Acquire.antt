-- ===== src/Controller/Target/Acquire.antt =====
-- A request that acquires the target: controllers/target.go, acquireTarget as a whole.
use etc.Prelude.{
  ℕ, ◌≡◌, ◌≤◌, refl, ◌∙◌, Bool, true, false, Option, none, some, List, ◌∷◌, str_eq, All, Any, arith,
  ltb, inl, inr, Bool-cases, Option-cases,
}
use mathlib.Core.Path.{subst}
use etc.Api.Constants.{experiment_completed, target_acquired}
use etc.Api.Types.{Time, Experiment, ExperimentCondition, ExperimentStatus}
use etc.Api.Status.{find_condition, get_condition, is_true, is_false}
use etc.Api.Status.Laws.{find_condition-get}
use etc.Controller.Effects.{
  list_experiments, Cluster, HasTimeOrder, Env, M, ◌>>=◌, pure, gets, deref, ask, on_status,
}
use etc.Controller.Recorder.{condition_is_true}
use etc.Controller.Target.{
  condition_of, same_instance, contenders, result_list, active_contenders_for_target, contend,
  acquire_if_first, acquire_target,
}
use etc.Controller.Target.Exclusion.{Yields, All-Any, AllYield, contend_sound, All-contenders}

-- Does the status say that the experiment has its target?
abbrev pub Holds : ExperimentStatus → Type 0
Holds s =
    (c : ExperimentCondition) × (find_condition target_acquired s.conditions ≡ some c)
    × (is_true c ≡ true)

ltb-false : (u t : ℕ) → ltb u t ≡ false → t ≤ u
ltb-false u t h = ground arith

get_condition_init_time :
    (now : Time) (s : ExperimentStatus)
    → (get_condition now target_acquired s).1.init_time ≡ s.init_time
unfolding get_condition
get_condition_init_time now s = ground arith

free_of :
    (now : Time) (s : ExperimentStatus)
    → ¬ Holds s
    → is_true (get_condition now target_acquired s).0 ≡ false
unfolding get_condition
free_of now s h = elim (Option-cases (find_condition target_acquired s.conditions)) [
  | inl e ↦ ground arith
  | inr (c, e) ↦ elim (Bool-cases (is_true c)) [
    | inl t ↦ absurd (h (c, e, t))
    | inr f ↦ rw (e, get_condition) f
  ]
]

module _ ⦃cl : Cluster⦄ (s : Env) where
  abbrev status₁ : ExperimentStatus
  status₁ = (get_condition (cl.now s.trace) target_acquired s.instance_.status).1

  abbrev instance₁ : Experiment
  instance₁ = record s.instance_ { status = status₁ }

  abbrev listed : Env
  listed = record s { instance_ = instance₁; trace = list_experiments ∷ s.trace }

  abbrev rivals : List Experiment
  rivals =
      contenders (cl.now s.trace) s.instance_.spec.target (result_list (cl.experiments s.trace))

  module _
      (free : is_true (condition_of (cl.now s.trace) target_acquired s.instance_) ≡ false) where
    acquire_run : acquire_target s ≡ (
        let m : M Bool =
          elim (contend (cl.now (list_experiments ∷ s.trace)) instance₁ status₁.init_time rivals) [
            | none ↦ pure false
            | some earliest ↦ acquire_if_first instance₁ earliest
          ] in
        m listed)
    unfolding acquire_target condition_is_true active_contenders_for_target ◌>>=◌ gets ask on_status
        pure
    acquire_run = rw free

    not_held : ¬ Holds status₁
    not_held (c, f, t) =
        cc (find_condition-get (cl.now s.trace) target_acquired target_acquired s.instance_.status)

    -- The last test: it passes only where no time is before that of the experiment.
    last_test :
        (u t : Time)
        → HasTimeOrder cl
        → status₁.init_time ≡ some t
        → u ≤ t
        → Holds (acquire_if_first instance₁ (some u) listed).1.instance_.status
        → u ≡ t
    unfolding acquire_if_first ◌>>=◌ deref pure
    last_test u t order i le h = elim (Bool-cases (ltb u t)) [
      | inl sooner ↦
          let b : cl.before (some u) status₁.init_time ≡ true =
            rw (i, order.before_some u t) sooner in
          absurd (not_held (rw b at h))
      | inr not_sooner ↦ omega (arith, ltb-false u t not_sooner)
    ]

    acquire_cases :
        (t : Time) (o : Option (Option Time))
        → HasTimeOrder cl
        → status₁.init_time ≡ some t
        → contend (cl.now (list_experiments ∷ s.trace)) instance₁ (some t) rivals ≡ o
        → Holds
            ((let m : M Bool = elim o [
              | none ↦ pure false
              | some earliest ↦ acquire_if_first instance₁ earliest
            ] in
              m listed)).1.instance_.status
        → AllYield (cl.now (list_experiments ∷ s.trace)) t instance₁ rivals
    unfolding pure
    acquire_cases t none order i e h = absurd (not_held h)
    acquire_cases t (some m) order i e h =
        let (u, p, q, r) =
          contend_sound order (cl.now (list_experiments ∷ s.trace)) instance₁ t rivals m e in
        let h' = rw p at h in
        subst (λ x. AllYield (cl.now (list_experiments ∷ s.trace)) x instance₁ rivals)
          (last_test u t order i q h') r

-- With the order of times, a request for an experiment that has an initialization time and does not
-- have its target takes the target only if, in what it listed, every other experiment for the
-- target that is known not to be completed neither has the target nor was initialized earlier.
pub acquire_target_safe :
    ⦃cl : Cluster⦄ (s : Env) (t : Time)
    → HasTimeOrder cl
    → s.instance_.status.init_time ≡ some t
    → ¬ Holds s.instance_.status
    → Holds (acquire_target s).1.instance_.status
    → All
        (λ e.
          str_eq e.spec.target s.instance_.spec.target ≡ true
          → is_false (condition_of (cl.now s.trace) experiment_completed e) ≡ true
          → same_instance s.instance_ e ≡ false
          → Yields (cl.now (list_experiments ∷ s.trace)) t e)
        (result_list (cl.experiments s.trace))
unfolding same_instance
acquire_target_safe ⦃cl⦄ s t order i free h =
    let f = free_of (cl.now s.trace) s.instance_.status free in
    let i' = get_condition_init_time (cl.now s.trace) s.instance_.status ∙ i in
    let h' = rw (acquire_run s f, i') at h in
    All-contenders (λ e. same_instance s.instance_ e ≡ false → Yields _ t e) (cl.now s.trace)
      s.instance_.spec.target (result_list (cl.experiments s.trace))
      (acquire_cases s f t _ order i' refl h')

-- The request of `s` lists the experiment of `s'`: another one for its target that is not completed.
pub record Sees (cl : Cluster) (s s' : Env) : Type 0 where
  pub listed_ : Any (λ e. e ≡ s'.instance_) (result_list (cl.experiments s.trace))
  pub target : str_eq s'.instance_.spec.target s.instance_.spec.target ≡ true
  pub active : is_false (condition_of (cl.now s.trace) experiment_completed s'.instance_) ≡ true
  pub distinct : same_instance s.instance_ s'.instance_ ≡ false

not_sooner :
    ⦃cl : Cluster⦄ (s s' : Env) (t u : Time)
    → HasTimeOrder cl
    → Sees cl s s'
    → s.instance_.status.init_time ≡ some t
    → s'.instance_.status.init_time ≡ some u
    → ¬ Holds s.instance_.status
    → Holds (acquire_target s).1.instance_.status
    → t ≤ u
not_sooner ⦃cl⦄ s s' t u order sees i i' free h =
    let all = acquire_target_safe s t order i free h in
    (All-Any
        (λ e.
          str_eq e.spec.target s.instance_.spec.target ≡ true
          → is_false (condition_of (cl.now s.trace) experiment_completed e) ≡ true
          → same_instance s.instance_ e ≡ false
          → Yields (cl.now (list_experiments ∷ s.trace)) t e)
        s'.instance_ (result_list (cl.experiments s.trace)) all sees.listed_ sees.target sees.active
        sees.distinct).not_sooner
      u i'

-- With the order of times, two requests for different experiments with one target, both with an
-- initialization time and without the target, each of which lists the other experiment as not
-- completed, both take the target only if the two were initialized at one time.
pub acquire_target_exclusive :
    ⦃cl : Cluster⦄ (s s' : Env) (t u : Time)
    → HasTimeOrder cl
    → Sees cl s s'
    → Sees cl s' s
    → s.instance_.status.init_time ≡ some t
    → s'.instance_.status.init_time ≡ some u
    → ¬ Holds s.instance_.status
    → ¬ Holds s'.instance_.status
    → Holds (acquire_target s).1.instance_.status
    → Holds (acquire_target s').1.instance_.status
    → t ≡ u
acquire_target_exclusive s s' t u order sees sees' i i' free free' h h' = omega (
  arith,
  not_sooner s s' t u order sees i i' free h,
  not_sooner s' s u t order sees' i' i free' h',
)
