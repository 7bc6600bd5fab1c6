-- ===== src/Controller/Target.antt =====
-- controllers/target.go: at most one experiment at a time has a target.
pub mod Exclusion
pub mod Acquire
pub mod Next
use etc.Prelude.{
  ℕ, ◌≡◌, refl, Bool, true, false, ◌&&◌, not, Option, none, some, List, [], ◌∷◌, String, str_eq,
  if◌then◌else◌,
}
use etc.Api.Constants.{ExperimentConditionType, experiment_completed, target_acquired}
use etc.Api.Status.{get_condition, is_true, is_false}
use etc.Api.Types.{Time, ExperimentCondition, Experiment}
use etc.Controller.Effects.{
  Call, list_experiments, release, Result, ok, err, Cluster, Env, M, ◌>>=◌, ◌>>◌, pure, gets, deref,
  ask, get_instance,
}
use etc.Controller.Recorder.{condition_is_true, record_target_acquired}

-- e.Status.GetCondition(kind), read only.
abbrev pub condition_of : Time → ExperimentConditionType → Experiment → ExperimentCondition
condition_of now kind e = (get_condition now kind e.status).0

-- The experiment after that call: the condition is added where it was missing.
abbrev pub with_condition : Time → ExperimentConditionType → Experiment → Experiment
with_condition now kind e = record e { status = (get_condition now kind e.status).1 }

unfoldable pub same_instance : Experiment → Experiment → Bool
same_instance e f = str_eq e.name f.name && str_eq e.namespace f.namespace

-- instance != nil && sameInstance(e, instance)
abbrev pub is_instance : Option Experiment → Experiment → Bool
is_instance none e = false
is_instance (some i) e = same_instance e i

-- containsString of experiment_controller.go.
unfoldable pub contains_string : List String → String → Bool
contains_string [] s = false
contains_string (item ∷ slice) s =
    let rest = contains_string slice s in if str_eq item s then true else rest

-- removeString of experiment_controller.go.
unfoldable pub remove_string : List String → String → List String
remove_string [] s = []
remove_string (item ∷ slice) s =
    let rest = remove_string slice s in if str_eq item s then rest else item ∷ rest

-- The loop of `activeContendersForTarget`: those with the target that are known not to be completed.
unfoldable pub contenders : Time → String → List Experiment → List Experiment
contenders now target [] = []
contenders now target (e ∷ es) =
    let rest = contenders now target es in
    if str_eq e.spec.target target && is_false (condition_of now experiment_completed e)
    then e ∷ rest
    else rest

abbrev or_empty {ℓ} : {A : Type ℓ} → Option (List A) → List A
or_empty none = []
or_empty (some l) = l

abbrev result_list : {A : Type 0} → Result (List A) → List A
result_list (ok l) = l
result_list (err e) = []

module _ ⦃cl : Cluster⦄ where
  unfoldable pub active_contenders_for_target : String → M (List Experiment)
  active_contenders_for_target target = do
    now ← gets (λ s. cl.now s.trace)
    items ← ask list_experiments cl.experiments
    pure (contenders now target (result_list items))

  -- The loop of `acquireTarget`: `none` if another experiment has the target, and else the earliest
  -- initialization time of all contenders.
  unfoldable pub contend : Time → Experiment → Option Time → List Experiment → Option (Option Time)
  contend now instance_ earliest [] = some earliest
  contend now instance_ earliest (e ∷ es) =
      let t = e.status.init_time in
      let same = same_instance instance_ e in
      let sooner = not same && cl.before t earliest in
      let rest = contend now instance_ (if sooner then t else earliest) es in
      if not same && is_true (condition_of now target_acquired e) then none else rest

  unfoldable pub acquire_if_first : Experiment → Option Time → M Bool
  acquire_if_first instance_ earliest = do
    deref earliest
    if not (cl.before earliest instance_.status.init_time)
        then record_target_acquired "" >> pure false
        else pure false

  unfoldable pub acquire_target : M Bool
  acquire_target = do
    have ← condition_is_true target_acquired
    if have then pure true else do
      i ← get_instance
      share_target ← active_contenders_for_target i.spec.target
      now ← gets (λ s. cl.now s.trace)
      elim (contend now i i.status.init_time share_target) [
        | none ↦ pure false
        | some earliest ↦ acquire_if_first i earliest
      ]

  -- The loop of `nextWaitingExperiment`.
  unfoldable pub next_waiting :
      Time
      → Option Experiment
      → Option Time
      → Option Experiment
      → List Experiment
      → Option Experiment
  next_waiting now instance_ earliest next [] = next
  next_waiting now instance_ earliest next (e ∷ es) =
      let t = e.status.init_time in
      let same = is_instance instance_ e in
      let sooner = not same && cl.before t earliest in
      let rest =
        next_waiting now instance_ (if sooner then t else earliest)
          (if sooner then some (with_condition now target_acquired e) else next) es in
      if not same && is_true (condition_of now target_acquired e) then none else rest

  unfoldable pub next_waiting_experiment : String → Option Experiment → M (Option Experiment)
  next_waiting_experiment target instance_ = do
    share_target ← active_contenders_for_target target
    now ← gets (λ s. cl.now s.trace)
    pure (next_waiting now instance_ (some now) none share_target)

  unfoldable pub release_next : Option Experiment → M (Unit {0})
  release_next none = pure tt
  release_next (some e) = ask (release e) (λ t. tt)

  unfoldable pub trigger_next_experiment : String → Option Experiment → M (Unit {0})
  trigger_next_experiment target instance_ = do
    next ← next_waiting_experiment target instance_
    release_next next

  -- The loop of `triggerWaitingExperiments`; each target is looked at once.
  trigger_targets : Option Experiment → List String → List Experiment → M (Unit {0})
  trigger_targets instance_ checked [] = pure tt
  trigger_targets instance_ checked (e ∷ es) =
      let target = e.spec.target in
      let skip = contains_string checked target in
      let rest = trigger_targets instance_ (if skip then checked else target ∷ checked) es in
      if skip then rest else trigger_next_experiment target instance_ >> rest

  unfoldable pub trigger_waiting_experiments : Option Experiment → M (Unit {0})
  unfolding trigger_targets
  trigger_waiting_experiments instance_ = do
    items ← ask list_experiments cl.experiments
    trigger_targets instance_ [] (result_list items)
