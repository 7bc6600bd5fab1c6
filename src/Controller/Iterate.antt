-- ===== src/Controller/Iterate.antt =====
-- controllers/iterate.go: one iteration of an experiment.
pub mod Schedule
pub mod Rollback
use etc.Prelude.{
  ℕ, zero, suc, ◌+◌, ◌≡◌, refl, Bool, true, false, ◌&&◌, ◌||◌, not, Option, none, some, List, [],
  ◌∷◌, ◌++◌, String, length, get_elem?, if◌then◌else◌,
}
use etc.Prelude.Int.{ℤ, pos, negsuc, ◌+ℤ◌, ◌-ℤ◌, ◌*ℤ◌, wrap32, ltb_ℤ, eqb_ℤ, quot_ℤ, rem_ℤ}
use etc.Prelude.Text.{◌+++◌, print_int}
use etc.Api.Constants.{finishing}
use etc.Api.Constants.Reason
use etc.Api.Types.{Time, Objective, Criteria, Analysis, VersionInfo, Experiment, ExperimentStatus}
use etc.Api.Defaults.Getters.{
  get_iterations_per_loop, get_max_loops, get_interval_as_duration, get_deployment_pattern,
  get_rollback_on_failure,
}
use etc.Api.Status.{get_completed_iterations, set_version_recommended_for_promotion}
use etc.Controller.Effects.{
  Call, update_status, Result, ok, err, Cluster, Env, M, ◌>>=◌, ◌>>◌, pure, panics, gets, deref,
  ask, set_status, get_instance,
}
use etc.Controller.Recorder.{record_experiment_failed, record_experiment_progress}
use etc.Controller.Stages.{
  ReconcileResult, advance_stage, end_request, end_experiment, fail_experiment,
}
use etc.Controller.Weights.{redistribute_weight, update_observed_weights}
use etc.Controller.Analytics.{invoke}
use etc.Controller.Handler.{finish, rollback, loop}
use etc.Controller.Launch.{Flow, HandlerLaunchModifier, no_modifier, launch_handler_wrapper}

-- Both factors are int32, and so is their product.
unfoldable pub more_iterations_needed : Experiment → ℤ → Bool
more_iterations_needed i completed_iterations =
    ltb_ℤ completed_iterations (wrap32 (get_iterations_per_loop i.spec *ℤ get_max_loops i.spec))

-- The number of the loop that the last iteration ended. A remainder by 0 panics.
unfoldable pub completed_loop : Experiment → M (Option ℤ)
completed_loop i =
    let n = get_completed_iterations i.status in
    let per = get_iterations_per_loop i.spec in
    if eqb_ℤ per (pos 0)
    then panics
    else pure (if eqb_ℤ (rem_ℤ n per) (pos 0) then some (quot_ℤ n per) else none)

-- `now.Before(expected)`, unless less than 100 ms are missing.
abbrev enough_time : Time → Time → ℤ → Bool
enough_time now last interval =
    let expected = pos last +ℤ interval in
    if ltb_ℤ (pos now) expected then ltb_ℤ (expected -ℤ pos now) (pos 100000000) else true

unfoldable pub sufficient_time_passed : Time → Experiment → ℤ → Bool
unfolding ◌+ℤ◌ ◌-ℤ◌ get_interval_as_duration
sufficient_time_passed now i completed_iterations =
    if eqb_ℤ completed_iterations (pos 0) then true else elim i.status.last_update_time [
      | none ↦ true
      | some last ↦ enough_time now last (get_interval_as_duration i.spec)
    ]

-- The versions that do not satisfy the objective at `index`. An assessment that is too short panics.
unfoldable pub failing_versions : ℕ → List (String × List Bool) → M (List String)
failing_versions index [] = pure []
failing_versions index ((version, satisfies) ∷ m) = deref (get_elem? satisfies index) >>= λ ok.
    failing_versions index m >>= λ rest. pure (if ok then rest else version ∷ rest)

unfoldable pub assessments_of : Experiment → M (List (String × List Bool))
assessments_of i = do a ← deref i.status.analysis; v ← deref a.version_assessments; pure v.content

-- The loop over the objectives, from `index`.
unfoldable pub failing_from : Experiment → ℕ → List Objective → M (List String)
unfolding assessments_of
failing_from i index [] = pure []
failing_from i index (o ∷ os) =
    let rest = failing_from i (index + 1) os in
    if get_rollback_on_failure o (get_deployment_pattern i.spec)
    then (assessments_of i >>= λ data_.
        failing_versions index data_ >>= λ failed. rest >>= λ more. pure (failed ++ more))
    else rest

unfoldable pub versions_must_rollback : M (List String)
versions_must_rollback = do
  i ← get_instance
  elim i.spec.criteria [ none ↦ pure [] | some c ↦ failing_from i 0 c.objectives ]

abbrev pub not_empty {ℓ} : {A : Type ℓ} → List A → Bool
not_empty [] = false
not_empty (x ∷ xs) = true

unfoldable pub must_rollback : M Bool
must_rollback = do versions ← versions_must_rollback; pure (not_empty versions)

-- The analysis that is stored: it keeps the histograms of the one before.
unfoldable pub keep_hists : Option Analysis → Analysis → Analysis
keep_hists none a = a
keep_hists (some old) a = record a { aggregated_builtin_hists = old.aggregated_builtin_hists }

abbrev pub set_analysis : Analysis → ExperimentStatus → ExperimentStatus
set_analysis a s = record s { analysis = some (keep_hists s.analysis a) }

-- setStartTimeIfNotSet writes the status at once; its error ends the request.
abbrev pub set_start : Time → ExperimentStatus → ExperimentStatus
set_start now s = record s { start_time = some now }

abbrev pub count_iteration : ℤ → Time → ExperimentStatus → ExperimentStatus
count_iteration n now s = record s {
  completed_iterations = some (wrap32 (n +ℤ pos 1));
  last_update_time = some now;
}

abbrev pub result_error : String → ReconcileResult
result_error e = record { requeue_after = none; error = some e }

-- What a stopping handler says, or what follows where there is none.
unfoldable pub or_else : M Flow → M ReconcileResult → M ReconcileResult
or_else m next = m >>= λ f. if f.0 then pure f.1 else next

abbrev pub baseline_name : Option VersionInfo → M String
baseline_name none = panics
baseline_name (some v) = pure v.baseline.name

module _ ⦃cl : Cluster⦄ where
  unfoldable pub start_time_of : Option Time → M (Option String)
  start_time_of (some t) = pure none
  start_time_of none = do
    now ← gets (λ s. cl.now s.trace)
    set_status (set_start now)
    i' ← get_instance
    ask (update_status i') (λ t. cl.status_updated t i')

  unfoldable pub set_start_time_if_not_set : M (Option String)
  unfolding start_time_of
  set_start_time_if_not_set = do i ← get_instance; start_time_of i.status.start_time

  unfoldable pub count_from : Option ℤ → M (Unit {0})
  count_from none = panics
  count_from (some n) = do now ← gets (λ s. cl.now s.trace); set_status (count_iteration n now)

  -- `*CompletedIterations++` on an int32.
  unfoldable pub complete_iteration : M (Unit {0})
  complete_iteration = do i ← get_instance; count_from i.status.completed_iterations

  abbrev pub finishing_modifier : HandlerLaunchModifier
  finishing_modifier = record no_modifier {
    on_successful_launch = some (advance_stage finishing >> pure tt);
  }

  unfoldable pub finish_experiment : M ReconcileResult
  finish_experiment =
      or_else (launch_handler_wrapper finish finishing_modifier)
        (end_experiment "Experiment completed successfully")

  unfoldable pub rollback_experiment : M ReconcileResult
  rollback_experiment =
      or_else (launch_handler_wrapper rollback finishing_modifier)
        (end_experiment "Experiment rolled back")

  -- The end of an iteration: at the end of a loop its handler is launched, and else the next
  -- iteration is scheduled.
  unfoldable pub schedule_next : M ReconcileResult
  schedule_next = do
    i ← get_instance
    l ← completed_loop i
    let next : M ReconcileResult = end_request (some (get_interval_as_duration i.spec))
    elim l [
      | none ↦ next
      | some n ↦ do
        record_experiment_progress Reason.iteration_completed ("Completed Loop " +++ print_int n)
        or_else (launch_handler_wrapper loop (record no_modifier { loop_ = some n })) next
    ]

  unfoldable pub record_iteration : M ReconcileResult
  record_iteration = do
    i ← get_instance
    baseline ← baseline_name i.spec.version_info
    set_status (set_version_recommended_for_promotion baseline)
    complete_iteration
    i' ← get_instance
    n ← deref i'.status.completed_iterations
    record_experiment_progress Reason.iteration_completed ("Completed Iteration " +++ print_int n)
    schedule_next

  unfoldable pub observe_and_record : M ReconcileResult
  observe_and_record = do
    e ← update_observed_weights
    elim e [
      | some e ↦ do
        record_experiment_failed Reason.invalid_experiment
            ("Specification of version weightObjectRef invalid: " +++ e)
        fail_experiment
      | none ↦ record_iteration
    ]

  unfoldable pub shift_traffic : M ReconcileResult
  shift_traffic = do
    e ← redistribute_weight
    elim e [
      | some e ↦ do
        record_experiment_failed Reason.weight_redistribution_failed
            ("Failure redistributing weights: " +++ e)
        fail_experiment
      | none ↦ observe_and_record
    ]

  unfoldable pub assess : M ReconcileResult
  assess = do
    i ← get_instance
    analysis ← invoke cl.config.endpoint i
    elim analysis [
      | err e ↦ do
        record_experiment_failed Reason.analytics_service_error "Call to analytics engine failed"
        fail_experiment
      | ok a ↦ do
        set_status (set_analysis a)
        rollback_needed ← must_rollback
        if rollback_needed then rollback_experiment else shift_traffic
    ]

  unfoldable pub iterate : M ReconcileResult
  iterate = do
    i ← get_instance
    n ← deref i.status.completed_iterations
    now ← gets (λ s. cl.now s.trace)
    if not (more_iterations_needed i n)
        then finish_experiment
        else if not (sufficient_time_passed now i n)
        then pure (result_error "insufficient time has passed since previous iteration")
        else assess

  unfoldable pub do_iteration : M ReconcileResult
  do_iteration = do
    e ← set_start_time_if_not_set
    elim e [ some e ↦ pure (result_error e) | none ↦ iterate ]
