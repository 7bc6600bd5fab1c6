-- ===== src/Controller/Reconcile.antt =====
-- controllers/experiment_controller.go, Reconcile: one request for an experiment that was read.
pub mod Ended
pub mod Returns
use etc.Prelude.{
  ℕ, ◌≡◌, refl, Bool, true, false, not, Option, none, some, List, [], ◌∷◌, String, if◌then◌else◌,
}
use etc.Prelude.Text.{◌+++◌}
use etc.Api.Constants.{initializing, running, experiment_completed}
use etc.Api.Constants.Reason
use etc.Api.Types.{Experiment, VersionInfo, ExperimentStatus}
use etc.Api.Defaults.{initialize_spec}
use etc.Api.Status.{initialize_status, set_version_recommended_for_promotion}
use etc.Controller.Effects.{
  Call, update_status, Cluster, Env, Outcome, M, ◌>>=◌, ◌>>◌, pure, gets, ask, set_status, set_spec,
  get_instance,
}
use etc.Controller.Recorder.{
  record_experiment_progress, record_experiment_failed, condition_is_true,
}
use etc.Controller.Target.{acquire_target}
use etc.Controller.Stages.{ReconcileResult, advance_stage, end_request, fail_experiment}
use etc.Controller.Weights.{update_observed_weights}
use etc.Controller.Handler.{
  start, get_handler, get_handler_status, is_not_launched, all_handler_types,
}
use etc.Controller.Launch.{
  HandlerLaunchModifier, no_modifier, check_handlers_status, launch_handler_wrapper,
}
use etc.Controller.Validation.{is_experiment_valid, is_version_info_valid}
use etc.Controller.Metrics.{should_read_metrics, read_metrics}
use etc.Controller.Iterate.{or_else, do_iteration, baseline_name}

-- A new experiment gets its status.
abbrev initialized : ℕ → Experiment → ExperimentStatus → ExperimentStatus
initialized now i s = (initialize_status now (record i { status = s })).status

module _ ⦃cl : Cluster⦄ where
  -- An error of the update is only logged.
  unfoldable pub announce_new : M ReconcileResult
  announce_new = do
    i ← get_instance
    e ← ask (update_status i) (λ t. cl.status_updated t i)
    record_experiment_progress Reason.experiment_initialized "Experiment status initialized"
    end_request none

  unfoldable pub reconcile_new : M ReconcileResult
  reconcile_new = do
    now ← gets (λ s. cl.now s.trace)
    i ← get_instance
    set_status (initialized now i)
    announce_new

  -- The start handler is launched only if it has never been launched before.
  abbrev pub start_modifier : Experiment → HandlerLaunchModifier
  start_modifier i = record no_modifier {
    prerequisite_check =
        some (get_handler_status (get_handler i start) none >>= λ s. pure (is_not_launched s));
  }

  unfoldable pub reconcile_running : M ReconcileResult
  reconcile_running = do
    valid ← is_version_info_valid
    if not valid then fail_experiment else do
      i ← get_instance
      baseline ← baseline_name i.spec.version_info
      set_status (set_version_recommended_for_promotion baseline)
      do_iteration

  -- The first advance to Running reads the weights.
  unfoldable pub first_weights : M ReconcileResult
  first_weights = do
    e ← update_observed_weights
    elim e [
      | none ↦ end_request none
      | some e ↦ do
        record_experiment_failed Reason.invalid_experiment
            ("Specification of version weightObjectRef invalid: " +++ e)
        fail_experiment
    ]

  unfoldable pub reconcile_started : M ReconcileResult
  reconcile_started = do
    i ← get_instance
    if should_read_metrics i
        then (do ok ← read_metrics; if ok then end_request none else fail_experiment)
        else do
          advanced ← advance_stage running
          if advanced then first_weights else reconcile_running

  unfoldable pub reconcile_acquired : M ReconcileResult
  reconcile_acquired = do
    advanced ← advance_stage initializing
    if advanced then end_request none else do
      i ← get_instance
      or_else (launch_handler_wrapper start (start_modifier i)) reconcile_started

  unfoldable pub reconcile_valid : M ReconcileResult
  reconcile_valid = do
    acquired ← acquire_target
    if not acquired then end_request none else reconcile_acquired

  unfoldable pub reconcile_active : M ReconcileResult
  reconcile_active = do
    set_spec initialize_spec
    i ← get_instance
    if not (is_experiment_valid i) then fail_experiment else reconcile_valid

  unfoldable pub reconcile_known : M ReconcileResult
  reconcile_known = do
    over ← condition_is_true experiment_completed
    if over
        then end_request none
        else or_else (check_handlers_status all_handler_types) reconcile_active

  abbrev pub by_init_time : Option ℕ → M ReconcileResult
  by_init_time none = reconcile_new
  by_init_time (some t) = reconcile_known

  unfoldable pub reconcile_instance : M ReconcileResult
  reconcile_instance = do i ← get_instance; by_init_time i.status.init_time

  -- The request for an experiment as it was read, after the calls of earlier requests.
  unfoldable pub reconcile : Experiment → List Call → Outcome ReconcileResult × Env
  reconcile e trace =
      reconcile_instance (record { instance_ = e; original = e.status; trace = trace })
