-- ===== src/Controller/Stages.antt =====
-- controllers/experiment_controller.go: the stages of an experiment and the end of a request.
pub mod Ends
use etc.Prelude.{
  ℕ, ◌≡◌, refl, Bool, true, false, ◌&&◌, not, Option, none, some, List, [], ◌∷◌, String,
  if◌then◌else◌,
}
use etc.Prelude.Int.{ℤ}
use etc.Prelude.Text.{◌+++◌, contains}
use etc.Api.Constants.{ExperimentStageType, completed, stage_text, after}
use etc.Api.Constants.Reason
use etc.Api.Types.{Experiment, ExperimentStatus}
use etc.Controller.Effects.{
  Call, update_status, Cluster, Env, M, ◌>>=◌, ◌>>◌, pure, gets, deref, panics, ask, set_status,
  get_instance,
}
use etc.Controller.Effects.Equality.{deep_equal}
use etc.Controller.Recorder.{record_experiment_progress, record_experiment_completed}
use etc.Controller.Target.{trigger_next_experiment}

-- ctrl.Result and the error beside it.
pub record ReconcileResult : Type 0 where
  pub requeue_after : Option ℤ
  pub error : Option String

abbrev pub dummy_result : ReconcileResult
dummy_result = record { requeue_after = none; error = none }

-- A nil error is valid, and one that says that the object was modified.
unfoldable pub valid_update_err : Option String → Bool
valid_update_err none = true
valid_update_err (some e) = contains e "the object has been modified"

unfoldable pub set_stage : ExperimentStageType → ExperimentStatus → ExperimentStatus
set_stage to s = record s { stage = some to }

module _ ⦃cl : Cluster⦄ where
  -- The writes of a stage that advances.
  unfoldable pub enter_stage : ExperimentStageType → M Bool
  enter_stage to = do
    set_status (set_stage to)
    record_experiment_progress Reason.stage_advanced ("Advanced to " +++ stage_text to)
    pure true

  -- From the stage that the status points to.
  unfoldable pub advance_from : ExperimentStageType → Option ExperimentStageType → M Bool
  advance_from to none = panics
  advance_from to (some stage) = if after to stage then enter_stage to else pure false

  unfoldable pub advance_stage : ExperimentStageType → M Bool
  unfolding advance_from
  advance_stage to = do i ← get_instance; advance_from to i.status.stage

  -- Returns the error that the caller reports.
  unfoldable pub write_status : M (Option String)
  unfolding valid_update_err
  write_status = do
    i ← get_instance
    original ← gets (λ s. s.original)
    if deep_equal original i.status then pure none else do
      e ← ask (update_status i) (λ t. cl.status_updated t i)
      pure (if valid_update_err e then none else e)

  unfoldable pub end_request : Option ℤ → M ReconcileResult
  unfolding write_status
  end_request interval = do e ← write_status; pure (record { requeue_after = interval; error = e })

  -- What follows the advance to Completed.
  unfoldable pub over_with : String → M (Unit {0})
  over_with msg = do
    record_experiment_completed msg
    w ← write_status
    i ← get_instance
    trigger_next_experiment i.spec.target (some i)

  unfoldable pub end_experiment : String → M ReconcileResult
  unfolding over_with
  end_experiment msg = do
    ok ← advance_stage completed
    if ok then over_with msg else pure tt
    end_request none

  unfoldable pub fail_experiment : M ReconcileResult
  fail_experiment = end_experiment "Experiment failed"
