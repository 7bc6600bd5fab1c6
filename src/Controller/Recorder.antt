-- ===== src/Controller/Recorder.antt =====
-- controllers/recorder.go: a change of a condition is recorded once, with an event.
pub mod Once
use etc.Prelude.{Bool, String, if◌then◌else◌}
use etc.Api.Constants.{
  ExperimentConditionType, experiment_completed, experiment_failed, target_acquired,
  ConditionStatus, condition_true, condition_false,
}
use etc.Api.Constants.Reason
use etc.Api.Status.{mark_condition, get_condition, is_true}
use etc.Controller.Effects.{event, Cluster, M, ◌>>=◌, pure, gets, ask, on_status}

module _ ⦃cl : Cluster⦄ where
  -- `message` is the formatted text.
  unfoldable pub record_event :
      ExperimentConditionType → ConditionStatus → String → String → M (Unit {0})
  record_event condition status reason message = do
    now ← gets (λ s. cl.now s.trace)
    changed ← on_status (mark_condition now condition status reason message)
    if changed then ask (event reason message) (λ t. tt) else pure tt

  unfoldable pub record_experiment_failed : String → String → M (Unit {0})
  unfolding record_event
  record_experiment_failed = record_event experiment_failed condition_true

  unfoldable pub record_experiment_completed : String → M (Unit {0})
  unfolding record_event
  record_experiment_completed =
      record_event experiment_completed condition_true Reason.experiment_completed

  unfoldable pub record_experiment_progress : String → String → M (Unit {0})
  unfolding record_event
  record_experiment_progress = record_event experiment_completed condition_false

  unfoldable pub record_target_acquired : String → M (Unit {0})
  unfolding record_event
  record_target_acquired = record_event target_acquired condition_true Reason.target_acquired

  -- instance.Status.GetCondition(kind).IsTrue()
  unfoldable pub condition_is_true : ExperimentConditionType → M Bool
  condition_is_true kind = do
    now ← gets (λ s. cl.now s.trace)
    c ← on_status (λ s. let (c, s') = get_condition now kind s in (s', c))
    pure (is_true c)
