-- ===== src/Controller/Steps.antt =====
-- What a request for an experiment can do, step by step: one constructor for each kind of change
-- that the controller makes to the experiment in memory, with the guard under which it is made.
-- Each constructor says what it writes.
pub mod Changes
pub mod Rules
pub mod Parts
pub mod Traffic
pub mod Jobs
pub mod Iterations
pub mod Requests
pub mod Induction
pub mod Identity
pub mod Kept
pub mod Completion
use etc.Prelude.{◌≡◌, ◌<◌, Option, none, some, List, [], ◌∷◌, ◌++◌, String}
use etc.Prelude.Int.{ℤ, pos, ◌+ℤ◌, wrap32}
use etc.Api.Constants.{
  ExperimentConditionType, experiment_completed, experiment_failed, target_acquired,
  ConditionStatus, condition_true, condition_false, condition_unknown, ExperimentStageType, waiting,
  completed,
}
use etc.Api.Types.{
  Time, WeightData, Analysis, MetricInfo, ExperimentCondition, ExperimentStatus, ExperimentSpec,
}
use etc.Api.Status.{find_condition}
use etc.Api.Defaults.Laws.{IsLateInitialized}
use etc.Controller.Effects.{Call, Env}
use etc.Controller.Steps.Changes.{stage_rank, condition, SetsCondition}

abbrev pub with_status : (ExperimentStatus → ExperimentStatus) → Env → Env
with_status f s = record s { instance_ = record s.instance_ { status = f s.instance_.status } }

abbrev with_spec : ExperimentSpec → Env → Env
with_spec spec s = record s { instance_ = record s.instance_ { spec = spec } }

pub data Step : Env → Env → Type 0 where
  called : (c : Call) (s : Env) → Step s (record s { trace = c ∷ s.trace })
  -- A condition is set, the Completed condition to true only at the stage Completed.
  marked :
      (now : Time) (kind : ExperimentConditionType) (status : ConditionStatus)
      (reason message : String) (conditions : List ExperimentCondition) (text : Option String)
      (s : Env)
      → SetsCondition
          (condition now kind status (some reason) (some message))
          s.instance_.status.conditions
          conditions
      → (kind ≡ experiment_completed
          → status ≡ condition_true
          → s.instance_.status.stage ≡ some completed)
      → Step s (with_status (λ x. record x { conditions = conditions; message = text }) s)
  -- A condition that is looked for and not there is added, with status Unknown.
  looked :
      (now : Time) (kind : ExperimentConditionType) (s : Env)
      → find_condition kind s.instance_.status.conditions ≡ none
      → Step s (
          with_status
            (λ x. record x {
              conditions = x.conditions ++ (condition now kind condition_unknown none none ∷ []);
            })
            s)
  advanced :
      (to from : ExperimentStageType) (s : Env)
      → s.instance_.status.stage ≡ some from
      → stage_rank from < stage_rank to
      → Step s (with_status (λ x. record x { stage = some to }) s)
  defaulted :
      (spec : ExperimentSpec) (s : Env)
      → IsLateInitialized s.instance_.spec spec
      → Step s (with_spec spec s)
  initialized :
      (now : Time) (s : Env)
      → s.instance_.status.init_time ≡ none
      → Step s (
          with_status
            (λ x. record x {
              conditions =
                  ((x.conditions
                      ++ (condition now experiment_completed condition_false none none ∷ []))
                    ++ (condition now experiment_failed condition_false none none ∷ []))
                  ++ (condition now target_acquired condition_false none none ∷ []);
              init_time = some now;
              last_update_time = some now;
              stage = some waiting;
              completed_iterations = some (pos 0);
            })
            s)
  started :
      (now : Time) (s : Env)
      → s.instance_.status.start_time ≡ none
      → Step s (with_status (λ x. record x { start_time = some now }) s)
  observed :
      (ws : List WeightData) (s : Env)
      → Step s (with_status (λ x. record x { current_weight_distribution = ws }) s)
  -- The built-in histograms of an analysis that is there stay.
  analysed :
      (a : Analysis) (s : Env)
      → ((b : Analysis)
          → s.instance_.status.analysis ≡ some b
          → a.aggregated_builtin_hists ≡ b.aggregated_builtin_hists)
      → Step s (with_status (λ x. record x { analysis = some a }) s)
  recommended :
      (version : String) (s : Env)
      → Step s (with_status (λ x. record x { version_recommended_for_promotion = some version }) s)
  -- An iteration more than the count that is there, which is an int32.
  iterated :
      (n : ℤ) (now : Time) (s : Env)
      → s.instance_.status.completed_iterations ≡ some n
      → Step s (
          with_status
            (λ x. record x {
              completed_iterations = some (wrap32 (n +ℤ pos 1));
              last_update_time = some now;
            })
            s)
  metrics_read :
      (ms : List MetricInfo) (s : Env)
      → Step s (with_status (λ x. record x { metrics = x.metrics ++ ms }) s)

pub data Reach (s : Env) : Env → Type 0 where
  here : Reach s s
  next : {t u : Env} → Reach s t → Step t u → Reach s u

pub Reach-trans : {s t u : Env} → Reach s t → Reach t u → Reach s u
Reach-trans r here = r
Reach-trans r (next q st) = next (Reach-trans r q) st

pub Reach-step : {s t : Env} → Step s t → Reach s t
Reach-step st = next here st
