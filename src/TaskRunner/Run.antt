-- ===== src/TaskRunner/Run.antt =====
-- taskrunner/cmd/run.go: the command that runs an action of an experiment.
pub mod Ends
use etc.Prelude.{
  ℕ, Bool, true, false, ◌||◌, Option, none, some, List, [], ◌∷◌, String, str_eq, if◌then◌else◌,
}
use etc.Prelude.Int.{ℤ}
use etc.Prelude.Text.{◌+++◌, is_empty}
use etc.Api.Types.{TaskSpec, Action, Experiment}
use etc.Controller.Effects.{NamespacedName, Result, ok, err, Outcome, done, panic}
use etc.TaskRunner.Effects.{
  Call, fetch_experiment, print_log, experiment_pointer, action_name, Context, T, World, Task,
  ◌>>=◌, ◌>>◌, pure, panics, call, set_experiment, get_experiment, deref,
}
use etc.TaskRunner.Core.{is_a_run, is_a_task, get_iter8_log_precedence, get_typed_object}
use etc.TaskRunner.Core.Commands.{get_action_spec}
use etc.TaskRunner.Action.{run_action}
use etc.TaskRunner.Collect
use etc.TaskRunner.Collect.Aggregate
use etc.TaskRunner.Collect.Arguments
use etc.TaskRunner.Http
use etc.TaskRunner.Readiness
use etc.TaskRunner.RunScript
use etc.TaskRunner.Slack

-- The JSON of a task's spec, read as each task's own inputs.
pub record Decoders (F : Type 0) : Type 0 where
  pub collect_inputs : TaskSpec → Option String × Arguments.CollectInputs F
  pub http_inputs : TaskSpec → Option String × Http.Inputs
  pub readiness_inputs : TaskSpec → Result Readiness.ReadinessInputs
  pub slack_inputs : TaskSpec → Option String × Slack.Inputs
  pub run_task : TaskSpec → Option String × RunScript.RunTask
  pub body_json : Http.ExperimentSummary → Experiment → Result String

-- A task with the error of making it: an error counts, whatever stands beside it.
unfoldable pub task_or_error :
    {A : Type 0}
    → Option String
    → (A → Context → T (Option String))
    → Option A × Option String
    → Result Task
task_or_error condition run (made, some text) = err text
task_or_error condition run (none, none) = err "nil task"
task_or_error condition run (some inputs, none) =
    ok (record { condition = condition; run = run inputs })

module _ ⦃w : World⦄ ⦃fo : Aggregate.Fortio⦄ (ds : Decoders fo.Float) where
  abbrev pub task_named : TaskSpec → String → Result Task
  task_named t name =
      if str_eq name Collect.task_name
      then task_or_error t.condition Collect.run (Collect.make name (ds.collect_inputs t))
      else if str_eq name Http.task_name
      then task_or_error t.condition (Http.run ds.body_json) (Http.make name (ds.http_inputs t))
      else if str_eq name Readiness.task_name
      then task_or_error t.condition Readiness.run (Readiness.make name (ds.readiness_inputs t))
      else if str_eq name Slack.task_name
      then task_or_error t.condition Slack.run (Slack.make name (ds.slack_inputs t))
      else err ("unknown task: " +++ name)

  unfoldable pub make_task : TaskSpec → Result Task
  unfolding task_or_error
  make_task t = elim t.task [
    | none ↦ err "nil or empty task found"
    | some name ↦ if is_empty name then err "nil or empty task found" else task_named t name
  ]

  unfoldable pub make_item : TaskSpec → Result Task
  unfolding task_or_error make_task
  make_item t =
      if is_a_run t
      then task_or_error t.condition RunScript.run (RunScript.make t (ds.run_task t))
      else if is_a_task t
      then make_task t
      else err "action spec contains item that is neither run spec nor task spec"

  abbrev pub and_then : Result Task → Result (List Task) → Result (List Task)
  and_then (err text) rest = err text
  and_then (ok t) (err text) = err text
  and_then (ok t) (ok ts) = ok (t ∷ ts)

  -- The first error, or the tasks in order.
  unfoldable pub get_action : Action → Result (List Task)
  unfolding make_item
  get_action [] = ok []
  get_action (t ∷ ts) = and_then (make_item t) (get_action ts)

  -- The name and the namespace come from the settings experiment_name and experiment_namespace.
  unfoldable pub get_experiment_nn : String → Result NamespacedName
  get_experiment_nn name =
      if is_empty name || is_empty w.namespace
      then err "invalid experiment name/namespace"
      else ok (record { namespace = w.namespace; name = name })

  abbrev pub action_context : String → Context
  action_context action = ("experiment", experiment_pointer) ∷ ("action", action_name action) ∷ []

  -- The log of an error, which reads the experiment also where there is none.
  abbrev log_error : Option Experiment → String → String → T (Option String)
  log_error none action text = panics
  log_error (some e) action text = do
    e₁ ← get_experiment
    n ← (λ s. (get_iter8_log_precedence e₁ action, s))
    call
        (print_log (record {
          is_iter8_log = true;
          experiment_name = e₁.name;
          experiment_namespace = e₁.namespace;
          source = "task-runner";
          priority = 1;
          message = text;
          precedence = n;
        }))
        (λ t. tt)
    pure (some text)

  abbrev report : Experiment → String → Option String → T (Option String)
  report e action none = pure none
  report e action (some text) = log_error (some e) action text

  abbrev run_tasks : Experiment → String → Result (List Task) → T (Option String)
  run_tasks e action (err text) = log_error (some e) action text
  run_tasks e action (ok tasks) = do
    failed ← run_action (action_context action) tasks
    report e action failed

  -- An action that the experiment does not have is no error.
  abbrev run_spec : Experiment → String → Result Action → T (Option String)
  run_spec e action (err text) = pure none
  run_spec e action (ok spec) = run_tasks e action (get_action spec)

  abbrev pub run_experiment : String → Result Experiment → T (Option String)
  run_experiment action (err text) = log_error none action text
  run_experiment action (ok e) = do
    set_experiment e
    run_spec e action (get_action_spec (some e) action)

  abbrev pub read_experiment : NamespacedName → T (Result Experiment)
  read_experiment nn = call (fetch_experiment nn) (λ t. w.cluster_experiment t nn)

  -- FromCluster: the experiment in memory is the one that is filled in.
  unfoldable pub from_cluster : NamespacedName → T (Result Experiment)
  unfolding ◌>>=◌ call get_experiment get_typed_object
  from_cluster nn s = get_typed_object (w.client_error s.trace) (read_experiment nn) s.experiment s

  abbrev pub run_named : String → Result NamespacedName → T (Option String)
  run_named action (err text) = log_error none action text
  run_named action (ok nn) = from_cluster nn >>= run_experiment action

  unfoldable pub run : String → String → T (Option String)
  unfolding ◌>>=◌ pure panics call get_experiment set_experiment get_experiment_nn from_cluster
      run_action get_action_spec get_action get_iter8_log_precedence
  run name action = run_named action (get_experiment_nn name)
