-- ===== src/TaskRunner/RunScript.antt =====
-- taskrunner/tasks/runscript/runscript.go: the task that runs a script.
use etc.Prelude.{Option, none, some, String, if◌then◌else◌, lookup}
use etc.Prelude.Text.{◌+++◌}
use etc.Api.Types.{TaskSpec, Experiment}
use etc.Controller.Effects.{Result, ok, err}
use etc.TaskRunner.Effects.{
  Secret, shell, Template, executed, not_executed, not_created, Context, T, World, ◌>>=◌, pure,
  call, deref,
}
use etc.TaskRunner.Core.{is_a_run, get_experiment_from_context}
use etc.TaskRunner.Tags.{find_secret}

pub record RunTask : Type 0 where
  pub script : Option String
  pub secret : Option String

-- `decoded` is the JSON of the spec, read as a task, with the error of reading it.
unfoldable pub make : TaskSpec → Option String × RunTask → Option RunTask × Option String
unfolding is_a_run
make t decoded = if is_a_run t then (some decoded.1, decoded.0) else (none, some "invalid run spec")

-- EnhancedExperiment.Secret, which the template calls.
unfoldable pub secret_value : Option Secret → String → Result String
secret_value none key = err "no secret specified"
secret_value (some secret) key = elim (lookup key secret) [
  | none ↦ err ("specified key " +++ (key +++ " seems absent in secret"))
  | some value ↦ ok value
]

module _ ⦃w : World⦄ where
  abbrev script_of : Template → Result String
  script_of (executed text) = ok text
  script_of not_executed = err "cannot interpolate string due to template execution error"
  script_of (not_created text) =
      err ("cannot interpolate string due to template creation error; " +++ text)

  abbrev pub with_text : RunTask → Experiment → Option Secret → T (Result String)
  with_text t e secret = deref t.script >>= λ script. pure (script_of (w.script script e secret))

  abbrev pub with_found : RunTask → Experiment → Result Secret → T (Result String)
  with_found t e (err text) = pure (err ("could not fetch secret; " +++ text))
  with_found t e (ok secret) = with_text t e (some secret)

  abbrev pub with_secret : RunTask → Experiment → Option String → T (Result String)
  with_secret t e none = with_text t e none
  with_secret t e (some name) = find_secret name >>= with_found t e

  abbrev pub script_for : RunTask → Result Experiment → T (Result String)
  script_for t (err text) = pure (err ("could not fetch experiment from cluster; " +++ text))
  script_for t (ok e) = with_secret t e t.secret

  -- The interpolated script.
  unfoldable pub interpolate : RunTask → Context → T (Result String)
  unfolding ◌>>=◌ pure deref get_experiment_from_context find_secret
  interpolate t ctx = get_experiment_from_context ctx >>= script_for t

  -- It is run by /bin/bash -c, with SCRATCH_DIR=/scratch in the environment.
  abbrev pub run_script : Result String → T (Option String)
  run_script (err text) = pure (some text)
  run_script (ok script) = call (shell script) (λ t. w.shell_error t script)

  unfoldable pub run : RunTask → Context → T (Option String)
  unfolding ◌>>=◌ pure call interpolate
  run t ctx = interpolate t ctx >>= run_script
