-- ===== src/Examples/Tasks.antt =====
-- The theorems on the task runner, on concrete tasks.
use etc.Prelude.{
  ℕ, ◌+◌, ◌≡◌, ◌≢◌, ◌↔◌, ◌≤◌, inr, refl, true, false, none, some, Option, List, [], ◌∷◌, ◌++◌,
  String, length, lookup, ltb, if◌then◌else◌,
}
use etc.Prelude.Int.{ℤ, pos}
use etc.Api.Types.{TaskSpec}
use etc.Controller.Effects.{ok, err, Outcome, done, panic}
use etc.TaskRunner.Effects.{
  sleep, Context, experiment_pointer, action_name, Env, World, Task, executed,
}
use etc.TaskRunner.Core.{is_a_run, get_action_string_from_context, get_iter8_log_precedence}
use etc.TaskRunner.Core.Commands.{find_variable, update_variable, find_variable_in_version_detail}
use etc.TaskRunner.Core.Variables.{find_variable-update}
use etc.TaskRunner.Action.{run_action}
use etc.TaskRunner.Action.Completes.{Completes, run_action-Completes}
use etc.TaskRunner.Readiness.{ObjRef, text_length, is_dns_label, experiment_obj_refs, run_checks}
use etc.TaskRunner.Readiness.Checks.{check_first, inputs_of, run_checks-check_first}
use etc.TaskRunner.Readiness.Labels.{IsLabel, is_dns_label-IsLabel}
use etc.TaskRunner.Collect.Aggregate.{Fortio, RunResult, aggregate}
use etc.TaskRunner.Collect
use etc.TaskRunner.Collect.Arguments.{CollectInputs}
use etc.TaskRunner.Collect.Runs.{HasCollected, run-HasCollected}
use etc.TaskRunner.Collect.Merged.{IsAggregated, aggregate-IsAggregated}
use etc.TaskRunner.RunScript
use etc.TaskRunner.Quiet.{is_quiet, run_action-SameExperiment}
use etc.TaskRunner.Run.{get_action, Decoders, run}
use etc.TaskRunner.Run.Ends.{LacksExperiment, run-panics}
use etc.Examples.Base.{baseline_version, running_experiment}

-- Each command of the shell fails, every other system answers.
abbrev world : World
world = record {
  namespace = "default";
  now = λ t. 100 + length t;
  client_error = λ t. none;
  secret = λ t nn. ok (("token", "abc") ∷ []);
  cluster_experiment = λ t nn. ok running_experiment;
  status_updated = λ t e. none;
  shell_error = λ t script. some "not found";
  fortio_error = λ t args. none;
  downloaded = λ t url. ok "/tmp/payload.out";
  response = λ t request. ok (200, "OK");
  message_error = λ t channel. none;
  evaluated = λ condition e. ok false;
  interpolated = λ text tags. executed text;
  script = λ text e secret. executed text;
  canonical = λ name. name;
  base64 = λ text. text;
  request_error = λ method url. none;
  experiment_map = λ e. ok "{}";
}

abbrev env : Env
env = record { experiment = running_experiment; trace = [] }

abbrev context : Context
context = ("experiment", experiment_pointer) ∷ []

abbrev sleep_task : Task
sleep_task = record {
  condition = none;
  run = λ ctx. λ s. (done none, record s { trace = sleep (pos 1) ∷ s.trace });
}

-- Its condition is false.
abbrev other_task : Task
other_task = record sleep_task { condition = some "WinnerFound()" }

run_action-Completes_example :
    (run_action ⦃w = world⦄ context (sleep_task ∷ other_task ∷ []) env
      ≡ (done none, record env { trace = sleep (pos 1) ∷ [] }))
    ↔ Completes ⦃w = world⦄ context
        (sleep_task ∷ other_task ∷ [])
        env
        (record env { trace = sleep (pos 1) ∷ [] })
unfolding lookup
run_action-Completes_example =
    run_action-Completes ⦃w = world⦄ context refl (sleep_task ∷ other_task ∷ []) env
      (record env { trace = sleep (pos 1) ∷ [] })

abbrev deployment : String → ObjRef
deployment name = record { kind = "deploy"; namespace = none; name = name; wait_for = none }

run_checks-check_first_example :
    run_checks ⦃w = world⦄
      (inputs_of (deployment "a" ∷ deployment "b" ∷ []) (pos 5) (pos 2) (pos 7))
      running_experiment
      env
    ≡ check_first ⦃w = world⦄ running_experiment
        ((deployment "a" ∷ deployment "b" ∷ [])
          ++ experiment_obj_refs running_experiment.spec.version_info)
        (pos 7)
        2
        (record env { trace = sleep (pos 5) ∷ [] })
run_checks-check_first_example =
    run_checks-check_first ⦃w = world⦄ running_experiment (deployment "a" ∷ deployment "b" ∷ [])
      (pos 5) (pos 7) 2 env

is_dns_label-IsLabel_example :
    (is_dns_label "my-app" ≡ true) ↔ ((text_length "my-app" ≤ 63) × IsLabel "my-app")
is_dns_label-IsLabel_example = is_dns_label-IsLabel "my-app"

labels : is_dns_label "my-app" ≡ true
unfolding is_dns_label
labels = refl

bad_label : is_dns_label "my-app-" ≡ false
unfolding is_dns_label
bad_label = refl

abbrev run_result : ℤ → RunResult ℕ
run_result n = record {
  duration_histogram = record { count = n; max = 3; sum = 7; samples = [] };
  ret_codes = some (("200", n) ∷ []);
}

-- float64 as natural numbers.
abbrev fortio_numbers : Fortio
fortio_numbers = record {
  Float = ℕ;
  add = λ a b. a + b;
  max_of = λ a b. if ltb a b then b else a;
  default_qps = 8;
  print_f = λ f. "8.000000";
  quote = λ s. s;
  output = λ t. ok (run_result (pos 100));
  decode_results = λ j. none;
  encode_results = λ r. "{}";
}

aggregate-IsAggregated_example :
    IsAggregated ⦃fo = fortio_numbers⦄ (some (run_result (pos 100))) (run_result (pos 50)) (
      lookup "stable" (
        aggregate ⦃fo = fortio_numbers⦄
          (some (("stable", run_result (pos 100)) ∷ []))
          "stable"
          (run_result (pos 50))))
    × ((other : String)
        → "stable" ≢ other
        → lookup other (
            aggregate ⦃fo = fortio_numbers⦄
              (some (("stable", run_result (pos 100)) ∷ []))
              "stable"
              (run_result (pos 50)))
          ≡ lookup other (("stable", run_result (pos 100)) ∷ []))
unfolding lookup
aggregate-IsAggregated_example =
    aggregate-IsAggregated ⦃fo = fortio_numbers⦄ (("stable", run_result (pos 100)) ∷ []) "stable"
      (run_result (pos 50)) (refl, tt)

abbrev collect_inputs : CollectInputs ℕ
collect_inputs = record {
  num_queries = none;
  time = none;
  qps = none;
  connections = none;
  load_only = none;
  payload_str = none;
  payload_url = none;
  content_type = none;
  versions = some (record { name = "stable"; headers = []; url = "http://app/" } ∷ []);
}

abbrev action_context : Context
action_context = ("action", action_name "start") ∷ context

abbrev collected : Outcome (Option String) × Env
collected = Collect.run ⦃fo = fortio_numbers⦄ ⦃w = world⦄ collect_inputs action_context env

collects : collected.0 ≡ done none
unfolding Collect.run lookup
collects = refl

run-HasCollected_example :
    (collected ≡ (done none, collected.1))
    ↔ HasCollected ⦃fo = fortio_numbers⦄ ⦃w = world⦄ collect_inputs action_context env collected.1
        "start"
        (pos 0)
unfolding lookup get_action_string_from_context get_iter8_log_precedence
run-HasCollected_example =
    run-HasCollected ⦃fo = fortio_numbers⦄ ⦃w = world⦄ collect_inputs action_context env collected.1
      "start" (pos 0) refl refl refl

find_variable-update_example :
    find_variable_in_version_detail
      (update_variable (some baseline_version) "image" "app:2").0
      "image"
    ≡ ok "app:2"
unfolding find_variable
find_variable-update_example = find_variable-update baseline_version "image" "app:2" "image"

abbrev decoders : Decoders ℕ
decoders = record {
  collect_inputs = λ t. (
    none,
    record {
      num_queries = none;
      time = none;
      qps = none;
      connections = none;
      load_only = none;
      payload_str = none;
      payload_url = none;
      content_type = none;
      versions = none;
    },
  );
  http_inputs = λ t. (
    none,
    record {
      url = "";
      method = none;
      auth_type = none;
      secret = none;
      headers = [];
      body = none;
      ignore_failure = none;
    },
  );
  readiness_inputs = λ t. err "no inputs";
  slack_inputs = λ t. (none, record { channel = ""; secret = ""; ignore_failure = none });
  run_task = λ t. (none, record { script = t.run; secret = none });
  body_json = λ summary e. ok "{}";
}

abbrev script_item : TaskSpec
script_item = record { task = none; run = some "ls"; condition = none; with_inputs = [] }

abbrev script_action : List Task
script_action =
    record { condition = none; run = RunScript.run ⦃w = world⦄ (decoders.run_task script_item).1 }
    ∷ []

run_action-SameExperiment_example :
    (run_action ⦃w = world⦄ context script_action env).1.experiment ≡ running_experiment
unfolding is_quiet get_action is_a_run RunScript.make
run_action-SameExperiment_example =
    run_action-SameExperiment ⦃w = world⦄ ⦃fo = fortio_numbers⦄ decoders context (script_item ∷ [])
      script_action env (refl, tt) refl

-- No experiment is found.
abbrev empty_world : World
empty_world = record world { cluster_experiment = λ t nn. err "not found" }

not_found : LacksExperiment ⦃w = empty_world⦄ ⦃fo = fortio_numbers⦄ decoders "first" env
unfolding LacksExperiment
not_found = inr (inr (inr (λ t. ("not found", refl))))

run-panics_example :
    (run ⦃w = empty_world⦄ ⦃fo = fortio_numbers⦄ decoders "first" "start" env).0 ≡ panic
run-panics_example =
    run-panics ⦃w = empty_world⦄ ⦃fo = fortio_numbers⦄ decoders "first" "start" env not_found
