-- ===== src/TaskRunner/Core.antt =====
-- taskrunner/core: base.go, experiment.go, utils.go and k8sclient.go, what the tasks share; commands.go
-- is in Commands. The client of the API server answers each attempt by the calls made before it.
pub mod Commands
pub mod Variables
use etc.Prelude.{
  ℕ, zero, suc, ◌≡◌, refl, ap, Bool, true, false, not, ◌&&◌, Option, none, some, List, [], ◌∷◌,
  ◌++◌, String, str_eq, if◌then◌else◌, lookup,
}
use etc.Prelude.Int.{ℤ, pos, quot_ℤ, ◌+ℤ◌, wrap32, eqb_ℤ}
use etc.Prelude.Text.{◌+++◌, is_empty, split}
use etc.Api.Constants.{ExperimentConditionType}
use etc.Api.Defaults.Getters.{default_iterations_per_loop}
use etc.Api.Types.{
  Time, Json, NamedValue, VersionDetail, VersionInfo, TaskSpec, Action, WinnerAssessmentAnalysis,
  AggregatedBuiltinHists, Analysis, ExperimentStatus, Experiment,
}
use etc.Api.Builders.{empty_analysis}
use etc.Controller.Effects.{NamespacedName, Result, ok, err, Outcome, done, panic}
use etc.TaskRunner.Effects.{
  update_status, World, Secret, Call, get_secret, fetch_experiment, sleep, ContextValue,
  experiment_pointer, action_name, Context, Env, T, ◌>>=◌, ◌>>◌, pure, panics, call, get_experiment,
  deref,
}

abbrev has_text : Option String → Bool
has_text none = false
has_text (some s) = not (is_empty s)

unfoldable pub is_a_run : TaskSpec → Bool
is_a_run t = has_text t.run

unfoldable pub is_a_task : TaskSpec → Bool
is_a_task t = has_text t.task

-- The pointer in the context, or the error: `none` is no error, and the experiment is in memory.
abbrev pub experiment_in : Option ContextValue → Option String
experiment_in none = some "context has no experiment key"
experiment_in (some experiment_pointer) = none
experiment_in (some _) = some "context has experiment value with wrong type"

abbrev pub experiment_or_error : Option String → T (Result Experiment)
experiment_or_error none = do e ← get_experiment; pure (ok e)
experiment_or_error (some text) = pure (err text)

unfoldable pub get_experiment_from_context : Context → T (Result Experiment)
unfolding ◌>>=◌ pure get_experiment
get_experiment_from_context ctx = experiment_or_error (experiment_in (lookup "experiment" ctx))

abbrev pub HasExperiment : Context → Type 0
HasExperiment ctx = lookup "experiment" ctx ≡ some experiment_pointer

pub get_experiment_from_context_lem :
    (ctx : Context) (s : Env)
    → HasExperiment ctx
    → get_experiment_from_context ctx s ≡ (done (ok s.experiment), s)
unfolding get_experiment_from_context ◌>>=◌ pure get_experiment
get_experiment_from_context_lem ctx s h = ap (λ o. experiment_or_error (experiment_in o) s) h

abbrev action_in : Option ContextValue → Result String
action_in none = err "context has no action key"
action_in (some (action_name a)) = ok a
action_in (some _) = err "context has action value with wrong type"

unfoldable pub get_action_string_from_context : Context → Result String
get_action_string_from_context ctx = action_in (lookup "action" ctx)

unfoldable pub set_aggregated_builtin_hists : Time → Json → Experiment → Experiment
set_aggregated_builtin_hists now fortio_data e =
    let a : Analysis = elim e.status.analysis [ none ↦ empty_analysis | some a ↦ a ] in
    record e {
      status = record e.status {
        analysis = some (record a {
          aggregated_builtin_hists = some (record {
            meta = record {
              provenance = "Builtin metrics collector";
              timestamp = now;
              message = none;
            };
            content = fortio_data;
          });
        });
      };
    }

abbrev iterations_per_loop : Experiment → ℤ
iterations_per_loop e = elim e.spec.duration [
  | none ↦ default_iterations_per_loop
  | some d ↦ elim d.iterations_per_loop [ none ↦ default_iterations_per_loop | some n ↦ n ]
]

-- The int32 quotient panics on 0; the sum is an int32 and wraps.
abbrev loop_count : Experiment → Outcome ℤ
loop_count e = elim e.status.completed_iterations [
  | none ↦ done (pos 0)
  | some n ↦
      if eqb_ℤ (iterations_per_loop e) (pos 0)
      then panic
      else done (wrap32 (quot_ℤ n (iterations_per_loop e)))
]

abbrev precedence_of : String → Outcome ℤ → Outcome ℤ
precedence_of action panic = panic
precedence_of action (done n) = done (if str_eq action "start" then pos 0 else wrap32 (n +ℤ pos 1))

unfoldable pub get_iter8_log_precedence : Experiment → String → Outcome ℤ
get_iter8_log_precedence e action = precedence_of action (loop_count e)

abbrev text_or_empty : Option String → String
text_or_empty none = ""
text_or_empty (some s) = s

unfoldable pub get_token_from_secret : Secret → Result String
get_token_from_secret secret =
    let token = text_or_empty (lookup "token" secret) in
    if is_empty token then err "empty token in secret" else ok token

-- The namespace and the name in a text `namespace/name` or `name`; 47 is '/'.
abbrev secret_parts : String → List String → NamespacedName
secret_parts namespace [] = record { namespace = namespace; name = "" }
secret_parts namespace (name ∷ []) = record { namespace = namespace; name = name }
secret_parts namespace (ns ∷ name ∷ more) = record { namespace = ns; name = name }

unfoldable pub secret_name : String → String → NamespacedName
secret_name namespace namespacedname = secret_parts namespace (split 47 namespacedname)

-- GetTypedObject: at most `attempts` times, with a sleep after each that fails. An object is read by
-- `read`, one attempt. No attempt leaves the error nil and the object as it was.
module _ {A : Type 0} (read : T (Result A)) where
  unfoldable pub attempt : ℕ → Result A → T (Result A)
  unfolding ◌>>=◌ pure
  attempt zero last = pure last
  attempt (suc n) last = do
    answer ← read
    let again = do call (sleep (pos 18)) (λ t. tt); attempt n answer
    elim answer [ ok a ↦ pure (ok a) | err text ↦ again ]

abbrev pub num_attempt : ℕ
num_attempt = 2

-- GetClient's error, or the attempts.
unfoldable pub get_typed_object : {A : Type 0} → Option String → T (Result A) → A → T (Result A)
unfolding attempt pure
get_typed_object none read empty = attempt read num_attempt (ok empty)
get_typed_object (some text) read empty = pure (err text)

module _ ⦃w : World⦄ where
  abbrev pub update_unless : Option String → Experiment → T (Option String)
  update_unless (some text) e = pure (some text)
  update_unless none e = call (update_status e) (λ t. w.status_updated t e)

  -- The error of GetClient, without a call, or that of the update.
  unfoldable pub update_in_cluster_experiment_status : Experiment → T (Option String)
  unfolding pure call
  update_in_cluster_experiment_status e s = update_unless (w.client_error s.trace) e s
