-- ===== src/TaskRunner/Quiet/Requests.antt =====
-- The HTTP and the script task against the experiment in memory.
use etc.Prelude.{ℕ, zero, suc, Option, none, some, [], String}
use etc.Api.Types.{Json, Experiment}
use etc.Controller.Effects.{Result, ok, err}
use etc.TaskRunner.Effects.{Secret, Request, Tags, Context, T, World}
use etc.TaskRunner.Effects.Leaves.{
  Leaves, Leaves-bind, Leaves-pure, Leaves-call, Leaves-deref, Leaves-result, leaves_rules,
}
use etc.TaskRunner.Core.{
  experiment_or_error, get_experiment_from_context, attempt, num_attempt, get_typed_object,
  secret_name,
}
use etc.TaskRunner.Tags.{find_secret, read_secret}
use etc.TaskRunner.Http
use etc.TaskRunner.RunScript

Leaves-experiment_or_error : (o : Option String) → Leaves (experiment_or_error o)
Leaves-experiment_or_error none = search leaves_rules
Leaves-experiment_or_error (some text) = search leaves_rules

pub Leaves-context : (ctx : Context) → Leaves (get_experiment_from_context ctx)
unfolding get_experiment_from_context
Leaves-context ctx = Leaves-experiment_or_error _

Leaves-attempt :
    {A : Type 0} (read : T (Result A)) (n : ℕ) (last : Result A)
    → Leaves read
    → Leaves (attempt read n last)
unfolding attempt
Leaves-attempt read zero last h = Leaves-pure _
Leaves-attempt read (suc n) last h = Leaves-bind read _ h (λ answer.
    Leaves-result answer (λ a. Leaves-pure _)
      (λ e. Leaves-bind _ _ (Leaves-call _ _) (λ x. Leaves-attempt read n answer h)))

Leaves-object :
    {A : Type 0} (o : Option String) (read : T (Result A)) (empty : A)
    → Leaves read
    → Leaves (get_typed_object o read empty)
unfolding get_typed_object
Leaves-object none read empty h = Leaves-attempt read num_attempt (ok empty) h
Leaves-object (some text) read empty h = Leaves-pure _

module _ ⦃w : World⦄ where
  Leaves-secret : (name : String) → Leaves (find_secret name)
  unfolding find_secret
  Leaves-secret name = record {
    at = λ s.
        (Leaves-object (w.client_error s.trace) (read_secret (secret_name w.namespace name)) []
            (Leaves-call _ _)).at
          s;
  }

  module _ (body_json : Http.ExperimentSummary → Experiment → Result String) where
    Leaves-tags : (tags : Tags) (o : Option String) → Leaves (Http.secret_tags body_json tags o)
    Leaves-tags tags none = Leaves-pure _
    Leaves-tags tags (some name) = Leaves-bind _ _ (Leaves-secret name) (λ a. Leaves-pure _)

    Leaves-request_for :
        (inputs : Http.Inputs) (e : Experiment) (r : Result Json)
        → Leaves (Http.request_for body_json inputs e r)
    Leaves-request_for inputs e (err text) = Leaves-pure _
    Leaves-request_for inputs e (ok obj) =
        Leaves-bind _ _ (Leaves-tags _ inputs.secret) (λ tags. Leaves-pure _)

    Leaves-request_with :
        (inputs : Http.Inputs) (r : Result Experiment)
        → Leaves (Http.request_with body_json inputs r)
    Leaves-request_with inputs (err text) = Leaves-pure _
    Leaves-request_with inputs (ok e) = Leaves-request_for inputs e _

    Leaves-send : (r : Result Request) → Leaves (Http.send_request body_json r)
    Leaves-send (err text) = Leaves-pure _
    Leaves-send (ok request) = Leaves-bind _ _ (Leaves-call _ _) (λ a. Leaves-pure _)

    pub Leaves-http :
        (inputs : Http.Inputs) (ctx : Context) → Leaves (Http.run body_json inputs ctx)
    unfolding Http.run Http.internal_run Http.prepare_request
    Leaves-http inputs ctx =
        Leaves-bind _ _
          (Leaves-bind _ _ (Leaves-bind _ _ (Leaves-context ctx) (Leaves-request_with inputs))
            Leaves-send)
          (λ e. Leaves-pure _)

  module _ (t : RunScript.RunTask) where
    Leaves-text : (e : Experiment) (o : Option Secret) → Leaves (RunScript.with_text t e o)
    Leaves-text e o = Leaves-bind _ _ (Leaves-deref _) (λ script. Leaves-pure _)

    Leaves-found : (e : Experiment) (r : Result Secret) → Leaves (RunScript.with_found t e r)
    Leaves-found e (err text) = Leaves-pure _
    Leaves-found e (ok secret) = Leaves-text e (some secret)

    Leaves-with_secret : (e : Experiment) (o : Option String) → Leaves (RunScript.with_secret t e o)
    Leaves-with_secret e none = Leaves-text e none
    Leaves-with_secret e (some name) = Leaves-bind _ _ (Leaves-secret name) (Leaves-found e)

    Leaves-script_for : (r : Result Experiment) → Leaves (RunScript.script_for t r)
    Leaves-script_for (err text) = Leaves-pure _
    Leaves-script_for (ok e) = Leaves-with_secret e _

    Leaves-run_script : (r : Result String) → Leaves (RunScript.run_script r)
    Leaves-run_script (err text) = Leaves-pure _
    Leaves-run_script (ok script) = Leaves-call _ _

    pub Leaves-script : (ctx : Context) → Leaves (RunScript.run t ctx)
    unfolding RunScript.run RunScript.interpolate
    Leaves-script ctx =
        Leaves-bind _ _ (Leaves-bind _ _ (Leaves-context ctx) Leaves-script_for) Leaves-run_script
