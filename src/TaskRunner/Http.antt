-- ===== src/TaskRunner/Http.antt =====
-- taskrunner/tasks/http/http.go: the task that sends an HTTP request.
use etc.Prelude.{
  ℕ, Bool, false, Option, none, some, List, [], ◌∷◌, String, str_eq, if◌then◌else◌, insert, leb,
}
use etc.Prelude.Text.{◌+++◌}
use etc.Api.Types.{
  Json, NamedValue, WeightData, WeightsAnalysis, WinnerAssessmentAnalysis, Analysis, Experiment,
}
use etc.Controller.Effects.{Result, ok, err}
use etc.TaskRunner.Effects.{
  Secret, Request, send, object, Tags, Context, T, World, ◌>>=◌, pure, call,
}
use etc.TaskRunner.Core.{get_experiment_from_context}
use etc.TaskRunner.Tags.{with_tag, with_secret, interpolate, find_secret}

abbrev pub task_name : String
task_name = "notification/http"

pub record Inputs : Type 0 where
  pub url : String
  pub method : Option String
  pub auth_type : Option String
  pub secret : Option String
  pub headers : List NamedValue
  pub body : Option String
  pub ignore_failure : Option Bool

-- `decoded` is the JSON of the spec, read as inputs, with the error of reading it.
unfoldable pub make : String → Option String × Inputs → Option Inputs × Option String
make task decoded =
    if str_eq task task_name
    then (some decoded.1, decoded.0)
    else (none, some "task need to be 'notification/http'")

-- The summary of an experiment in a default body.
pub record ExperimentSummary : Type 0 where
  pub winner_found : Bool
  pub winner : Option String
  pub version_recommended_for_promotion : Option String
  pub last_recommended_weights : List WeightData

abbrev assessment_of : Option Analysis → Option WinnerAssessmentAnalysis
assessment_of none = none
assessment_of (some a) = a.winner_assessment

abbrev weights_of : Option WeightsAnalysis → List WeightData
weights_of none = []
weights_of (some a) = a.content

abbrev recommended_weights : Option Analysis → List WeightData
recommended_weights none = []
recommended_weights (some a) = weights_of a.weights

unfoldable pub summary : Experiment → ExperimentSummary
summary e =
    let assessment = assessment_of e.status.analysis in
    record {
      winner_found = elim assessment [ none ↦ false | some a ↦ a.content.winner_found ];
      winner = elim assessment [ none ↦ none | some a ↦ a.content.winner ];
      version_recommended_for_promotion = e.status.version_recommended_for_promotion;
      last_recommended_weights = recommended_weights e.status.analysis;
    }

-- `body_json` is the JSON of a summary beside its experiment.
module _ ⦃w : World⦄ (body_json : ExperimentSummary → Experiment → Result String) where
  abbrev with_found_secret : Tags → Result Secret → Tags
  with_found_secret tags (err text) = tags
  with_found_secret tags (ok secret) = with_secret "secret" (some secret) tags

  -- A secret that cannot be read is left out.
  abbrev pub secret_tags : Tags → Option String → T Tags
  secret_tags tags none = pure tags
  secret_tags tags (some name) = do answer ← find_secret name; pure (with_found_secret tags answer)

  abbrev text_or : String → Result String → String
  text_or text (err e) = text
  text_or text (ok interpolated) = interpolated

  -- A body that cannot be interpolated is sent as it is.
  unfoldable pub request_body : Tags → Experiment → Option String → Result String
  unfolding summary interpolate
  request_body tags e (some body) = ok (text_or body (interpolate (some tags) body))
  request_body tags e none = body_json (summary e) e

  abbrev set_header : String → String → List (String × String) → List (String × String)
  set_header name value headers = insert (w.canonical name) value headers

  abbrev set_interpolated : String → Result String → List (String × String) → List (String × String)
  set_interpolated name (err text) headers = headers
  set_interpolated name (ok value) headers = set_header name value headers

  unfoldable pub set_headers :
      Tags → List NamedValue → List (String × String) → List (String × String)
  unfolding interpolate
  set_headers tags [] headers = headers
  set_headers tags (h ∷ hs) headers =
      set_headers tags hs (set_interpolated h.name (interpolate (some tags) h.value) headers)

  -- The texts of a secret's fields; an error is the empty text.
  abbrev field_of : Tags → String → String
  field_of tags field = text_or "" (interpolate (some tags) ("@< .secret." +++ (field +++ " >@")))

  unfoldable pub authorize : Tags → String → List (String × String) → List (String × String)
  unfolding interpolate
  authorize tags auth_type headers =
      if str_eq auth_type "Basic"
      then set_header "Authorization"
          ("Basic " +++ w.base64 (field_of tags "username" +++ (":" +++ field_of tags "password")))
          headers
      else if str_eq auth_type "Bearer"
      then set_header "Authorization" ("Bearer " +++ field_of tags "token") headers
      else headers

  abbrev default_text : String → Option String → String
  default_text text none = text
  default_text text (some t) = t

  abbrev request_of : Inputs → Tags → String → Result String → Result Request
  request_of inputs tags method (err text) = err text
  request_of inputs tags method (ok body) = elim (w.request_error method inputs.url) [
    | some text ↦ err text
    | none ↦
        let headers =
          set_headers tags inputs.headers (set_header "Content-type" "application/json" []) in
        ok (record {
          method = method;
          url = inputs.url;
          body = body;
          headers = authorize tags (default_text "None" inputs.auth_type) headers;
        })
  ]

  abbrev pub request_for : Inputs → Experiment → Result Json → T (Result Request)
  request_for inputs e (err text) = pure (err text)
  request_for inputs e (ok obj) = do
    tags ← secret_tags (with_tag "this" (object obj) []) inputs.secret
    pure (
        request_of inputs tags (default_text "POST" inputs.method)
          (request_body tags e inputs.body))

  abbrev pub request_with : Inputs → Result Experiment → T (Result Request)
  request_with inputs (err text) = pure (err text)
  request_with inputs (ok e) = request_for inputs e (w.experiment_map e)

  unfoldable pub prepare_request : Inputs → Context → T (Result Request)
  unfolding ◌>>=◌ pure get_experiment_from_context with_tag find_secret with_secret request_body
      set_headers authorize
  prepare_request inputs ctx = get_experiment_from_context ctx >>= request_with inputs

  abbrev response_error : Result (ℕ × String) → Option String
  response_error (err text) = some text
  response_error (ok (code, status)) = if leb 400 code then some status else none

  abbrev pub send_request : Result Request → T (Option String)
  send_request (err text) = pure (some text)
  send_request (ok request) = do
    answer ← call (send request) (λ t. w.response t request)
    pure (response_error answer)

  unfoldable pub internal_run : Inputs → Context → T (Option String)
  unfolding ◌>>=◌ pure call prepare_request
  internal_run inputs ctx = prepare_request inputs ctx >>= send_request

  -- An error is dropped unless ignoreFailure is there and false.
  abbrev reported : Option Bool → Option String → Option String
  reported (some false) e = e
  reported _ e = none

  unfoldable pub run : Inputs → Context → T (Option String)
  unfolding ◌>>=◌ pure internal_run
  run inputs ctx = do e ← internal_run inputs ctx; pure (reported inputs.ignore_failure e)
