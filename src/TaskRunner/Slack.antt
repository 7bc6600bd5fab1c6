-- ===== src/TaskRunner/Slack.antt =====
-- taskrunner/tasks/slack/slack.go: the task that posts a message about the experiment.
use etc.Prelude.{
  Bool, true, false, not, Option, none, some, List, [], ◌∷◌, ◌++◌, String, str_eq, map,
  if◌then◌else◌,
}
use etc.Prelude.Text.{◌+++◌, is_empty}
use etc.Api.Constants.{testing_pattern_text, stage_text, waiting, experiment_failed}
use etc.Api.Types.{Time, VersionInfo, WinnerAssessmentAnalysis, Experiment}
use etc.Api.Status.{get_condition, is_false}
use etc.Controller.Effects.{Result, ok, err, Outcome, done, panic}
use etc.TaskRunner.Effects.{Secret, post_message, Context, T, World, ◌>>=◌, pure, call}
use etc.TaskRunner.Core.{get_experiment_from_context, get_token_from_secret, secret_name}
use etc.TaskRunner.Tags.{find_secret}

abbrev pub task_name : String
task_name = "notification/slack"

pub record Inputs : Type 0 where
  pub channel : String
  pub secret : String
  pub ignore_failure : Option Bool

-- `decoded` is the JSON of the spec, read as inputs, with the error of reading it.
unfoldable pub make : String → Option String × Inputs → Option Inputs × Option String
make task decoded =
    if str_eq task task_name
    then (some decoded.1, decoded.0)
    else (none, some "task need to be 'notification/slack'")

unfoldable pub bold : String → String
bold text = "*" +++ (text +++ "*")

unfoldable pub italic : String → String
italic text = "_" +++ (text +++ "_")

unfoldable pub qualified_name : Experiment → String
qualified_name e = (if is_empty e.namespace then "default" else e.namespace) +++ ("/" +++ e.name)

-- strings.Join
unfoldable pub join : String → List String → String
join sep [] = ""
join sep (s ∷ []) = s
join sep (s ∷ t ∷ ss) = s +++ (sep +++ join sep (t ∷ ss))

abbrev version_names : Option VersionInfo → List String
version_names none = []
version_names (some info) = info.baseline.name ∷ map (λ c. c.name) info.candidates

unfoldable pub versions : Experiment → String
unfolding join
versions e = join ", " (version_names e.spec.version_info)

unfoldable pub stage : Experiment → String
stage e = elim e.status.stage [ none ↦ stage_text waiting | some s ↦ stage_text s ]

-- The winner is dereferenced where one was found.
abbrev found_winner : WinnerAssessmentAnalysis → Outcome String
found_winner w = elim w.content.winner_found [
  | false ↦ done "not found"
  | true ↦ elim w.content.winner [ none ↦ panic | some v ↦ done v ]
]

abbrev assessed_winner : Option WinnerAssessmentAnalysis → Outcome String
assessed_winner none = done "not found"
assessed_winner (some w) = found_winner w

unfoldable pub winner : Experiment → Outcome String
winner e = elim e.status.analysis [
  | none ↦ done "not found"
  | some a ↦ assessed_winner a.winner_assessment
]

-- `GetCondition` adds the condition to the status in memory where it is missing, as unknown.
unfoldable pub failed : Time → Experiment → Bool × Experiment
unfolding get_condition
failed now e =
    let (c, status) = get_condition now experiment_failed e.status in
    (not (is_false c), record e { status = status })

abbrev failed_lines : Bool → List String
failed_lines true = (bold "Failed:" +++ (" " +++ italic "true")) ∷ []
failed_lines false = []

abbrev message_lines : Experiment → Bool → String → List String
message_lines e has_failed winner_text =
    ((bold "Name:" +++ (" " +++ italic (qualified_name e)))
      ∷ (bold "Versions:" +++ (" " +++ italic (versions e)))
      ∷ (bold "Stage:" +++ (" " +++ italic (stage e)))
      ∷ (bold "Winner:" +++ (" " +++ italic winner_text))
      ∷ [])
    ++ failed_lines has_failed

-- The winner is read before the conditions.
abbrev message_for : Time → Experiment → Outcome String → Outcome String × Experiment
message_for now e panic = (panic, e)
message_for now e (done winner_text) =
    let (has_failed, e₁) = failed now e in
    (done (join "\n" (message_lines e has_failed winner_text)), e₁)

-- The message, and the experiment that is left in memory.
unfoldable pub slack_message : Time → Experiment → Outcome String × Experiment
unfolding bold italic join qualified_name versions stage winner failed
slack_message now e = message_for now e (winner e)

module _ ⦃w : World⦄ where
  abbrev token_of : Result Secret → Option String
  token_of (err text) = none
  token_of (ok secret) = elim (get_token_from_secret secret) [
    | err text ↦ none
    | ok token ↦ some token
  ]

  -- The text is cut at the slash, put together again, and cut once more by GetSecret.
  unfoldable pub get_token : String → T (Option String)
  unfolding ◌>>=◌ pure find_secret get_token_from_secret secret_name
  get_token secret = do
    let nn = secret_name w.namespace secret
    answer ← find_secret (nn.namespace +++ ("/" +++ nn.name))
    pure (token_of answer)

  abbrev message : Experiment → T String
  message e s =
      let (text, e₁) = slack_message (w.now s.trace) e in (text, record s { experiment = e₁ })

  -- The token is asked for twice, the second time for the log.
  abbrev post_with : Inputs → Experiment → Option String → T (Option String)
  post_with inputs e none = pure (some "unable to find token")
  post_with inputs e (some token) = do
    logged ← get_token inputs.secret
    text ← message e
    let title = bold (
        testing_pattern_text e.spec.strategy.testing_pattern
        +++ (" experiment on " +++ e.spec.target))
    call (post_message token inputs.channel title text) (λ t. w.message_error t inputs.channel)

  unfoldable pub post_notification : Inputs → Experiment → T (Option String)
  unfolding ◌>>=◌ pure call get_token slack_message bold
  post_notification inputs e = get_token inputs.secret >>= post_with inputs e

  abbrev notify : Inputs → Result Experiment → T (Option String)
  notify inputs (err text) = pure (some text)
  notify inputs (ok e) = post_notification inputs e

  unfoldable pub internal_run : Inputs → Context → T (Option String)
  unfolding ◌>>=◌ pure get_experiment_from_context post_notification
  internal_run inputs ctx = get_experiment_from_context ctx >>= notify inputs

  -- An error is dropped unless ignoreFailure is there and false.
  abbrev reported : Option Bool → Option String → Option String
  reported (some false) e = e
  reported _ e = none

  unfoldable pub run : Inputs → Context → T (Option String)
  unfolding ◌>>=◌ pure internal_run
  run inputs ctx = do e ← internal_run inputs ctx; pure (reported inputs.ignore_failure e)
