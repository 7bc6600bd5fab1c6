-- ===== src/Iter8ctl/Experiment.antt =====
-- iter8ctl/experiment/experiment.go: the queries of an experiment, and its assertions.
-- A method on a nil experiment takes an option. The client of the API server, the namespace of the
-- current context and the decimals are parameters.
pub mod Answers
pub mod Rewards
pub mod Assertions
use etc.Prelude.{
  ℕ, zero, suc, ◌+◌, Bool, true, false, not, ◌&&◌, Option, none, some, List, [], ◌∷◌, String,
  str_eq, if◌then◌else◌, lookup, get_elem?, map,
}
use etc.Prelude.Int.{ℤ, pos, negsuc, ltb_ℤ, eqb_ℤ}
use etc.Prelude.Text.{◌+++◌, is_empty}
use etc.Api.Constants.{
  ExperimentConditionType, experiment_completed, PreferredDirectionType, higher,
}
use etc.Api.Types.{
  Time, Quantity, VersionDetail, VersionInfo, Reward, Objective, AggregatedMetricsAnalysis,
  Analysis, WinnerAssessmentAnalysis, VersionAssessmentAnalysis, AggregatedMetricsData,
  AggregatedMetricsVersionData, MetricInfo, ExperimentStatus, Experiment,
}
use etc.Api.Status.{get_condition, is_true}
use etc.Controller.Effects.{Outcome, done, panic, Result, ok, err}
use etc.Iter8ctl.Effects.{◌>>=◌, traverse, Decimals}

-- The last item of what the API server lists.
unfoldable pub last_item : List Experiment → Option Experiment
last_item [] = none
last_item (e ∷ []) = some e
last_item (e ∷ es) = last_item es

unfoldable pub named_item : String → String → List Experiment → Option Experiment
named_item name ns [] = none
named_item name ns (e ∷ es) =
    if str_eq e.name name && str_eq e.namespace ns then some e else named_item name ns es

abbrev pub or_error : String → Option Experiment → Result Experiment
or_error text none = err text
or_error text (some e) = ok e

-- `context` is the answer of `getNamespaceFromCurrentContext`, whose error counts as "default".
unfoldable pub namespace_or_default : Result String → String → String
namespace_or_default context namespace =
    let of_context : String = elim context [ ok ns ↦ ns | err text ↦ "default" ] in
    if is_empty namespace then of_context else namespace

abbrev pick : Bool → String → String → List Experiment → Result Experiment
pick latest name ns items =
    if latest
    then or_error "no experiments found in cluster" (last_item items)
    else or_error ("Experiment " +++ (name +++ (" not found in namespace " +++ ns)))
        (named_item name ns items)

abbrev pub picked : Bool → String → String → Result (List Experiment) → Result Experiment
picked latest name ns (err text) = err text
picked latest name ns (ok items) = pick latest name ns items

-- `listed` is the answer of GetClient and of List for a namespace.
unfoldable pub get_experiment :
    Result String → (String → Result (List Experiment)) → Bool → String → String → Result Experiment
unfolding namespace_or_default last_item named_item
get_experiment context listed latest name namespace =
    let ns = namespace_or_default context namespace in picked latest name ns (listed ns)

unfoldable pub started : Option Experiment → Bool
started none = false
started (some e) = elim e.status.completed_iterations [ none ↦ false | some c ↦ ltb_ℤ (pos 0) c ]

-- `GetCondition` adds the condition to the status in memory where it is missing; the answer is the
-- same, and no later query reads the conditions otherwise.
unfoldable pub completed : Time → Option Experiment → Bool
unfolding get_condition
completed now none = false
completed now (some e) = is_true (get_condition now experiment_completed e.status).0

abbrev assessed_winner_found : Option WinnerAssessmentAnalysis → Bool
assessed_winner_found none = false
assessed_winner_found (some w) = w.content.winner_found

abbrev analysis_winner_found : Option Analysis → Bool
analysis_winner_found none = false
analysis_winner_found (some a) = assessed_winner_found a.winner_assessment

unfoldable pub winner_found : Option Experiment → Bool
winner_found none = false
winner_found (some e) = analysis_winner_found e.status.analysis

abbrev version_names : Option VersionInfo → List String
version_names none = []
version_names (some info) = info.baseline.name ∷ map (λ c. c.name) info.candidates

unfoldable pub get_versions : Experiment → List String
get_versions e = version_names e.spec.version_info

module _ ⦃ds : Decimals⦄ where
  abbrev metric_value : Option AggregatedMetricsVersionData → Option ds.Decimal
  metric_value none = none
  metric_value (some val) = elim val.value [ none ↦ none | some q ↦ some (ds.rounded q) ]

  abbrev version_value : String → Option AggregatedMetricsData → Option ds.Decimal
  version_value version none = none
  version_value version (some vals) = metric_value (lookup version vals.content)

  abbrev pub aggregated_value :
      String → String → Option AggregatedMetricsAnalysis → Option ds.Decimal
  aggregated_value metric version none = none
  aggregated_value metric version (some am) = version_value version (lookup metric am.content)

  -- e.Status.Analysis is dereferenced without a test.
  unfoldable pub get_metric_dec : Experiment → String → String → Outcome (Option ds.Decimal)
  get_metric_dec e metric version = elim e.status.analysis [
    | none ↦ panic
    | some a ↦ done (aggregated_value metric version a.aggregated_metrics)
  ]

  unfoldable pub dec_or_unavailable : Option ds.Decimal → String
  dec_or_unavailable none = "unavailable"
  dec_or_unavailable (some z) = ds.dec_text z

  -- The same reading of the metrics as `GetMetricDec`, and then the text.
  unfoldable pub get_metric_str : Experiment → String → String → Outcome String
  unfolding dec_or_unavailable
  get_metric_str e metric version = elim e.status.analysis [
    | none ↦ panic
    | some a ↦ done (dec_or_unavailable (aggregated_value metric version a.aggregated_metrics))
  ]

  unfoldable pub get_metric_strs : Experiment → String → Outcome (List String)
  unfolding get_versions traverse get_metric_str
  get_metric_strs e metric = traverse (get_metric_str e metric) (get_versions e)

  unfoldable pub condition_from_objective : Objective → String
  condition_from_objective o =
      let lower : Quantity → String = λ q. ">= " +++ ds.dec_text (ds.rounded q) in
      let upper : Quantity → String = λ q. "<= " +++ ds.dec_text (ds.rounded q) in
      elim o.lower_limit [
        | none ↦ elim o.upper_limit [ none ↦ "" | some u ↦ upper u ]
        | some l ↦ elim o.upper_limit [ none ↦ lower l | some u ↦ lower l +++ ("; " +++ upper u) ]
      ]

-- fmt.Sprintf reads the units as a format; the text is its output for units without a `%`.
unfoldable pub get_metric_name_and_units : MetricInfo → String
get_metric_name_and_units info = elim info.metric_obj.spec.units [
  | none ↦ info.name
  | some units ↦ info.name +++ (" (" +++ (units +++ ")"))
]

abbrev bool_text : Bool → String
bool_text true = "true"
bool_text false = "false"

abbrev satisfy_text : Option Bool → String
satisfy_text none = "unavailable"
satisfy_text (some b) = bool_text b

abbrev satisfy_at : ℕ → Option (List Bool) → String
satisfy_at index none = "unavailable"
satisfy_at index (some vals) = satisfy_text (get_elem? vals index)

abbrev assessed_satisfy : ℕ → String → Option VersionAssessmentAnalysis → String
assessed_satisfy index version none = "unavailable"
assessed_satisfy index version (some va) = satisfy_at index (lookup version va.content)

-- The indices are those of a loop over the objectives, never negative.
unfoldable pub get_satisfy_str : Experiment → ℕ → String → String
get_satisfy_str e index version = elim e.status.analysis [
  | none ↦ "unavailable"
  | some a ↦ assessed_satisfy index version a.version_assessments
]

unfoldable pub get_satisfy_strs : Experiment → ℕ → List String
unfolding get_versions get_satisfy_str
get_satisfy_strs e index = map (get_satisfy_str e index) (get_versions e)

abbrev prefers_higher : PreferredDirectionType → Bool
prefers_higher higher = true
prefers_higher _ = false

unfoldable pub stringify_reward : Reward → String
stringify_reward reward =
    if prefers_higher reward.preferred_direction
    then reward.metric +++ " (higher better)"
    else reward.metric +++ " (lower better)"
