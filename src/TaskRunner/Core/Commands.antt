-- ===== src/TaskRunner/Core/Commands.antt =====
-- taskrunner/core/commands.go, and the methods of experiment.go that it rests on: what conditions and
-- commands of a task ask of an experiment.
use etc.Prelude.{
  Bool, true, false, Option, none, some, List, [], ◌∷◌, ◌++◌, String, str_eq, if◌then◌else◌, lookup,
}
use etc.Prelude.Text.{◌+++◌}
use etc.Api.Types.{
  NamedValue, VersionDetail, VersionInfo, Action, WinnerAssessmentAnalysis, Analysis, Experiment,
}
use etc.Controller.Effects.{Result, ok, err, Outcome, done, panic}

abbrev assessment_of : Option Analysis → Option WinnerAssessmentAnalysis
assessment_of none = none
assessment_of (some a) = a.winner_assessment

abbrev assessed_winner_found : Option WinnerAssessmentAnalysis → Bool
assessed_winner_found none = false
assessed_winner_found (some w) = w.content.winner_found

unfoldable pub winner_found : Option Experiment → Bool
winner_found none = false
winner_found (some e) = assessed_winner_found (assessment_of e.status.analysis)

abbrev names_winner : String → Option String → Outcome Bool
names_winner name none = panic
names_winner name (some winner) = done (str_eq name winner)

abbrev winner_name : Option WinnerAssessmentAnalysis → Option String
winner_name none = none
winner_name (some w) = w.content.winner

abbrev only_candidate : Option String → List VersionDetail → Outcome Bool
only_candidate winner (c ∷ []) = names_winner c.name winner
only_candidate winner _ = done false

-- The version information and the winner are dereferenced without a test.
abbrev candidate_in : Option String → Option VersionInfo → Outcome Bool
candidate_in winner none = panic
candidate_in winner (some info) = only_candidate winner info.candidates

unfoldable pub candidate_won : Option Experiment → Outcome Bool
unfolding winner_found
candidate_won none = done false
candidate_won (some e) = elim (winner_found (some e)) [
  | false ↦ done false
  | true ↦ candidate_in (winner_name (assessment_of e.status.analysis)) e.spec.version_info
]

-- The methods of commands.go, on an experiment that may be nil.
unfoldable pub get_version_recommended_for_promotion : Option Experiment → Result String
get_version_recommended_for_promotion none =
    err "function GetVersionRecommendedForPromotion() called on nil experiment"
get_version_recommended_for_promotion (some e) = elim e.status.version_recommended_for_promotion [
  | none ↦ err "version recommended for promotion not found in experiment status"
  | some v ↦ ok v
]

unfoldable pub find_version : String → List VersionDetail → Option VersionDetail
find_version name [] = none
find_version name (v ∷ vs) = if str_eq v.name name then some v else find_version name vs

abbrev versions_of : Option VersionInfo → List VersionDetail
versions_of none = []
versions_of (some info) = info.baseline ∷ info.candidates

unfoldable pub get_version_detail : Option Experiment → String → Result VersionDetail
unfolding find_version
get_version_detail none name = err "getVersionDetail(...) called on nil experiment"
get_version_detail (some e) name = elim (find_version name (versions_of e.spec.version_info)) [
  | none ↦ err ("no version found with name " +++ name)
  | some v ↦ ok v
]

abbrev pub action_or_error : String → Option Action → Result Action
action_or_error name none = err ("action with name " +++ (name +++ " not found"))
action_or_error name (some a) = ok a

abbrev pub action_in_map : String → List (String × Action) → Result Action
action_in_map name [] = err "nil actions"
action_in_map name (entry ∷ entries) = action_or_error name (lookup name (entry ∷ entries))

-- A map without entries is nil here.
unfoldable pub get_action_spec : Option Experiment → String → Result Action
get_action_spec none name = err "GetActionSpec(...) called on nil experiment"
get_action_spec (some e) name = action_in_map name e.spec.strategy.actions

unfoldable pub find_variable : String → List NamedValue → Option String
find_variable name [] = none
find_variable name (v ∷ vs) = if str_eq v.name name then some v.value else find_variable name vs

abbrev pub add_variable : VersionDetail → String → String → Option String → VersionDetail
add_variable v name value (some present) = v
add_variable v name value none = record v {
  variables = v.variables ++ (record { name = name; value = value } ∷ []);
}

-- The version detail, changed, and the error.
unfoldable pub update_variable :
    Option VersionDetail → String → String → Option VersionDetail × Option String
unfolding find_variable
update_variable none name value = (none, some "nil valued version detail")
update_variable (some v) name value =
    (some (add_variable v name value (find_variable name v.variables)), none)

abbrev pub variable_or_error : Option String → Result String
variable_or_error none = err "variable not present in VersionDetail"
variable_or_error (some value) = ok value

unfoldable pub find_variable_in_version_detail : Option VersionDetail → String → Result String
unfolding find_variable
find_variable_in_version_detail none name = err "nil valued VersionDetail"
find_variable_in_version_detail (some v) name = variable_or_error (find_variable name v.variables)

-- The time of metav1.Now() is an argument.
