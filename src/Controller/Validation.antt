-- ===== src/Controller/Validation.antt =====
-- controllers/validatation.go: what is verified of a spec before an experiment runs.
pub mod Names
pub mod Tasks
pub mod Versions
use etc.Prelude.{
  ℕ, zero, suc, ◌+◌, ◌==◌, ltb, ◌≡◌, refl, Bool, true, false, ◌&&◌, ◌||◌, not, Option, none, some,
  List, [], ◌∷◌, ◌++◌, String, length, if◌then◌else◌,
}
use etc.Prelude.Text.{◌+++◌, is_empty, begins_with}
use etc.Api.Constants.{TestingPatternType, canary, ab, abn, conformance, testing_pattern_text}
use etc.Api.Constants.Reason
use etc.Api.Types.{
  ObjectReference, VersionDetail, VersionInfo, TaskSpec, Action, ActionMap, Criteria, Strategy,
  ExperimentSpec, Experiment,
}
use etc.Controller.Effects.{Cluster, Env, M, ◌>>=◌, ◌>>◌, pure, gets, get_instance}
use etc.Controller.Recorder.{record_experiment_failed}
use etc.Controller.Target.{contains_string}

abbrev pub candidates_match : TestingPatternType → VersionInfo → Bool
candidates_match conformance v = length v.candidates == 0
candidates_match ab v = length v.candidates == 1
candidates_match canary v = length v.candidates == 1
candidates_match abn v = ltb 0 (length v.candidates)
candidates_match _ v = true

-- The version information is there: `IsVersionInfoValid` has tested it.
unfoldable pub candidates_match_strategy : Strategy → VersionInfo → Bool
candidates_match_strategy s v = candidates_match s.testing_pattern v

-- The loop of `versionsUnique`, over the names seen so far.
unfoldable pub unique_from : List String → List VersionDetail → Bool
unfolding contains_string
unique_from versions [] = true
unique_from versions (c ∷ cs) =
    let rest = unique_from (versions ++ (c.name ∷ [])) cs in
    if contains_string versions c.name then false else rest

unfoldable pub versions_unique : VersionInfo → Bool
unfolding unique_from
versions_unique v = unique_from (v.baseline.name ∷ []) v.candidates

abbrev pub no_rewards : Option Criteria → Bool
no_rewards none = true
no_rewards (some c) = length c.rewards == 0

abbrev pub one_reward : Option Criteria → Bool
one_reward none = false
one_reward (some c) = length c.rewards == 1

abbrev pub rewards_match : TestingPatternType → Option Criteria → Bool
rewards_match conformance c = no_rewards c
rewards_match canary c = no_rewards c
rewards_match ab c = one_reward c
rewards_match abn c = one_reward c
rewards_match _ c = true

unfoldable pub valid_number_of_rewards : ExperimentSpec → Bool
valid_number_of_rewards s = rewards_match s.strategy.testing_pattern s.criteria

-- A text that is there and is not empty.
abbrev pub is_given : Option String → Bool
is_given none = false
is_given (some s) = not (is_empty s)

abbrev pub one_if : Bool → ℕ
one_if true = 1
one_if false = 0

abbrev pub task_valid : TaskSpec → Bool
task_valid t = one_if (is_given t.task) + one_if (is_given t.run) == 1

unfoldable pub action_valid : Action → Bool
action_valid [] = true
action_valid (t ∷ ts) = let rest = action_valid ts in if task_valid t then rest else false

-- Each task has either a task text or a run text, and not both.
unfoldable pub are_tasks_valid : ActionMap → Bool
unfolding action_valid
are_tasks_valid [] = true
are_tasks_valid ((name, a) ∷ m) =
    let rest = are_tasks_valid m in if action_valid a then rest else false

unfoldable pub is_experiment_valid : Experiment → Bool
unfolding are_tasks_valid
is_experiment_valid i = are_tasks_valid i.spec.strategy.actions

-- A reference whose field path is not empty and does not start with '.'.
abbrev pub bad_path : Option ObjectReference → Bool
bad_path none = false
bad_path (some ref) = not (is_empty ref.field_path) && not (begins_with b'.' ref.field_path)

unfoldable pub any_bad_path : List VersionDetail → Bool
any_bad_path [] = false
any_bad_path (v ∷ vs) =
    let rest = any_bad_path vs in if bad_path v.weight_obj_ref then true else rest

-- The first test of `IsVersionInfoValid` that fails, as the message that is recorded.
unfoldable pub version_info_problem : ExperimentSpec → VersionInfo → Option String
unfolding candidates_match_strategy versions_unique valid_number_of_rewards any_bad_path
version_info_problem s v =
    let pattern_ = testing_pattern_text s.strategy.testing_pattern in
    if not (candidates_match_strategy s.strategy v)
    then some ("Invalid number of candidates for " +++ (pattern_ +++ " experiment"))
    else if not (versions_unique v)
    then some "Version names are not unique"
    else if not (valid_number_of_rewards s)
    then some ("Invalid number of rewards for " +++ (pattern_ +++ " experiment"))
    else if any_bad_path (v.baseline ∷ v.candidates)
    then some "Fieldpaths must start with '.'"
    else none

abbrev pub problem_of : ExperimentSpec → Option VersionInfo → Option String
problem_of s none = some "No versionInfo in experiment"
problem_of s (some v) = version_info_problem s v

module _ ⦃cl : Cluster⦄ where
  unfoldable pub is_version_info_valid : M Bool
  is_version_info_valid = do
    i ← get_instance
    elim (problem_of i.spec i.spec.version_info) [
      | none ↦ pure true
      | some message ↦ record_experiment_failed Reason.invalid_experiment message >> pure false
    ]
