-- ===== src/Iter8ctl/Describe/Texts.antt =====
-- iter8ctl/describe/describe.go: the texts on the progress and on the winner.
pub mod Winner
use etc.Prelude.{
  ℕ, zero, suc, Bool, true, false, not, Option, none, some, List, [], ◌∷◌, ◌++◌, String, map,
  if◌then◌else◌,
}
use etc.Prelude.Int.{ℤ, pos, eqb_ℤ}
use etc.Prelude.Text.{◌+++◌, print_int}
use etc.Api.Constants.{
  TestingPatternType, canary, conformance, testing_pattern_text, DeploymentPatternType, fixed_split,
  progressive, blue_green, other, stage_text,
}
use etc.Api.Types.{
  Reward, Objective, Criteria, MetricInfo, Analysis, WinnerAssessmentAnalysis, Experiment,
}
use etc.Controller.Effects.{Outcome, done, panic}
use etc.Iter8ctl.Effects.{◌>>=◌, traverse, Decimals}
use etc.Iter8ctl.Experiment.{
  get_versions, started, get_metric_strs, get_metric_name_and_units, get_satisfy_strs,
  condition_from_objective, stringify_reward,
}
use etc.Iter8ctl.Experiment.Rewards.{get_annotated_metric_strs}

unfoldable pub deployment_pattern_text : DeploymentPatternType → String
deployment_pattern_text fixed_split = "FixedSplit"
deployment_pattern_text progressive = "Progressive"
deployment_pattern_text blue_green = "BlueGreen"
deployment_pattern_text (other s) = s

abbrev iterations_text : Option ℤ → String
iterations_text none = "0"
iterations_text (some c) = if eqb_ℤ c (pos 0) then "0" else print_int c

unfoldable pub progress_text : Experiment → String
unfolding deployment_pattern_text
progress_text e =
    let pattern : DeploymentPatternType = elim e.spec.strategy.deployment_pattern [
      | none ↦ progressive
      | some p ↦ p
    ] in
    let stage : String = elim e.status.stage [
      | none ↦ ""
      | some s ↦ "Experiment stage: " +++ (stage_text s +++ "\n")
    ] in
    "\n****** Overview ******\n"
    +++ ("Experiment name: " +++ (e.name +++ "\n"))
    +++ ("Experiment namespace: " +++ (e.namespace +++ "\n"))
    +++ ("Target: " +++ (e.spec.target +++ "\n"))
    +++ ("Testing pattern: " +++ (testing_pattern_text e.spec.strategy.testing_pattern +++ "\n"))
    +++ ("Deployment pattern: " +++ (deployment_pattern_text pattern +++ "\n"))
    +++ "\n****** Progress Summary ******\n"
    +++ stage
    +++ "Number of completed iterations: "
    +++ iterations_text e.status.completed_iterations
    +++ "\n"

unfoldable pub explanation : TestingPatternType → String
explanation canary =
    "> If the candidate version satisfies the experiment objectives, then it is the winner.\n"
    +++ "> Otherwise, if the baseline version satisfies the experiment objectives, it is the winner.\n"
    +++ "> Otherwise, there is no winner.\n"
explanation conformance =
    "> If the version being validated; i.e., the baseline version, "
    +++ "satisfies the experiment objectives, it is the winner.\n"
    +++ "> Otherwise, there is no winner.\n"
explanation _ = ""

abbrev is_conformance : TestingPatternType → Bool
is_conformance conformance = true
is_conformance _ = false

-- fmt's %s of a slice of texts.
abbrev spaced : List String → String
spaced [] = ""
spaced (s ∷ ss) = " " +++ (s +++ spaced ss)

abbrev slice_text : List String → String
slice_text [] = "[]"
slice_text (s ∷ ss) = "[" +++ (s +++ (spaced ss +++ "]"))

abbrev app_versions_text : Experiment → String
app_versions_text e = elim e.spec.version_info [
  | none ↦ ""
  | some info ↦
      "App versions in this experiment: "
      +++ slice_text (info.baseline.name ∷ map (λ c. c.name) info.candidates)
      +++ "\n"
]

abbrev recommended_text : Option String → String
recommended_text none = ""
recommended_text (some v) = "Version recommended for promotion: " +++ (v +++ "\n")

-- The winner is dereferenced where one was found.
unfoldable pub winning_text : WinnerAssessmentAnalysis → Outcome String
winning_text w = elim w.content.winner_found [
  | false ↦ done "Winning version: not found\n"
  | true ↦ elim w.content.winner [
    | none ↦ panic
    | some v ↦ done ("Winning version: " +++ (v +++ "\n"))
  ]
]

abbrev pub winner_text : Experiment → Option WinnerAssessmentAnalysis → Outcome String
winner_text e none = done ""
winner_text e (some w) = do
  winning ← winning_text w
  let pattern = e.spec.strategy.testing_pattern
  let versions = if is_conformance pattern then "" else app_versions_text e
  let recommended =
      if is_conformance pattern
      then ""
      else recommended_text e.status.version_recommended_for_promotion
  done (
      "\n****** Winner Assessment ******\n"
      +++ explanation pattern
      +++ versions
      +++ winning
      +++ recommended)

abbrev pub winner_assessment_text : Experiment → Option Analysis → Outcome String
winner_assessment_text e none = done ""
winner_assessment_text e (some a) = winner_text e a.winner_assessment
