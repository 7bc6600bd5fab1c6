-- ===== src/Iter8ctl/Describe/Tables.antt =====
-- iter8ctl/describe/describe.go: the tables. `render` is the text of a table of the package
-- tablewriter, from its header and its rows.
pub mod Reads
use etc.Prelude.{
  ℕ, zero, suc, Bool, true, false, not, Option, none, some, List, [], ◌∷◌, ◌++◌, String, map,
  if◌then◌else◌,
}
use etc.Prelude.Int.{ℤ, pos, eqb_ℤ}
use etc.Prelude.Text.{◌+++◌, print_int}
use etc.Api.Constants.{
  TestingPatternType, canary, conformance, testing_pattern_text, DeploymentPatternType, fixed_split,
  progressive, blue_green, other, stage_text,
}
use etc.Api.Types.{
  Reward, Objective, Criteria, MetricInfo, Analysis, WinnerAssessmentAnalysis, Experiment,
}
use etc.Controller.Effects.{Outcome, done, panic}
use etc.Iter8ctl.Effects.{◌>>=◌, traverse, Decimals}
use etc.Iter8ctl.Experiment.{
  get_versions, started, get_metric_strs, get_metric_name_and_units, get_satisfy_strs,
  condition_from_objective, stringify_reward,
}
use etc.Iter8ctl.Experiment.Rewards.{get_annotated_metric_strs}

module _ ⦃ds : Decimals⦄ (render : List String → List (List String) → String) where
  unfoldable pub reward_row : Experiment → Reward → Outcome (List String)
  unfolding ◌>>=◌
  reward_row e reward = do
    values ← get_annotated_metric_strs e reward
    done (stringify_reward reward ∷ values)

  abbrev pub reward_table : Experiment → List Reward → Outcome String
  reward_table e [] = done ""
  reward_table e rewards = do
    rows ← traverse (reward_row e) rewards
    done (
        "\n****** Reward Assessment ******\n"
        +++ "> Identifies values of reward metrics for each version. "
        +++ "The best version is marked with a '*'.\n"
        +++ render ("Reward" ∷ get_versions e) rows)

  abbrev pub criteria_text : Experiment → Option Criteria → Outcome String
  criteria_text e none = done ""
  criteria_text e (some c) = reward_table e c.rewards

  abbrev pub reward_text : Experiment → Option Analysis → Outcome String
  reward_text e none = done ""
  reward_text e (some a) = elim a.version_assessments [
    | none ↦ done ""
    | some va ↦ criteria_text e e.spec.criteria
  ]

  unfoldable pub objective_rows : Experiment → ℕ → List Objective → List (List String)
  objective_rows e i [] = []
  objective_rows e i (o ∷ os) =
      (o.metric ∷ condition_from_objective o ∷ get_satisfy_strs e i) ∷ objective_rows e (suc i) os

  -- e.Spec.Criteria is dereferenced without a test.
  abbrev pub objective_table : Experiment → Option Criteria → Outcome String
  objective_table e none = panic
  objective_table e (some c) = done (
      "\n****** Objective Assessment ******\n"
      +++ "> Whether objectives specified in the experiment are satisfied by versions.\n"
      +++ "> This assessment is based on last known metric values for each version.\n"
      +++ render ("Metric" ∷ "Condition" ∷ get_versions e) (objective_rows e 0 c.objectives))

  abbrev pub objective_text : Experiment → Option Analysis → Outcome String
  objective_text e none = done ""
  objective_text e (some a) = elim a.version_assessments [
    | none ↦ done ""
    | some va ↦ objective_table e e.spec.criteria
  ]

  unfoldable pub has_objectives : Option Criteria → Bool
  has_objectives none = false
  has_objectives (some c) = elim c.objectives [ [] ↦ false | o ∷ os ↦ true ]

  unfoldable pub metric_row : Experiment → MetricInfo → Outcome (List String)
  unfolding ◌>>=◌
  metric_row e info = do
    values ← get_metric_strs e info.name
    done (get_metric_name_and_units info ∷ values)

  abbrev pub metrics_table : Experiment → Outcome String
  metrics_table e = do
    rows ← traverse (metric_row e) e.status.metrics
    done (
        "\n****** Metrics Assessment ******\n"
        +++ "> Last known metric values for each version.\n"
        +++ render ("Metric" ∷ get_versions e) rows)

  abbrev pub metrics_text : Experiment → Option Analysis → Outcome String
  metrics_text e none = done ""
  metrics_text e (some a) = elim a.aggregated_metrics [ none ↦ done "" | some am ↦ metrics_table e ]
