-- ===== src/Iter8ctl/Describe.antt =====
-- iter8ctl/describe/describe.go: the description that `iter8ctl describe` prints.
-- `render` is the text of a table of the package tablewriter, from its header and its rows.
pub mod Texts
pub mod Tables
pub mod Returns
use etc.Prelude.{
  ℕ, zero, suc, Bool, true, false, not, Option, none, some, List, [], ◌∷◌, ◌++◌, String, map,
  if◌then◌else◌,
}
use etc.Prelude.Int.{ℤ, pos, eqb_ℤ}
use etc.Prelude.Text.{◌+++◌, print_int}
use etc.Api.Constants.{
  TestingPatternType, canary, conformance, testing_pattern_text, DeploymentPatternType, fixed_split,
  progressive, blue_green, other, stage_text,
}
use etc.Api.Types.{
  Reward, Objective, Criteria, MetricInfo, Analysis, WinnerAssessmentAnalysis, Experiment,
}
use etc.Controller.Effects.{Outcome, done, panic}
use etc.Iter8ctl.Effects.{◌>>=◌, traverse, Decimals}
use etc.Iter8ctl.Experiment.{
  get_versions, started, get_metric_strs, get_metric_name_and_units, get_satisfy_strs,
  condition_from_objective, stringify_reward,
}
use etc.Iter8ctl.Experiment.Rewards.{get_annotated_metric_strs}
use etc.Iter8ctl.Describe.Texts.{progress_text, explanation, winning_text, winner_assessment_text}
use etc.Iter8ctl.Describe.Tables.{
  reward_row, reward_text, has_objectives, objective_rows, objective_text, metric_row, metrics_text,
}

pub record Description : Type 0 where
  pub experiment : Option Experiment
  pub description : String
  pub error : Option String

abbrev pub builder : Description
builder = record { experiment = none; description = ""; error = none }

-- Every method does nothing after an error.
abbrev unless_error : (Description → Outcome Description) → Description → Outcome Description
unless_error f d = elim d.error [ none ↦ f d | some text ↦ done d ]

unfoldable pub with_experiment : Option Experiment → Description → Description
with_experiment e d = elim d.error [ none ↦ record d { experiment = e } | some text ↦ d ]

-- Appends a text that reads the experiment, which must not be nil.
abbrev pub written : Description → Outcome String → Outcome Description
written d (done text) = done (record d { description = d.description +++ text })
written d panic = panic

abbrev pub described :
    (Experiment → Outcome String) → Description → Option Experiment → Outcome Description
described f d none = panic
described f d (some e) = written d (f e)

unfoldable pub write : (Experiment → Outcome String) → Description → Outcome Description
write f = unless_error (λ d. described f d d.experiment)

unfoldable pub print_progress : Description → Outcome Description
unfolding write progress_text
print_progress = write (λ e. done (progress_text e))

unfoldable pub print_winner_assessment : Description → Outcome Description
unfolding write explanation winning_text ◌>>=◌
print_winner_assessment = write (λ e. winner_assessment_text e e.status.analysis)

module _ ⦃ds : Decimals⦄ (render : List String → List (List String) → String) where
  unfoldable pub print_reward_assessment : Description → Outcome Description
  unfolding write ◌>>=◌ traverse reward_row
  print_reward_assessment = write (λ e. reward_text render e e.status.analysis)

  unfoldable pub print_objective_assessment : Description → Outcome Description
  unfolding write objective_rows
  print_objective_assessment = write (λ e. objective_text render e e.status.analysis)

  abbrev pub version_assessment : Description → Option Experiment → Outcome Description
  version_assessment d none = panic
  version_assessment d (some e) = elim (has_objectives render e.spec.criteria) [
    | false ↦ done d
    | true ↦ print_objective_assessment d
  ]

  unfoldable pub print_version_assessment : Description → Outcome Description
  unfolding print_objective_assessment has_objectives
  print_version_assessment = unless_error (λ d. version_assessment d d.experiment)

  unfoldable pub print_metrics : Description → Outcome Description
  unfolding write ◌>>=◌ traverse metric_row
  print_metrics = write (λ e. metrics_text render e e.status.analysis)

  unfoldable pub print_assessments : Description → Outcome Description
  unfolding ◌>>=◌ print_winner_assessment print_reward_assessment print_version_assessment
      print_metrics
  print_assessments d = do
    d₁ ← print_winner_assessment d
    d₂ ← print_reward_assessment d₁
    d₃ ← print_version_assessment d₂
    print_metrics d₃

  abbrev pub printed : Description → Description × Option String
  printed d = elim d.error [ none ↦ (d, some d.description) | some text ↦ (d, none) ]

  abbrev pub assess : Description → Option Experiment → Outcome Description
  assess d e = if started e then print_assessments d else done d

  abbrev pub analysis_printed : Outcome Description → Outcome (Description × Option String)
  analysis_printed progress = do d₁ ← progress; d₂ ← assess d₁ d₁.experiment; done (printed d₂)

  -- The text that goes to the standard output, if any, beside the result.
  unfoldable pub print_analysis : Description → Outcome (Description × Option String)
  unfolding ◌>>=◌ print_progress print_assessments started
  print_analysis d = elim d.error [
    | none ↦ analysis_printed (print_progress d)
    | some text ↦ done (d, none)
  ]
