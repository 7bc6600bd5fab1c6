-- ===== src/Api/Constants.antt =====
-- api/v2alpha2/constants.go: the enumerated texts of an experiment and the order of its stages.
-- A text outside the enumeration is `other`; the schema of the resource refuses such texts.
pub mod Reason
use etc.Prelude.{
  ℕ, suc, ◌+◌, ◌≡◌, refl, Bool, true, false, Option, none, some, List, [], ◌∷◌, String, str_eq,
  if◌then◌else◌,
}
use etc.Prelude.Int.{ℤ, pos, negsuc, ltb_ℤ}

pub data TestingPatternType : Type 0 where
  canary ab abn conformance : TestingPatternType
  other : String → TestingPatternType

-- The text of a pattern, which messages print.
abbrev pub testing_pattern_text : TestingPatternType → String
testing_pattern_text canary = "Canary"
testing_pattern_text ab = "A/B"
testing_pattern_text abn = "A/B/N"
testing_pattern_text conformance = "Conformance"
testing_pattern_text (other s) = s

pub data DeploymentPatternType : Type 0 where
  fixed_split progressive blue_green : DeploymentPatternType
  other : String → DeploymentPatternType

pub data PreferredDirectionType : Type 0 where
  higher lower : PreferredDirectionType
  other : String → PreferredDirectionType

pub data ExperimentConditionType : Type 0 where
  experiment_completed experiment_failed target_acquired : ExperimentConditionType

-- c.Type == condition
abbrev pub condition_eq : ExperimentConditionType → ExperimentConditionType → Bool
condition_eq experiment_completed experiment_completed = true
condition_eq experiment_failed experiment_failed = true
condition_eq target_acquired target_acquired = true
condition_eq _ _ = false

-- corev1.ConditionStatus
pub data ConditionStatus : Type 0 where
  condition_true condition_false condition_unknown : ConditionStatus

abbrev pub status_eq : ConditionStatus → ConditionStatus → Bool
status_eq condition_true condition_true = true
status_eq condition_false condition_false = true
status_eq condition_unknown condition_unknown = true
status_eq _ _ = false

pub data ExperimentStageType : Type 0 where
  waiting initializing running finishing completed : ExperimentStageType
  other : String → ExperimentStageType

abbrev pub stage_text : ExperimentStageType → String
stage_text waiting = "Waiting"
stage_text initializing = "Initializing"
stage_text running = "Running"
stage_text finishing = "Finishing"
stage_text completed = "Completed"
stage_text (other s) = s

abbrev stage_eq : ExperimentStageType → ExperimentStageType → Bool
stage_eq waiting waiting = true
stage_eq initializing initializing = true
stage_eq running running = true
stage_eq finishing finishing = true
stage_eq completed completed = true
stage_eq (other s) (other t) = str_eq s t
stage_eq _ _ = false

-- The loop of `stageIndex`, from position `at`.
stage_index_from : ℕ → ExperimentStageType → List ExperimentStageType → ℤ
stage_index_from at value [] = negsuc 0
stage_index_from at value (val ∷ stages) =
    if stage_eq val value then pos at else stage_index_from (at + 1) value stages

unfoldable pub stage_index : ExperimentStageType → List ExperimentStageType → ℤ
unfolding stage_index_from
stage_index value stages = stage_index_from 0 value stages

abbrev pub ordered_stages : List ExperimentStageType
ordered_stages = waiting ∷ initializing ∷ running ∷ finishing ∷ completed ∷ []

-- Is `stage` after `other_stage`?
unfoldable pub after : ExperimentStageType → ExperimentStageType → Bool
unfolding stage_index
after stage other_stage =
    ltb_ℤ (stage_index other_stage ordered_stages) (stage_index stage ordered_stages)
