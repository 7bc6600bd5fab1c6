-- ===== src/Api/Types.antt =====
-- api/v2alpha2/experiment_types.go and metric_types.go: the experiment and metric resources.
-- Pointers are options, maps are association lists, and int32 values are integers in its range.
-- A resource.Quantity is its serialized text, and so is a raw JSON value.
use etc.Prelude.{ℕ, Bool, Option, List, String}
use etc.Prelude.Int.{ℤ}
use etc.Api.Constants.{
  TestingPatternType, DeploymentPatternType, PreferredDirectionType, ExperimentConditionType,
  ConditionStatus, ExperimentStageType,
}

-- A point in time, in nanoseconds (metav1.Time, time.Time).
abbrev pub Time : Type 0
Time = ℕ

abbrev pub Quantity : Type 0
Quantity = String

abbrev pub Json : Type 0
Json = String

pub record NamedValue : Type 0 where
  pub name : String
  pub value : String

-- corev1.ObjectReference, the fields that the program reads.
pub record ObjectReference : Type 0 where
  pub api_version : String
  pub kind : String
  pub namespace : String
  pub name : String
  pub field_path : String

pub record VersionDetail : Type 0 where
  pub name : String
  pub variables : List NamedValue
  pub weight_obj_ref : Option ObjectReference

pub record VersionInfo : Type 0 where
  pub baseline : VersionDetail
  pub candidates : List VersionDetail

pub record TaskSpec : Type 0 where
  pub task : Option String
  pub run : Option String
  pub condition : Option String
  pub with_inputs : List (String × Json)

abbrev pub Action : Type 0
Action = List TaskSpec

abbrev pub ActionMap : Type 0
ActionMap = List (String × Action)

pub record Weights : Type 0 where
  pub max_candidate_weight : Option ℤ
  pub max_candidate_weight_increment : Option ℤ

pub record Strategy : Type 0 where
  pub testing_pattern : TestingPatternType
  pub deployment_pattern : Option DeploymentPatternType
  pub actions : ActionMap
  pub weights : Option Weights

pub record Reward : Type 0 where
  pub metric : String
  pub preferred_direction : PreferredDirectionType

pub record Objective : Type 0 where
  pub metric : String
  pub upper_limit : Option Quantity
  pub lower_limit : Option Quantity
  pub rollback_on_failure : Option Bool

pub record Criteria : Type 0 where
  pub request_count : Option String
  pub rewards : List Reward
  pub indicators : List String
  pub objectives : List Objective
  pub strength : Json

pub record Duration : Type 0 where
  pub interval_seconds : Option ℤ
  pub iterations_per_loop : Option ℤ
  pub max_loops : Option ℤ

pub record ExperimentSpec : Type 0 where
  pub target : String
  pub version_info : Option VersionInfo
  pub strategy : Strategy
  pub criteria : Option Criteria
  pub duration : Option Duration

pub record ExperimentCondition : Type 0 where
  pub kind : ExperimentConditionType
  pub status : ConditionStatus
  pub last_transition_time : Option Time
  pub reason : Option String
  pub message : Option String

pub record AnalysisMetaData : Type 0 where
  pub provenance : String
  pub timestamp : Time
  pub message : Option String

pub record AggregatedBuiltinHists : Type 0 where
  pub meta : AnalysisMetaData
  pub content : Json

pub record WeightData : Type 0 where
  pub name : String
  pub value : ℤ

pub record WinnerAssessmentData : Type 0 where
  pub winner_found : Bool
  pub winner : Option String

pub record WinnerAssessmentAnalysis : Type 0 where
  pub meta : AnalysisMetaData
  pub content : WinnerAssessmentData

pub record VersionAssessmentAnalysis : Type 0 where
  pub meta : AnalysisMetaData
  pub content : List (String × List Bool)

pub record WeightsAnalysis : Type 0 where
  pub meta : AnalysisMetaData
  pub content : List WeightData

pub record AggregatedMetricsVersionData : Type 0 where
  pub max : Option Quantity
  pub min : Option Quantity
  pub value : Option Quantity
  pub sample_size : Option ℤ

pub record AggregatedMetricsData : Type 0 where
  pub max : Option Quantity
  pub min : Option Quantity
  pub content : List (String × AggregatedMetricsVersionData)

pub record AggregatedMetricsAnalysis : Type 0 where
  pub meta : AnalysisMetaData
  pub content : List (String × AggregatedMetricsData)

pub record Analysis : Type 0 where
  pub aggregated_builtin_hists : Option AggregatedBuiltinHists
  pub aggregated_metrics : Option AggregatedMetricsAnalysis
  pub winner_assessment : Option WinnerAssessmentAnalysis
  pub version_assessments : Option VersionAssessmentAnalysis
  pub weights : Option WeightsAnalysis

pub data MetricType : Type 0 where
  counter gauge : MetricType
  other : String → MetricType

-- The level of a mocked metric for a version.
pub record NamedLevel : Type 0 where
  pub name : String
  pub level : Quantity

-- Authentication types and methods are texts.
pub record MetricSpec : Type 0 where
  pub params : List NamedValue
  pub description : Option String
  pub units : Option String
  pub kind : Option MetricType
  pub sample_size : Option String
  pub auth_type : Option String
  pub method : Option String
  pub body : Option String
  pub provider : Option String
  pub jq_expression : Option String
  pub secret : Option String
  pub header_templates : List NamedValue
  pub url_template : Option String
  pub mock : List NamedLevel

pub record Metric : Type 0 where
  pub name : String
  pub namespace : String
  pub spec : MetricSpec

pub record MetricInfo : Type 0 where
  pub name : String
  pub metric_obj : Metric

pub record ExperimentStatus : Type 0 where
  pub conditions : List ExperimentCondition
  pub init_time : Option Time
  pub start_time : Option Time
  pub last_update_time : Option Time
  pub stage : Option ExperimentStageType
  pub completed_iterations : Option ℤ
  pub current_weight_distribution : List WeightData
  pub analysis : Option Analysis
  pub version_recommended_for_promotion : Option String
  pub message : Option String
  pub metrics : List MetricInfo

pub record Experiment : Type 0 where
  pub name : String
  pub namespace : String
  pub spec : ExperimentSpec
  pub status : ExperimentStatus
