-- ===== src/Api/Constants/Reason.antt =====
-- api/v2alpha2/constants.go: the reasons that a condition's status is set for.
use etc.Prelude.{String}

abbrev pub experiment_initialized : String
experiment_initialized = "ExperimentInitialized"

abbrev pub target_acquired : String
target_acquired = "TargetAcquired"

abbrev pub iteration_completed : String
iteration_completed = "IterationUpdate"

abbrev pub experiment_completed : String
experiment_completed = "ExperimentCompleted"

abbrev pub analytics_service_error : String
analytics_service_error = "AnalyticsServiceError"

abbrev pub metric_unavailable : String
metric_unavailable = "MetricUnavailable"

abbrev pub metrics_unreadable : String
metrics_unreadable = "MetricsUnreadable"

abbrev pub handler_launched : String
handler_launched = "HandlerLaunched"

abbrev pub handler_failed : String
handler_failed = "HandlerFailed"

abbrev pub weight_redistribution_failed : String
weight_redistribution_failed = "WeightRedistributionFailed"

abbrev pub invalid_experiment : String
invalid_experiment = "InvalidExperiment"

abbrev pub stage_advanced : String
stage_advanced = "StageAdvanced"
