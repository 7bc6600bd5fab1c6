-- ===== src/Api/Builders.antt =====
-- api/v2alpha2/experiment_builder.go: experiments put together step by step.
-- A builder is the experiment itself; each step returns it changed.
use etc.Prelude.{
  Bool, false, ◌||◌, Option, none, some, List, [], ◌∷◌, ◌++◌, String, str_eq, if◌then◌else◌, insert,
}
use etc.Prelude.Int.{ℤ}
use etc.Prelude.Text.{◌+++◌}
use etc.Api.Constants.{
  TestingPatternType, other, DeploymentPatternType, PreferredDirectionType, ExperimentConditionType,
  ConditionStatus,
}
use etc.Api.Types.{
  Time, Quantity, ObjectReference, VersionDetail, VersionInfo, TaskSpec, Strategy, Criteria,
  Duration, ExperimentSpec, WeightData, WeightsAnalysis, Analysis, Metric, ExperimentStatus,
  Experiment,
}
use etc.Api.Status.{mark_condition}

-- The zero values of the structs.
abbrev empty_strategy : Strategy
empty_strategy = record {
  testing_pattern = other "";
  deployment_pattern = none;
  actions = [];
  weights = none;
}

abbrev empty_criteria : Criteria
empty_criteria = record {
  request_count = none;
  rewards = [];
  indicators = [];
  objectives = [];
  strength = "";
}

abbrev empty_duration : Duration
empty_duration = record { interval_seconds = none; iterations_per_loop = none; max_loops = none }

abbrev pub empty_analysis : Analysis
empty_analysis = record {
  aggregated_builtin_hists = none;
  aggregated_metrics = none;
  winner_assessment = none;
  version_assessments = none;
  weights = none;
}

abbrev empty_status : ExperimentStatus
empty_status = record {
  conditions = [];
  init_time = none;
  start_time = none;
  last_update_time = none;
  stage = none;
  completed_iterations = none;
  current_weight_distribution = [];
  analysis = none;
  version_recommended_for_promotion = none;
  message = none;
  metrics = [];
}

abbrev pub named_version : String → Option ObjectReference → VersionDetail
named_version name obj_ref = record { name = name; variables = []; weight_obj_ref = obj_ref }

unfoldable pub new_experiment : String → String → Experiment
new_experiment name namespace = record {
  name = name;
  namespace = namespace;
  spec = record {
    target = "";
    version_info = none;
    strategy = empty_strategy;
    criteria = none;
    duration = none;
  };
  status = empty_status;
}

abbrev on_spec : (ExperimentSpec → ExperimentSpec) → Experiment → Experiment
on_spec f b = record b { spec = f b.spec }

abbrev on_strategy : (Strategy → Strategy) → Experiment → Experiment
on_strategy f = on_spec (λ s. record s { strategy = f s.strategy })

unfoldable pub with_target : String → Experiment → Experiment
with_target target = on_spec (λ s. record s { target = target })

unfoldable pub with_testing_pattern : TestingPatternType → Experiment → Experiment
with_testing_pattern pattern = on_strategy (λ s. record s { testing_pattern = pattern })

unfoldable pub with_deployment_pattern : DeploymentPatternType → Experiment → Experiment
with_deployment_pattern pattern = on_strategy (λ s. record s { deployment_pattern = some pattern })

abbrev or_else : {A : Type 0} → A → Option A → A
or_else a none = a
or_else a (some b) = b

unfoldable pub with_duration : ℤ → ℤ → ℤ → Experiment → Experiment
with_duration interval iterations_per_loop max_loops = on_spec (λ s. record s {
  duration = some (record (or_else empty_duration s.duration) {
    interval_seconds = some interval;
    iterations_per_loop = some iterations_per_loop;
    max_loops = some max_loops;
  });
})

abbrev on_criteria : (Criteria → Criteria) → Experiment → Experiment
on_criteria f = on_spec (λ s. record s { criteria = some (f (or_else empty_criteria s.criteria)) })

unfoldable pub with_request_count : String → Experiment → Experiment
with_request_count request_count =
    on_criteria (λ c. record c { request_count = some request_count })

-- Both branches write a baseline with no variables, and then the reference where there is one.
abbrev baseline_info : VersionDetail → Option VersionInfo → VersionInfo
baseline_info v none = record { baseline = v; candidates = [] }
baseline_info v (some info) = record info { baseline = v }

unfoldable pub with_baseline_version : String → Option ObjectReference → Experiment → Experiment
with_baseline_version name obj_ref = on_spec (λ s. record s {
  version_info = some (baseline_info (named_version name obj_ref) s.version_info);
})

unfoldable pub has_version : String → List VersionDetail → Bool
has_version name [] = false
has_version name (v ∷ vs) = str_eq v.name name || has_version name vs

abbrev empty_version_info : VersionInfo
empty_version_info = record { baseline = named_version "" none; candidates = [] }

-- The loop over the candidates writes to a copy of the one with the name, and returns.
abbrev candidate_info : VersionDetail → VersionInfo → VersionInfo
candidate_info v info =
    if has_version v.name info.candidates
    then info
    else record info { candidates = info.candidates ++ (v ∷ []) }

unfoldable pub with_candidate_version : String → Option ObjectReference → Experiment → Experiment
unfolding has_version
with_candidate_version name obj_ref = on_spec (λ s. record s {
  version_info =
      some
        (candidate_info (named_version name obj_ref) (or_else empty_version_info s.version_info));
})

unfoldable pub has_weight : String → List WeightData → Bool
has_weight name [] = false
has_weight name (w ∷ ws) = str_eq w.name name || has_weight name ws

-- The loops over weights write to a copy as well.
abbrev add_weight : WeightData → List WeightData → List WeightData
add_weight w ws = if has_weight w.name ws then ws else ws ++ (w ∷ [])

abbrev on_status : (ExperimentStatus → ExperimentStatus) → Experiment → Experiment
on_status f b = record b { status = f b.status }

unfoldable pub with_current_weight : String → ℤ → Experiment → Experiment
unfolding has_weight
with_current_weight name weight = on_status (λ s. record s {
  current_weight_distribution =
      add_weight (record { name = name; value = weight }) s.current_weight_distribution;
})

abbrev fresh_weights : Time → WeightsAnalysis
fresh_weights now = record {
  meta = record { provenance = "provenance"; timestamp = now; message = none };
  content = [];
}

abbrev recommend : WeightData → WeightsAnalysis → WeightsAnalysis
recommend w a = record a { content = add_weight w a.content }

-- The time of metav1.Now() is an argument.
unfoldable pub with_recommended_weight : Time → String → ℤ → Experiment → Experiment
unfolding has_weight
with_recommended_weight now name weight = on_status (λ s.
    let a = or_else empty_analysis s.analysis in
    let w =
      recommend (record { name = name; value = weight }) (or_else (fresh_weights now) a.weights) in
    record s { analysis = some (record a { weights = some w }) })

unfoldable pub with_condition :
    Time → ExperimentConditionType → ConditionStatus → String → String → Experiment → Experiment
unfolding mark_condition
with_condition now kind status reason condition_message =
    on_status (λ s. (mark_condition now kind status reason condition_message s).0)

unfoldable pub with_action : String → List TaskSpec → Experiment → Experiment
with_action key tasks = on_strategy (λ s. record s { actions = insert key tasks s.actions })

abbrev metric_name : Metric → String
metric_name metric = metric.namespace +++ ("/" +++ metric.name)

unfoldable pub with_reward : Metric → PreferredDirectionType → Experiment → Experiment
with_reward metric direction = on_criteria (λ c. record c {
  rewards =
      c.rewards ++ (record { metric = metric_name metric; preferred_direction = direction } ∷ []);
})

unfoldable pub with_indicator : Metric → Experiment → Experiment
with_indicator metric =
    on_criteria (λ c. record c { indicators = c.indicators ++ (metric_name metric ∷ []) })

unfoldable pub with_objective :
    Metric → Option Quantity → Option Quantity → Bool → Experiment → Experiment
with_objective metric upper lower rollback = on_criteria (λ c. record c {
  objectives =
      c.objectives
      ++ (record {
        metric = metric_name metric;
        upper_limit = upper;
        lower_limit = lower;
        rollback_on_failure = some rollback;
      }
          ∷ []);
})
