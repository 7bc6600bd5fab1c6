-- ===== src/Examples/Base.antt =====
-- A small cluster and a few experiments for it, as in the samples of test/data.
use etc.Prelude.{
  ◌≡◌, refl, Bool, true, false, Option, none, some, List, [], ◌∷◌, String, ltb, ◌+◌, length,
}
use etc.Prelude.Int.{pos}
use etc.Api.Constants.{
  canary, progressive, experiment_completed, condition_true, condition_false, waiting, running,
}
use etc.Api.Types.{
  Time, ObjectReference, VersionDetail, VersionInfo, ExperimentSpec, ExperimentCondition,
  ExperimentStatus, Experiment, AnalysisMetaData, Analysis, VersionAssessmentAnalysis, Objective,
  Criteria,
}
use etc.Controller.Effects.{Cluster, HasTimeOrder, Job, Lookup, Creation, ok, err, Env}

abbrev sooner : Option Time → Option Time → Bool
sooner none u = false
sooner (some t) none = false
sooner (some t) (some u) = ltb t u

abbrev unchanged : String → Job → Option String × Job
unchanged yaml job = (none, job)

-- The clock ticks with each call, no job exists, every object carries weight 30, and the API server
-- lists these experiments.
abbrev pub cluster_of : List Experiment → Cluster
cluster_of listed = record {
  config = record {
    endpoint = "http://analytics";
    namespace = "iter8";
    handlers_dir = "/handlers";
  };
  now = λ t. 100 + length t;
  before = sooner;
  status_updated = λ t e. none;
  experiments = λ t. ok listed;
  experiment = λ t ref. Lookup.not_found;
  jobs = λ t ns. ok [];
  job = λ t ref. Lookup.not_found;
  job_created = λ t job. Creation.created;
  metric = λ t ref. Lookup.not_found;
  resource = λ t v k. ok true;
  object = λ t ref ns. ok "{}";
  json_path = λ path obj. ok "30";
  patched = λ t ref ns ps. none;
  file = λ t name. err "no such file";
  decode_job = unchanged;
  posted = λ t endpoint e. ("no answer", pos 503);
  decode_analysis = λ text. err "no analysis";
  stack_depth = 3;
}

pub cluster_of-HasTimeOrder : (listed : List Experiment) → HasTimeOrder (cluster_of listed)
cluster_of-HasTimeOrder listed = record {
  none_before = λ t. refl;
  before_none = none_last;
  before_some = λ t u. refl;
}
  where
    none_last : (t : Option Time) → sooner t none ≡ false
    none_last none = refl
    none_last (some t) = refl

abbrev pub weight_ref : ObjectReference
weight_ref = record {
  api_version = "v1";
  kind = "Service";
  namespace = "";
  name = "app";
  field_path = ".spec.weight";
}

abbrev pub baseline_version : VersionDetail
baseline_version = record { name = "stable"; variables = []; weight_obj_ref = none }

abbrev pub candidate_version : VersionDetail
candidate_version = record { name = "next"; variables = []; weight_obj_ref = some weight_ref }

abbrev pub two_versions : VersionInfo
two_versions = record { baseline = baseline_version; candidates = candidate_version ∷ [] }

abbrev pub latency : Objective
latency = record {
  metric = "latency";
  upper_limit = some "10";
  lower_limit = none;
  rollback_on_failure = some true;
}

abbrev pub latency_criteria : Criteria
latency_criteria = record {
  request_count = none;
  rewards = [];
  indicators = [];
  objectives = latency ∷ [];
  strength = "";
}

abbrev pub test_spec : ExperimentSpec
test_spec = record {
  target = "app";
  version_info = some two_versions;
  strategy = record {
    testing_pattern = canary;
    deployment_pattern = some progressive;
    actions = [];
    weights = none;
  };
  criteria = some latency_criteria;
  duration = some (record {
    interval_seconds = some (pos 10);
    iterations_per_loop = some (pos 4);
    max_loops = some (pos 2);
  });
}

abbrev pub not_completed : ExperimentCondition
not_completed = record {
  kind = experiment_completed;
  status = condition_false;
  last_transition_time = some 7;
  reason = none;
  message = none;
}

abbrev pub over : ExperimentCondition
over = record not_completed { status = condition_true }

abbrev pub no_meta : AnalysisMetaData
no_meta = record { provenance = ""; timestamp = 0; message = none }

abbrev pub assessments : VersionAssessmentAnalysis
assessments = record { meta = no_meta; content = ("stable", true ∷ []) ∷ ("next", false ∷ []) ∷ [] }

abbrev pub test_analysis : Analysis
test_analysis = record {
  aggregated_builtin_hists = some (record { meta = no_meta; content = "{}" });
  aggregated_metrics = none;
  winner_assessment = none;
  version_assessments = some assessments;
  weights = none;
}

abbrev pub waiting_status : ExperimentStatus
waiting_status = record {
  conditions = not_completed ∷ [];
  init_time = some 7;
  start_time = none;
  last_update_time = none;
  stage = some waiting;
  completed_iterations = some (pos 0);
  current_weight_distribution = [];
  analysis = none;
  version_recommended_for_promotion = none;
  message = none;
  metrics = [];
}

-- An experiment that waits for its target.
abbrev pub waiting_experiment : Experiment
waiting_experiment = record {
  name = "first";
  namespace = "default";
  spec = test_spec;
  status = waiting_status;
}

-- Another one for the same target, initialized at the same time.
abbrev pub other_experiment : Experiment
other_experiment = record waiting_experiment { name = "second" }

abbrev pub completed_experiment : Experiment
completed_experiment = record waiting_experiment {
  status = record waiting_status { conditions = over ∷ [] };
}

-- An experiment that runs and has an analysis.
abbrev pub running_experiment : Experiment
running_experiment = record waiting_experiment {
  status = record waiting_status {
    stage = some running;
    start_time = some 9;
    last_update_time = some 50;
    completed_iterations = some (pos 3);
    analysis = some test_analysis;
  };
}

abbrev pub test_cluster : Cluster
test_cluster = cluster_of (waiting_experiment ∷ other_experiment ∷ [])

abbrev pub env_of : Experiment → Env
env_of e = record { instance_ = e; original = e.status; trace = [] }
