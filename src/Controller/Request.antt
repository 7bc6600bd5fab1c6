-- ===== src/Controller/Request.antt =====
-- controllers/experiment_controller.go, Reconcile: a request by name. What is not found was deleted.
use etc.Prelude.{Bool, false, none, some, List, [], ◌∷◌, str_eq, lookup}
use etc.Api.Constants
use etc.Api.Types.{Experiment}
use etc.Controller.Effects.{
  NamespacedName, Job, Iter8Config, Lookup, Call, get_experiment, Cluster, Env, Outcome, M, ◌>>◌,
  pure,
}
use etc.Controller.Target.{trigger_waiting_experiments}
use etc.Controller.Stages.{ReconcileResult, dummy_result}
use etc.Controller.Cleanup.{cleanup_deleted_experiments}
use etc.Controller.Reconcile.{reconcile_instance}

-- &v2alpha2.Experiment{}
abbrev pub empty_experiment : Experiment
empty_experiment = record {
  name = "";
  namespace = "";
  spec = record {
    target = "";
    version_info = none;
    strategy = record {
      testing_pattern = Constants.TestingPatternType.other "";
      deployment_pattern = none;
      actions = [];
      weights = none;
    };
    criteria = none;
    duration = none;
  };
  status = record {
    conditions = [];
    init_time = none;
    start_time = none;
    last_update_time = none;
    stage = none;
    completed_iterations = none;
    current_weight_distribution = [];
    analysis = none;
    version_recommended_for_promotion = none;
    message = none;
    metrics = [];
  };
}

-- jobPredicateFuncs of SetupWithManager: of the events of a job, which the controller reacts to.
pub data JobEvent : Type 0 where
  job_was_created job_was_updated job_was_deleted : JobEvent

unfoldable pub wants_job_event : Iter8Config → JobEvent → Job → Bool
wants_job_event config job_was_created job = false
wants_job_event config job_was_updated job = str_eq job.namespace config.namespace
wants_job_event config job_was_deleted job = false

-- jobToExperiment: the requests that such an event enqueues.
unfoldable pub job_to_experiment : Job → List NamespacedName
job_to_experiment job = elim (lookup "iter8/experimentName" job.labels) [
  | none ↦ []
  | some experiment_name ↦ elim (lookup "iter8/experimentNamespace" job.labels) [
    | none ↦ []
    | some experiment_namespace ↦
        record { namespace = experiment_namespace; name = experiment_name } ∷ []
  ]
]

-- What a request works on at first.
abbrev pub start_of : Experiment → List Call → Env
start_of e trace = record { instance_ = e; original = e.status; trace = trace }

module _ ⦃cl : Cluster⦄ where
  unfoldable pub reconcile_deleted : M ReconcileResult
  reconcile_deleted = do
    cleanup_deleted_experiments
    trigger_waiting_experiments none
    pure dummy_result

  unfoldable pub reconcile_answer : Lookup Experiment → List Call → Outcome ReconcileResult × Env
  reconcile_answer (Lookup.found e) trace = reconcile_instance (start_of e trace)
  reconcile_answer Lookup.not_found trace = reconcile_deleted (start_of empty_experiment trace)
  reconcile_answer (Lookup.failed e) trace = pure dummy_result (start_of empty_experiment trace)

  -- The request of a name, after the calls of earlier requests.
  unfoldable pub reconcile_request : NamespacedName → List Call → Outcome ReconcileResult × Env
  reconcile_request name trace =
      reconcile_answer (cl.experiment trace name) (get_experiment name ∷ trace)
