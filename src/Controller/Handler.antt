-- ===== src/Controller/Handler.antt =====
-- controllers/handler.go: the jobs that run the actions of an experiment.
pub mod Environment
pub mod Created
use etc.Prelude.{
  ℕ, zero, suc, ◌≡◌, refl, Bool, true, false, ◌&&◌, not, Option, none, some, List, [], ◌∷◌, ◌++◌,
  String, str_eq, lookup, insert, if◌then◌else◌,
}
use etc.Prelude.Int.{ℤ}
use etc.Prelude.Text.{◌+++◌, print_int}
use etc.Api.Constants.{ConditionStatus, condition_true, status_eq}
use etc.Api.Types.{Experiment}
use etc.Api.Defaults.Getters.{
  get_start_handler, get_finish_handler, get_rollback_handler, get_failure_handler,
  get_loop_handler,
}
use etc.Controller.Effects.{
  NamespacedName, EnvVar, JobConditionType, job_complete, job_failed, job_suspended, JobCondition,
  Job, Lookup, Creation, Result, Call, get_job, create_job, read_file, Cluster, Env, M, ◌>>=◌, ◌>>◌,
  pure, gets, panics, ask, get_instance,
}

pub data HandlerType : Type 0 where
  start finish rollback failure loop : HandlerType

abbrev pub handler_type_text : HandlerType → String
handler_type_text start = "Start"
handler_type_text finish = "Finish"
handler_type_text rollback = "Rollback"
handler_type_text failure = "Failure"
handler_type_text loop = "Loop"

abbrev pub all_handler_types : List HandlerType
all_handler_types = start ∷ finish ∷ rollback ∷ failure ∷ loop ∷ []

abbrev handler_name : HandlerType → Experiment → String
handler_name start i = get_start_handler i.spec
handler_name finish i = get_finish_handler i.spec
handler_name rollback i = get_rollback_handler i.spec
handler_name failure i = get_failure_handler i.spec
handler_name loop i = get_loop_handler i.spec

-- The handler of a type, if the experiment has actions for it.
unfoldable pub get_handler : Experiment → HandlerType → Option String
unfolding get_start_handler get_finish_handler get_rollback_handler get_failure_handler
    get_loop_handler
get_handler i t = elim (lookup (handler_name t i) i.spec.strategy.actions) [
  | none ↦ none
  | some a ↦ some (handler_name t i)
]

unfoldable pub job_name : Experiment → String → Option ℤ → String
job_name i handler handler_instance =
    let name : String = i.namespace +++ ("-" +++ (i.name +++ ("-" +++ handler))) in
    elim handler_instance [ none ↦ name | some n ↦ name +++ ("-" +++ print_int n) ]

-- The pointer receiver of the loop writes to the list in place.
unfoldable pub set_env_variable : List EnvVar → String → String → List EnvVar
set_env_variable [] name value = record { name = name; value = value } ∷ []
set_env_variable (e ∷ env) name value =
    let rest = set_env_variable env name value in
    if str_eq e.name name then record e { value = value } ∷ env else e ∷ rest

abbrev job_condition_eq : JobConditionType → JobConditionType → Bool
job_condition_eq job_complete job_complete = true
job_condition_eq job_failed job_failed = true
job_condition_eq job_suspended job_suspended = true
job_condition_eq _ _ = false

find_job_condition : JobConditionType → List JobCondition → Option JobCondition
find_job_condition kind [] = none
find_job_condition kind (c ∷ cs) =
    let rest = find_job_condition kind cs in if job_condition_eq c.kind kind then some c else rest

unfoldable pub get_job_condition : Job → JobConditionType → Option JobCondition
unfolding find_job_condition
get_job_condition job kind = find_job_condition kind job.conditions

abbrev condition_holds : Option JobCondition → Bool
condition_holds none = false
condition_holds (some c) = status_eq c.status condition_true

unfoldable pub handler_job_completed : Job → Bool
unfolding get_job_condition
handler_job_completed job = condition_holds (get_job_condition job job_complete)

unfoldable pub handler_job_failed : Job → Bool
unfolding get_job_condition
handler_job_failed job = condition_holds (get_job_condition job job_failed)

pub data HandlerStatusType : Type 0 where
  no_handler not_launched running failed complete : HandlerStatusType

abbrev pub is_not_launched : HandlerStatusType → Bool
is_not_launched not_launched = true
is_not_launched _ = false

-- The answer of the job manager, read as a status: an error other than NotFound is a failure.
unfoldable pub status_of_job : Lookup Job → HandlerStatusType
unfolding handler_job_completed handler_job_failed
status_of_job (Lookup.failed e) = HandlerStatusType.failed
status_of_job Lookup.not_found = not_launched
status_of_job (Lookup.found job) =
    if handler_job_completed job
    then complete
    else if handler_job_failed job
    then HandlerStatusType.failed
    else running

-- batchv1.Job{}
abbrev pub empty_job : Job
empty_job = record {
  name = "";
  namespace = "";
  labels = [];
  template_labels = none;
  service_account_name = "";
  containers = [];
  conditions = [];
}

abbrev labels_of : Option (List (String × String)) → List (String × String)
labels_of none = []
labels_of (some l) = l

-- What the launch sets in the environment of the first container.
unfoldable pub handler_env : Experiment → String → List EnvVar → List EnvVar
unfolding set_env_variable
handler_env i handler env =
    set_env_variable
      (set_env_variable (set_env_variable env "EXPERIMENT_NAME" i.name) "EXPERIMENT_NAMESPACE"
        i.namespace)
      "ACTION" handler

module _ ⦃cl : Cluster⦄ where
  -- The job, or the error of the job manager.
  unfoldable pub is_handler_launched : String → Option ℤ → M (Lookup Job)
  is_handler_launched handler handler_instance = do
    i ← get_instance
    let ref : NamespacedName = record {
      namespace = cl.config.namespace;
      name = job_name i handler handler_instance;
    }
    ask (get_job ref) (λ t. cl.job t ref)

  unfoldable pub get_handler_status : Option String → Option ℤ → M HandlerStatusType
  get_handler_status none handler_instance = pure no_handler
  get_handler_status (some handler) handler_instance = do
    job ← is_handler_launched handler handler_instance
    pure (status_of_job job)

  -- The error of reading the file, or the job: an error of the decoder is dropped, as `err == nil`
  -- is tested where `err != nil` is meant, and the job is what the decoder had filled in.
  unfoldable pub read_job_spec : String → M (Result Job)
  read_job_spec template_file = do
    text ← ask (read_file template_file) (λ t. cl.file t template_file)
    pure (elim text [
      | Result.err e ↦ Result.err e
      | Result.ok yaml ↦ Result.ok (cl.decode_job yaml empty_job).1
    ])

  -- The job as it is created, with this first container.
  abbrev filled_job : Experiment → String → Option ℤ → Job → List EnvVar → List (List EnvVar) → Job
  filled_job i handler handler_instance job env containers = record job {
    name = job_name i handler handler_instance;
    namespace = cl.config.namespace;
    template_labels = some (
        insert "iter8/experimentNamespace" i.namespace
          (insert "iter8/experimentName" i.name (labels_of job.template_labels)));
    service_account_name = "iter8-handlers";
    containers = handler_env i handler env ∷ containers;
  }

  -- A job with no container makes `Containers[0]` panic.
  unfoldable pub handler_job_of : Experiment → String → Option ℤ → Job → List (List EnvVar) → M Job
  handler_job_of i handler handler_instance job [] = panics
  handler_job_of i handler handler_instance job (env ∷ containers) =
      pure (filled_job i handler handler_instance job env containers)

  unfoldable pub handler_job : Experiment → String → Option ℤ → Job → M Job
  handler_job i handler handler_instance job =
      handler_job_of i handler handler_instance job job.containers

  -- An error of the creation, but not that the job exists already.
  abbrev creation_error : Creation → Option String
  creation_error Creation.created = none
  creation_error Creation.already_exists = none
  creation_error (Creation.failed e) = some e

  unfoldable pub launch_handler : String → Option ℤ → M (Option String)
  launch_handler handler handler_instance = do
    i ← get_instance
    spec ← read_job_spec (cl.config.handlers_dir +++ "/handler.yaml")
    elim spec [
      | Result.err e ↦ pure (some e)
      | Result.ok template ↦ do
        job ← handler_job i handler handler_instance template
        c ← ask (create_job job) (λ t. cl.job_created t job)
        pure (creation_error c)
    ]
