-- ===== src/Controller/Effects.antt =====
-- How the controller acts on the cluster. A handler works on the experiment that it fetched, may
-- panic (a nil pointer, an index out of range, a division by 0), and calls other systems: the API
-- server, the analytics service, the event recorder. Each call is recorded, and an answer is a
-- function of all the calls made before it, so the cluster may change between any two calls.
pub mod Equality
pub mod Gives
pub mod RunsTo
use etc.Prelude.{
  ℕ, ◌≡◌, refl, Bool, true, false, ◌||◌, Option, none, some, List, [], ◌∷◌, String, ltb,
}
use etc.Prelude.Int.{ℤ}
use etc.Api.Constants.{ConditionStatus}
use etc.Api.Types.{
  Time, Json, ObjectReference, Analysis, Metric, ExperimentSpec, ExperimentStatus, Experiment,
}

-- types.NamespacedName
pub record NamespacedName : Type 0 where
  pub namespace : String
  pub name : String

-- batchv1.Job, with the fields that the program reads or writes.
pub record EnvVar : Type 0 where
  pub name : String
  pub value : String

pub data JobConditionType : Type 0 where
  job_complete job_failed job_suspended : JobConditionType

pub record JobCondition : Type 0 where
  pub kind : JobConditionType
  pub status : ConditionStatus

pub record Job : Type 0 where
  pub name : String
  pub namespace : String
  pub labels : List (String × String)
  pub template_labels : Option (List (String × String))
  pub service_account_name : String
  pub containers : List (List EnvVar)
  pub conditions : List JobCondition

-- patchIntValue of weights.go: one operation of a JSON patch.
pub record PatchIntValue : Type 0 where
  pub op : String
  pub path : String
  pub value : ℤ

-- Iter8Config of config.go.
pub record Iter8Config : Type 0 where
  pub endpoint : String
  pub namespace : String
  pub handlers_dir : String

-- The calls that leave the controller.
pub data Call : Type 0 where
  update_status : Experiment → Call
  list_experiments : Call
  get_job : NamespacedName → Call
  create_job : Job → Call
  get_metric : NamespacedName → Call
  find_resource : String → String → Call
  get_object : ObjectReference → Option String → Call
  patch_object : ObjectReference → Option String → List PatchIntValue → Call
  read_file : String → Call
  post : String → Experiment → Call
  event : String → String → Call
  release : Experiment → Call
  get_experiment : NamespacedName → Call
  list_jobs : String → Call
  delete_job : Job → Call

-- The answer to a lookup: `IsNotFound` errors are told apart from others.
pub data Lookup (A : Type 0) : Type 0 where
  found : A → Lookup A
  not_found : Lookup A
  failed : String → Lookup A

pub data Creation : Type 0 where
  created : Creation
  already_exists : Creation
  failed : String → Creation

-- A call that may fail with an error's text.
pub data Result (A : Type 0) : Type 0 where
  ok : A → Result A
  err : String → Result A

-- The other systems, and the code of other packages. `before` is metav1.Time's Before, on pointers.
-- `find_resource` tells whether a kind is namespaced, `json_path` reads a JSONPath template on an
-- object, `decode_job` and `decode_analysis` are the YAML and JSON decoders of the two types.
-- `stack_depth` bounds the recursion of ReadMetric: a deeper one exhausts the stack, a panic.
pub record Cluster : Type 0 where
  pub config : Iter8Config
  pub now : List Call → Time
  pub before : Option Time → Option Time → Bool
  pub status_updated : List Call → Experiment → Option String
  pub experiments : List Call → Result (List Experiment)
  pub experiment : List Call → NamespacedName → Lookup Experiment
  pub jobs : List Call → String → Result (List Job)
  pub job : List Call → NamespacedName → Lookup Job
  pub job_created : List Call → Job → Creation
  pub metric : List Call → NamespacedName → Lookup Metric
  pub resource : List Call → String → String → Result Bool
  pub object : List Call → ObjectReference → Option String → Result Json
  pub json_path : String → Json → Result String
  pub patched : List Call → ObjectReference → Option String → List PatchIntValue → Option String
  pub file : List Call → String → Result String
  pub decode_job : String → Job → Option String × Job
  pub posted : List Call → String → Experiment → String × ℤ
  pub decode_analysis : String → Result Analysis
  pub stack_depth : ℕ

-- What the documentation of metav1.Time's Before says: a nil time is before nothing and after
-- nothing, and two times compare as numbers.
pub record HasTimeOrder (cl : Cluster) : Type 0 where
  pub none_before : (t : Option Time) → cl.before none t ≡ false
  pub before_none : (t : Option Time) → cl.before t none ≡ false
  pub before_some : (t u : Time) → cl.before (some t) (some u) ≡ ltb t u

-- What a handler works on: the experiment in memory, the status that was read (OriginalStatus of
-- util.go), and the calls so far, the latest first.
pub record Env : Type 0 where
  pub instance_ : Experiment
  pub original : ExperimentStatus
  pub trace : List Call

pub data Outcome (A : Type 0) : Type 0 where
  done : A → Outcome A
  panic : Outcome A

abbrev pub M : Type 0 → Type 0
M A = Env → Outcome A × Env

module _ {A B : Type 0} where
  abbrev pub continue : Outcome A → (A → M B) → M B
  continue (done a) f s = f a s
  continue panic f s = (panic, s)

  infixl 5 ◌>>=◌ ◌>>◌
  unfoldable pub ◌>>=◌ : M A → (A → M B) → M B
  ◌>>=◌ m f s = continue (m s).0 f (m s).1

  abbrev pub ◌>>◌ : M A → M B → M B
  m >> n = m >>= λ _. n

module _ {A : Type 0} where
  unfoldable pub pure : A → M A
  pure a s = (done a, s)

  unfoldable pub panics : M A
  panics s = (panic, s)

  unfoldable pub gets : (Env → A) → M A
  gets f s = (done (f s), s)

  -- A dereferenced pointer.
  unfoldable pub deref : Option A → M A
  deref none s = (panic, s)
  deref (some a) s = (done a, s)

  -- A call, answered by what the cluster says after the calls so far.
  unfoldable pub ask : Call → (List Call → A) → M A
  ask c answer s = (done (answer s.trace), record s { trace = c ∷ s.trace })

  -- A change of the status in memory that also returns a value.
  unfoldable pub on_status : (ExperimentStatus → ExperimentStatus × A) → M A
  on_status f s = (
    done (f s.instance_.status).1,
    record s { instance_ = record s.instance_ { status = (f s.instance_.status).0 } },
  )

unfoldable pub set_status : (ExperimentStatus → ExperimentStatus) → M (Unit {0})
set_status f s =
    (done tt, record s { instance_ = record s.instance_ { status = f s.instance_.status } })

unfoldable pub set_spec : (ExperimentSpec → ExperimentSpec) → M (Unit {0})
set_spec f s = (done tt, record s { instance_ = record s.instance_ { spec = f s.instance_.spec } })

abbrev pub get_instance : M Experiment
get_instance = gets (λ s. s.instance_)
