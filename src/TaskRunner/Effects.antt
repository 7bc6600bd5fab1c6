-- ===== src/TaskRunner/Effects.antt =====
-- How a task acts. It works on the experiment that the context points to, may panic, and calls
-- other systems: the shell, the API server, HTTP servers, the clock. Each call is recorded, and an
-- answer is a function of all the calls made before it.
pub mod Leaves
use etc.Prelude.{ℕ, Bool, Option, none, some, List, ◌∷◌, String}
use etc.Prelude.Int.{ℤ}
use etc.Api.Types.{Time, Json, Experiment}
use etc.Controller.Effects.{NamespacedName, Result, Outcome, done, panic}

-- Iter8Log of controllers/util.go.
pub record Iter8Log : Type 0 where
  pub is_iter8_log : Bool
  pub experiment_name : String
  pub experiment_namespace : String
  pub source : String
  pub priority : ℕ
  pub message : String
  pub precedence : ℤ

-- corev1.Secret, whose data are texts here.
abbrev pub Secret : Type 0
Secret = List (String × String)

-- The request that the HTTP task sends: http.Request.
pub record Request : Type 0 where
  pub method : String
  pub url : String
  pub body : String
  pub headers : List (String × String)

-- The calls that leave the task runner.
pub data Call : Type 0 where
  sleep : ℤ → Call
  shell : String → Call
  fortio : List String → Call
  download : String → Call
  send : Request → Call
  post_message : String → String → String → String → Call
  get_secret : NamespacedName → Call
  fetch_experiment : NamespacedName → Call
  update_status : Experiment → Call
  print_log : Iter8Log → Call

-- What a context of the package context holds: the experiment in memory, by a pointer, a text, or a
-- value of another type.
pub data ContextValue : Type 0 where
  experiment_pointer other_value : ContextValue
  action_name : String → ContextValue

abbrev pub Context : Type 0
Context = List (String × ContextValue)

-- The experiment in memory and the calls so far, the latest first.
pub record Env : Type 0 where
  pub experiment : Experiment
  pub trace : List Call

abbrev pub T : Type 0 → Type 0
T A = Env → Outcome A × Env

module _ {A B : Type 0} where
  abbrev pub continue : Outcome A → (A → T B) → T B
  continue (done a) f s = f a s
  continue panic f s = (panic, s)

  infixl 5 ◌>>=◌ ◌>>◌
  unfoldable pub ◌>>=◌ : T A → (A → T B) → T B
  ◌>>=◌ m f s = continue (m s).0 f (m s).1

  abbrev pub ◌>>◌ : T A → T B → T B
  m >> n = m >>= λ _. n

module _ {A : Type 0} where
  unfoldable pub pure : A → T A
  pure a s = (done a, s)

  unfoldable pub panics : T A
  panics s = (panic, s)

  -- Records a call, and answers with what the system answers after the calls before.
  unfoldable pub call : Call → (List Call → A) → T A
  call c answer s = (done (answer s.trace), record s { trace = c ∷ s.trace })

unfoldable pub get_experiment : T Experiment
get_experiment s = (done s.experiment, s)

unfoldable pub set_experiment : Experiment → T Unit
set_experiment e s = (done tt, record s { experiment = e })

-- `*p`
unfoldable pub deref : {A : Type 0} → Option A → T A
unfolding pure panics
deref none = panics
deref (some a) = pure a

-- The values of tags: an experiment as a JSON object, or the fields of a secret.
pub data TagValue : Type 0 where
  object : Json → TagValue
  secret_fields : Secret → TagValue

abbrev pub Tags : Type 0
Tags = List (String × TagValue)

-- The end of the execution of a template.
pub data Template : Type 0 where
  executed : String → Template
  not_executed : Template
  not_created : String → Template

-- The other systems, and the code of other packages. `evaluated` compiles and runs the expression of
-- a task's condition on the experiment. `interpolated` executes a template on the values of tags,
-- and `script` on an experiment and a secret. `canonical` is the canonical form of a header's name,
-- `base64` an encoding, `request_error` what http.NewRequest refuses. `namespace` is the setting experiment_namespace.
pub record World : Type 0 where
  pub namespace : String
  pub now : List Call → Time
  pub client_error : List Call → Option String
  pub secret : List Call → NamespacedName → Result Secret
  pub cluster_experiment : List Call → NamespacedName → Result Experiment
  pub status_updated : List Call → Experiment → Option String
  pub shell_error : List Call → String → Option String
  pub fortio_error : List Call → List String → Option String
  pub downloaded : List Call → String → Result String
  pub response : List Call → Request → Result (ℕ × String)
  pub message_error : List Call → String → Option String
  pub evaluated : String → Experiment → Result Bool
  pub interpolated : String → Tags → Template
  pub script : String → Experiment → Option Secret → Template
  pub canonical : String → String
  pub base64 : String → String
  pub request_error : String → String → Option String
  pub experiment_map : Experiment → Result Json

-- Task of base.go: a task's condition, and its run, which gives the error.
pub record Task : Type 0 where
  pub condition : Option String
  pub run : Context → T (Option String)
