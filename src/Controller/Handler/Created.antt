-- ===== src/Controller/Handler/Created.antt =====
-- The job that a launch creates: controllers/handler.go, LaunchHandler.
use etc.Prelude.{◌≡◌, refl, Option, none, some, List, [], ◌∷◌, String, inl, inr, ◌⊎◌}
use etc.Prelude.Int.{ℤ}
use etc.Prelude.Text.{◌+++◌, print_int}
use etc.Api.Types.{Experiment}
use etc.Controller.Effects.{
  EnvVar, Job, Result, Call, create_job, read_file, Cluster, Env, ◌>>=◌, pure, panics, gets, ask,
}
use etc.Controller.Handler.{
  empty_job, job_name, handler_env, read_job_spec, handler_job_of, handler_job, creation_error,
  launch_handler,
}
use etc.Controller.Handler.Environment.{env_value, env_value-handler}

abbrev template_file : Cluster → String
template_file cl = cl.config.handlers_dir +++ "/handler.yaml"

-- namespace-experiment-handler, and the number of the loop after it where there is one.
abbrev pub name_of : Experiment → String → Option ℤ → String
name_of i handler none = i.namespace +++ ("-" +++ (i.name +++ ("-" +++ handler)))
name_of i handler (some n) =
    (i.namespace +++ ("-" +++ (i.name +++ ("-" +++ handler)))) +++ ("-" +++ print_int n)

job_name_lem :
    (i : Experiment) (handler : String) (n : Option ℤ) → job_name i handler n ≡ name_of i handler n
unfolding job_name
job_name_lem i handler none = refl
job_name_lem i handler (some n) = refl

-- The job is named for the experiment, the handler and its instance, is in the namespace of the
-- handlers, and its first container reads what the task runner needs.
pub record IsHandlerJob (cl : Cluster) (i : Experiment) (handler : String) (n : Option ℤ)
    (job : Job) : Type 0 where
  pub name : job.name ≡ name_of i handler n
  pub namespace : job.namespace ≡ cl.config.namespace
  pub account : job.service_account_name ≡ "iter8-handlers"
  pub environment :
      (env : List EnvVar) × (rest : List (List EnvVar)) × (job.containers ≡ env ∷ rest)
      × (env_value "ACTION" env ≡ some handler)
      × (env_value "EXPERIMENT_NAME" env ≡ some i.name)
      × (env_value "EXPERIMENT_NAMESPACE" env ≡ some i.namespace)

-- What a launch does: it reads the template, and then stops, or creates the job.
abbrev pub Launches : Cluster → Experiment → String → Option ℤ → List Call → List Call → Type 0
Launches cl i handler n before after_ =
    (after_ ≡ read_file (template_file cl) ∷ before)
    ⊎ ((job : Job) × (after_ ≡ create_job job ∷ (read_file (template_file cl) ∷ before))
        × IsHandlerJob cl i handler n job)

module _ ⦃cl : Cluster⦄ (handler : String) (n : Option ℤ) (s : Env) where
  abbrev reads : List Call
  reads = read_file (template_file cl) ∷ s.trace

  created :
      (template : Job) (containers : List (List EnvVar))
      → Launches cl s.instance_ handler n s.trace
          (((handler_job_of s.instance_ handler n template containers) >>= λ job.
              ask (create_job job) (λ t. cl.job_created t job) >>= λ c. pure (creation_error c))
            (record s { trace = reads })).1.trace
  unfolding handler_job_of ◌>>=◌ pure panics ask
  created template [] = inl refl
  created template (env ∷ rest) = inr (
    _,
    refl,
    record {
      name = job_name_lem s.instance_ handler n;
      namespace = refl;
      account = refl;
      environment = (
        handler_env s.instance_ handler env,
        rest,
        refl,
        env_value-handler s.instance_ handler "ACTION" env,
        env_value-handler s.instance_ handler "EXPERIMENT_NAME" env,
        env_value-handler s.instance_ handler "EXPERIMENT_NAMESPACE" env,
      );
    },
  )

  answered :
      (text : Result String)
      → cl.file s.trace (template_file cl) ≡ text
      → Launches cl s.instance_ handler n s.trace (launch_handler handler n s).1.trace
  unfolding launch_handler read_job_spec handler_job ◌>>=◌ gets ask pure
  answered (Result.err e) h = rw h (inl refl)
  answered (Result.ok yaml) h =
      let template = (cl.decode_job yaml empty_job).1 in rw h (created template template.containers)

  -- A launch reads the template of the jobs of handlers and then makes no other call, or creates
  -- one job: its name is made of the namespace and the name of the experiment, the handler and the
  -- number of the loop, if there is one, with dashes between them; it has the namespace and the
  -- service account of the handlers; and its first container reads the handler and the name and
  -- namespace of the experiment under ACTION, EXPERIMENT_NAME and EXPERIMENT_NAMESPACE.
  pub launch_handler-IsHandlerJob :
      Launches cl s.instance_ handler n s.trace (launch_handler handler n s).1.trace
  launch_handler-IsHandlerJob = answered (cl.file s.trace (template_file cl)) refl
