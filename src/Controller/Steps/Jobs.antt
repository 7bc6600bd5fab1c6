-- ===== src/Controller/Steps/Jobs.antt =====
-- Waiting for handlers and launching them, as steps of a request.
use etc.Prelude.{ℕ, zero, suc, ◌+◌, Bool, Option, none, some, List, [], ◌∷◌, String}
use etc.Prelude.Int.{ℤ}
use etc.Api.Types.{Experiment}
use etc.Controller.Effects.{Cluster, M, Job, EnvVar}
use etc.Controller.Stages.{ReconcileResult}
use etc.Controller.Handler.{
  HandlerType, start, finish, rollback, failure, loop, HandlerStatusType, no_handler, not_launched,
  running, failed, complete, is_handler_launched, get_handler_status, read_job_spec, handler_job,
  handler_job_of, launch_handler,
}
use etc.Controller.Launch.{
  Flow, HandlerLaunchModifier, stopping, loop_completed, invalid_weights, handler_completed,
  handler_has_failed, react, check_handler_status, unless_stopped, check_loops, check_type,
  check_handlers_status, or_true, or_nothing, launched, launch, launch_handler_wrapper,
}
use etc.Controller.Steps.Rules.{
  Follows, Follows-option, Follows-option', Follows-result', Follows-gets, Follows-if, Follows-pure,
  Follows-panics, Follows-ask, ◌▷◌,
}
use etc.Controller.Steps.Parts.{Follows-failed, Follows-progress, Follows-end, Follows-request}
use etc.Controller.Steps.Traffic.{Follows-update}

-- The actions of a modifier, where it has them, do steps.
abbrev pub IfGiven : {A : Type 0} → Option (M A) → Type 0
IfGiven none = Unit {0}
IfGiven (some m) = Follows m

pub record Modifies (modifier : HandlerLaunchModifier) : Type 0 where
  pub check : IfGiven modifier.prerequisite_check
  pub launched_ : IfGiven modifier.on_successful_launch

module _ ⦃cl : Cluster⦄ where
  pub Follows-status :
      (handler : Option String) (n : Option ℤ) → Follows (get_handler_status handler n)
  unfolding get_handler_status is_handler_launched
  Follows-status none n = Follows-pure _
  Follows-status (some h) n = (Follows-gets _ ▷ λ i. Follows-ask _ _) ▷ λ j. Follows-pure _

  Follows-read : (file : String) → Follows (read_job_spec file)
  unfolding read_job_spec
  Follows-read file = Follows-ask _ _ ▷ λ t. Follows-pure _

  Follows-job :
      (i : Experiment) (handler : String) (n : Option ℤ) (job : Job) (cs : List (List EnvVar))
      → Follows (handler_job_of i handler n job cs)
  unfolding handler_job_of
  Follows-job i handler n job [] = Follows-panics
  Follows-job i handler n job (env ∷ cs) = Follows-pure _

  Follows-stopping : {m : M ReconcileResult} → Follows m → Follows (stopping m)
  unfolding stopping
  Follows-stopping fm = fm ▷ λ r. Follows-pure _

  Follows-invalid : (e : String) → Follows (invalid_weights e)
  unfolding invalid_weights
  Follows-invalid e = Follows-failed _ _

  Follows-loop : Follows loop_completed
  unfolding loop_completed
  Follows-loop = Follows-update ▷ λ e.
      Follows-option e (Follows-pure _) (λ e. Follows-invalid _ ▷ λ _. Follows-pure _)

  Follows-handler : (t : HandlerType) → Follows (handler_completed t)
  unfolding handler_completed
  Follows-handler start = Follows-pure _
  Follows-handler loop = Follows-loop
  Follows-handler finish = Follows-stopping (Follows-end _)
  Follows-handler rollback = Follows-stopping (Follows-end _)
  Follows-handler failure = Follows-stopping (Follows-end _)

  Follows-has_failed : (t : HandlerType) → Follows (handler_has_failed t)
  unfolding handler_has_failed
  Follows-has_failed t = Follows-failed _ _ ▷ λ _. Follows-stopping (Follows-end _)

  Follows-react : (t : HandlerType) (s : HandlerStatusType) → Follows (react t s)
  unfolding react
  Follows-react t running = Follows-stopping (Follows-request _)
  Follows-react t complete = Follows-handler t
  Follows-react t failed = Follows-has_failed t
  Follows-react t not_launched = Follows-pure _
  Follows-react t no_handler = Follows-pure _

  Follows-check_one :
      (t : HandlerType) (handler : String) (n : Option ℤ)
      → Follows (check_handler_status t handler n)
  unfolding check_handler_status
  Follows-check_one t handler n = Follows-status _ _ ▷ λ s. Follows-react t s

  Follows-unless : {m n : M Flow} → Follows m → Follows n → Follows (unless_stopped m n)
  unfolding unless_stopped
  Follows-unless fm fn = fm ▷ λ f. Follows-if _ (Follows-pure f) fn

  Follows-loops : (n at : ℕ) (handler : String) → Follows (check_loops n at handler)
  unfolding check_loops
  Follows-loops zero at handler = Follows-pure _
  Follows-loops (suc n) at handler =
      Follows-unless (Follows-check_one _ _ _) (Follows-loops n (at + 1) handler)

  Follows-type : (t : HandlerType) (handler : Option String) → Follows (check_type t handler)
  unfolding check_type
  Follows-type t none = Follows-pure _
  Follows-type loop (some h) = Follows-gets _ ▷ λ i. Follows-loops _ _ _
  Follows-type _ (some h) = Follows-check_one _ _ _

  pub Follows-check : (ts : List HandlerType) → Follows (check_handlers_status ts)
  unfolding check_handlers_status
  Follows-check [] = Follows-pure _
  Follows-check (t ∷ ts) =
      Follows-unless (Follows-gets _ ▷ λ i. Follows-type _ _) (Follows-check ts)

  Follows-launch_handler : (handler : String) (n : Option ℤ) → Follows (launch_handler handler n)
  unfolding launch_handler handler_job
  Follows-launch_handler handler n = Follows-gets _ ▷ λ i. Follows-read _ ▷ λ r.
      Follows-result' r (λ e. Follows-pure _)
        (λ t. Follows-job _ _ _ t _ ▷ λ j. Follows-ask _ _ ▷ λ c. Follows-pure _)

  Follows-or_true : (o : Option (M Bool)) → IfGiven o → Follows (or_true o)
  unfolding or_true
  Follows-or_true none h = Follows-pure _
  Follows-or_true (some m) h = h

  Follows-or_nothing : (o : Option (M (Unit {0}))) → IfGiven o → Follows (or_nothing o)
  unfolding or_nothing
  Follows-or_nothing none h = Follows-pure _
  Follows-or_nothing (some m) h = h

  module _ (modifier : HandlerLaunchModifier) (mod_ : Modifies modifier) where
    Follows-launch : (t : HandlerType) (handler : String) → Follows (launch t handler modifier)
    unfolding launch launched
    Follows-launch t handler = Follows-launch_handler _ _ ▷ λ e.
        Follows-option' e (λ e. Follows-stopping (Follows-end _))
          (Follows-or_nothing _ mod_.launched_ ▷ λ _.
            Follows-progress _ _ ▷ λ _. Follows-stopping (Follows-request _))

    pub Follows-wrapper : (t : HandlerType) → Follows (launch_handler_wrapper t modifier)
    unfolding launch_handler_wrapper
    Follows-wrapper t = Follows-gets _ ▷ λ i. Follows-option _ (Follows-pure _) (λ h.
        Follows-or_true _ mod_.check ▷ λ allowed.
        Follows-if _ (Follows-launch t h) (Follows-pure _))
