-- ===== src/Controller/Launch.antt =====
-- controllers/experiment_controller.go: waiting for handlers, and launching them.
use etc.Prelude.{
  ℕ, zero, suc, ◌+◌, Bool, true, false, Option, none, some, List, [], ◌∷◌, String, if◌then◌else◌,
}
use etc.Prelude.Int.{ℤ, pos, negsuc}
use etc.Prelude.Text.{◌+++◌}
use etc.Api.Constants.Reason
use etc.Api.Defaults.Getters.{get_max_loops}
use etc.Controller.Effects.{Cluster, M, ◌>>=◌, ◌>>◌, pure, get_instance}
use etc.Controller.Recorder.{record_experiment_failed, record_experiment_progress}
use etc.Controller.Stages.{ReconcileResult, dummy_result, end_request, end_experiment}
use etc.Controller.Weights.{update_observed_weights}
use etc.Controller.Handler.{
  HandlerType, start, finish, rollback, failure, loop, handler_type_text, get_handler,
  HandlerStatusType, no_handler, not_launched, running, failed, complete, get_handler_status,
  launch_handler,
}

-- Does the caller stop, and with what result?
abbrev pub Flow : Type 0
Flow = Bool × ReconcileResult

abbrev pub go_on : Flow
go_on = (false, dummy_result)

-- handlerLaunchModifier
pub record HandlerLaunchModifier : Type 0 where
  pub prerequisite_check : Option (M Bool)
  pub loop_ : Option ℤ
  pub on_successful_launch : Option (M (Unit {0}))

abbrev pub no_modifier : HandlerLaunchModifier
no_modifier = record { prerequisite_check = none; loop_ = none; on_successful_launch = none }

module _ ⦃cl : Cluster⦄ where
  -- Stop with the result of `m`.
  unfoldable pub stopping : M ReconcileResult → M Flow
  stopping m = do r ← m; pure (true, r)

  unfoldable pub invalid_weights : String → M (Unit {0})
  invalid_weights e =
      record_experiment_failed Reason.invalid_experiment
        ("Specification of version weightObjectRef invalid: " +++ e)

  -- After a loop handler the weights are read again. Where that fails, the failure is marked in
  -- memory and the request ends with the error; the status is not written.
  unfoldable pub loop_completed : M Flow
  loop_completed = do
    e ← update_observed_weights
    elim e [
      | none ↦ pure go_on
      | some e ↦ invalid_weights e >> pure (true, record { requeue_after = none; error = some e })
    ]

  unfoldable pub handler_completed : HandlerType → M Flow
  handler_completed finish = stopping (end_experiment "Experiment Completed")
  handler_completed failure = stopping (end_experiment "Experiment Completed")
  handler_completed rollback = stopping (end_experiment "Experiment Completed")
  handler_completed loop = loop_completed
  handler_completed start = pure go_on

  unfoldable pub handler_has_failed : HandlerType → M Flow
  handler_has_failed t =
      let msg = handler_type_text t +++ " actions failed" in
      record_experiment_failed Reason.handler_failed msg >> stopping (end_experiment msg)

  unfoldable pub react : HandlerType → HandlerStatusType → M Flow
  react t running = stopping (end_request none)
  react t complete = handler_completed t
  react t failed = handler_has_failed t
  react t not_launched = pure go_on
  react t no_handler = pure go_on

  unfoldable pub check_handler_status : HandlerType → String → Option ℤ → M Flow
  check_handler_status t handler handler_instance = do
    s ← get_handler_status (some handler) handler_instance
    react t s

  -- The next check is made only where the first says to go on.
  unfoldable pub unless_stopped : M Flow → M Flow → M Flow
  unless_stopped m next = m >>= λ f. if f.0 then pure f else next

  -- `for loop := 1; loop <= n; loop++`, with the rounds left and the loop's number.
  unfoldable pub check_loops : ℕ → ℕ → String → M Flow
  check_loops zero at handler = pure go_on
  check_loops (suc n) at handler =
      unless_stopped (check_handler_status loop handler (some (pos at)))
        (check_loops n (at + 1) handler)

  abbrev rounds : ℤ → ℕ
  rounds (pos n) = n
  rounds (negsuc n) = 0

  unfoldable pub check_type : HandlerType → Option String → M Flow
  check_type t none = pure go_on
  check_type loop (some handler) = do
    i ← get_instance
    check_loops (rounds (get_max_loops i.spec)) 1 handler
  check_type t (some handler) = check_handler_status t handler none

  unfoldable pub check_handlers_status : List HandlerType → M Flow
  check_handlers_status [] = pure go_on
  check_handlers_status (t ∷ ts) =
      unless_stopped (do i ← get_instance; check_type t (get_handler i t))
        (check_handlers_status ts)

  unfoldable pub or_true : Option (M Bool) → M Bool
  or_true none = pure true
  or_true (some check) = check

  unfoldable pub or_nothing : Option (M (Unit {0})) → M (Unit {0})
  or_nothing none = pure tt
  or_nothing (some m) = m

  unfoldable pub launched : HandlerType → String → HandlerLaunchModifier → M Flow
  launched t handler modifier = do
    or_nothing modifier.on_successful_launch
    record_experiment_progress Reason.handler_launched
        (handler_type_text t +++ (" handler '" +++ (handler +++ "' launched")))
    stopping (end_request none)

  -- A failed launch ends the experiment.
  unfoldable pub launch : HandlerType → String → HandlerLaunchModifier → M Flow
  launch t handler modifier = do
    e ← launch_handler handler modifier.loop_
    elim e [
      | some e ↦ stopping (end_experiment "failure executing failure handler")
      | none ↦ launched t handler modifier
    ]

  unfoldable pub launch_handler_wrapper : HandlerType → HandlerLaunchModifier → M Flow
  launch_handler_wrapper t modifier = do
    i ← get_instance
    elim (get_handler i t) [
      | none ↦ pure go_on
      | some handler ↦ do
        allowed ← or_true modifier.prerequisite_check
        if allowed then launch t handler modifier else pure go_on
    ]
