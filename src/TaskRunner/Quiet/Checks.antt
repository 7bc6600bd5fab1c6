-- ===== src/TaskRunner/Quiet/Checks.antt =====
-- The readiness task against the experiment in memory.
use etc.Prelude.{ℕ, zero, suc, Option, none, some, List, ◌++◌, String, get_elem?}
use etc.Prelude.Int.{ℤ}
use etc.Api.Types.{Experiment}
use etc.Controller.Effects.{Result, ok, err}
use etc.TaskRunner.Effects.{sleep, Context, T, World}
use etc.TaskRunner.Effects.Leaves.{
  Leaves, Leaves-panics, Leaves-none, Leaves-bind, Leaves-pure, Leaves-call, Leaves-deref,
  Leaves-if,
}
use etc.TaskRunner.Readiness
use etc.TaskRunner.Quiet.Requests.{Leaves-context}

module _ ⦃w : World⦄ where
  module _ (e : Experiment) where
    Leaves-wait : (o : Readiness.ObjRef) (r : Option String) → Leaves (Readiness.wait_if e o r)
    Leaves-wait o (some text) = Leaves-pure _
    Leaves-wait o none = Leaves-none o.wait_for (Leaves-pure _) (λ c. Leaves-call _ _)

    Leaves-check : (o : Readiness.ObjRef) → Leaves (Readiness.check e o)
    unfolding Readiness.check
    Leaves-check o = Leaves-bind _ _ (Leaves-call _ _) (Leaves-wait o)

    Leaves-check_at : (objs : List Readiness.ObjRef) (i : ℕ) → Leaves (Readiness.check_at e objs i)
    unfolding Readiness.check_at
    Leaves-check_at objs i = Leaves-none (get_elem? objs i) Leaves-panics Leaves-check

    Leaves-advance :
        (next : T (ℕ × Option String)) (index : ℕ) (r : Option String)
        → Leaves next
        → Leaves (Readiness.advance e next index r)
    Leaves-advance next index none h = h
    Leaves-advance next index (some text) h = Leaves-pure _

    Leaves-check_objects :
        (objs : List Readiness.ObjRef) (i left index : ℕ)
        → Leaves (Readiness.check_objects e objs i left index)
    unfolding Readiness.check_objects
    Leaves-check_objects objs i zero index = Leaves-pure _
    Leaves-check_objects objs i (suc left) index =
        Leaves-bind _ _ (Leaves-check_at objs i)
          (λ r. Leaves-advance _ index r (Leaves-check_objects objs i left (suc index)))

    Leaves-inner :
        (objs : List Readiness.ObjRef) (i : ℕ) (state : ℕ × Option String)
        → Leaves (Readiness.inner_loop e objs i state)
    unfolding Readiness.inner_loop
    Leaves-inner objs i (index, none) = Leaves-check_objects objs i _ index
    Leaves-inner objs i (index, some text) = Leaves-pure _

    Leaves-later :
        (interval : Option ℤ) (again : T (Option String))
        → Leaves again
        → Leaves (Readiness.try_later e interval again)
    Leaves-later interval again h =
        Leaves-bind _ _ (Leaves-deref interval) (λ seconds.
          Leaves-bind _ _ (Leaves-call {A = Unit {0}} (sleep seconds) (λ t. tt)) (λ x. h))

    Leaves-retry :
        (objs : List Readiness.ObjRef) (interval : Option ℤ) (left i : ℕ)
        (state : ℕ × Option String)
        → Leaves (Readiness.retry_loop e objs interval left i state)
    unfolding Readiness.retry_loop
    Leaves-retry objs interval zero i state = Leaves-pure _
    Leaves-retry objs interval (suc left) i state =
        Leaves-bind _ _ (Leaves-inner objs i state) (λ state₁.
          Leaves-if _ (Leaves-pure _)
            (Leaves-later interval _ (Leaves-retry objs interval left (suc i) state₁)))

    Leaves-checks : (inputs : Readiness.ReadinessInputs) → Leaves (Readiness.run_checks inputs e)
    unfolding Readiness.run_checks
    Leaves-checks inputs = Leaves-bind _ _ (Leaves-deref inputs.initial_delay_seconds) (λ delay.
        Leaves-bind _ _ (Leaves-call {A = Unit {0}} (sleep delay) (λ t. tt)) (λ x.
          Leaves-bind _ _ (Leaves-deref inputs.num_retries) (λ retries.
            Leaves-retry (inputs.obj_refs ++ Readiness.experiment_obj_refs e.spec.version_info)
              inputs.interval_seconds (Readiness.rounds retries) 0 (0, none))))

  Leaves-run_found :
      (inputs : Readiness.ReadinessInputs) (r : Result Experiment)
      → Leaves (Readiness.run_found inputs r)
  Leaves-run_found inputs (err text) = Leaves-pure _
  Leaves-run_found inputs (ok e) = Leaves-checks e inputs

  pub Leaves-readiness :
      (inputs : Readiness.ReadinessInputs) (ctx : Context) → Leaves (Readiness.run inputs ctx)
  unfolding Readiness.run
  Leaves-readiness inputs ctx = Leaves-bind _ _ (Leaves-context ctx) (Leaves-run_found inputs)
