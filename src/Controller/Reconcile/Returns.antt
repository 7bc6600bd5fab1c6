-- ===== src/Controller/Reconcile/Returns.antt =====
-- The first request for an experiment: controllers/experiment_controller.go, Reconcile.
use etc.Prelude.{◌≡◌, refl, sym, none, some, String, arith}
use mathlib.Core.Path.{subst}
use etc.Prelude.Int.{pos}
use etc.Api.Constants.{waiting, ExperimentConditionType, ConditionStatus}
use etc.Api.Types.{Time, Experiment, ExperimentStatus}
use etc.Api.Status.{mark_condition, get_condition, add_condition, initialize_status}
use etc.Controller.Effects.{Cluster, Env, ◌>>=◌, gets}
use etc.Controller.Effects.RunsTo.{
  Returns, RunsTo, RunsTo-bind, RunsTo-pure, RunsTo-gets, RunsTo-after, Frame-gets, Frame-ask,
}
use etc.Controller.Recorder.{record_experiment_progress}
use etc.Controller.Stages.{end_request}
use etc.Controller.Stages.Ends.{RunsTo-set, record_returns, Frame-write}
use etc.Controller.Reconcile.{
  initialized, announce_new, reconcile_new, by_init_time, reconcile_instance,
}

-- The status of an experiment that was seen for the first time at `now`.
pub record IsInitialized (now : Time) (s : ExperimentStatus) : Type 0 where
  pub init_time : s.init_time ≡ some now
  pub stage : s.stage ≡ some waiting
  pub completed_iterations : s.completed_iterations ≡ some (pos 0)

mark-IsInitialized :
    (now at : Time) (kind : ExperimentConditionType) (status : ConditionStatus)
    (reason message : String) (s : ExperimentStatus)
    → IsInitialized now s
    → IsInitialized now (mark_condition at kind status reason message s).0
unfolding mark_condition get_condition add_condition
mark-IsInitialized now at kind status reason message s h = record {
  init_time = ground (arith, h.init_time);
  stage = ground (arith, h.stage);
  completed_iterations = ground (arith, h.completed_iterations);
}

first-IsInitialized :
    (now : Time) (i : Experiment) (s : ExperimentStatus) → IsInitialized now (initialized now i s)
unfolding initialize_status
first-IsInitialized now i s = record { init_time = refl; stage = refl; completed_iterations = refl }

module _ ⦃cl : Cluster⦄ where
  request_keeps :
      (P : ExperimentStatus → Type 0) (s : Env)
      → P s.instance_.status
      → RunsTo (λ r i. (r.requeue_after ≡ none) × P i.status) (end_request none) s
  unfolding end_request
  request_keeps P s h =
      RunsTo-after (λ i. P i.status) _ _ s Frame-write h (λ e t k. RunsTo-pure _ t (refl, k))

  announce_returns :
      (now : Time) (s : Env)
      → IsInitialized now s.instance_.status
      → RunsTo (λ r i. (r.requeue_after ≡ none) × IsInitialized now i.status) announce_new s
  unfolding announce_new record_experiment_progress
  announce_returns now s h =
      RunsTo-after (λ i. IsInitialized now i.status) _ _ s (Frame-gets _) h
        (λ i t k.
          RunsTo-after (λ i. IsInitialized now i.status) _ _ t (Frame-ask _ _) k
            (λ e u l.
              RunsTo-bind _ _ u
                (record_returns (IsInitialized now) _ _ _ _ u
                  (mark-IsInitialized now _ _ _ _ _ _ l))
                (λ a v m. request_keeps (IsInitialized now) v m)))

  first_returns :
      (s : Env)
      → RunsTo
          (λ r i. (r.requeue_after ≡ none) × IsInitialized (cl.now s.trace) i.status)
          reconcile_new
          s
  unfolding reconcile_new
  first_returns s =
      RunsTo-bind {Q = λ now i. now ≡ cl.now s.trace} _ _ s (RunsTo-gets _ s refl) (λ now t e.
        RunsTo-after (λ i. Unit {0}) _ _ t (Frame-gets _) tt
          (λ i u x.
            RunsTo-bind {Q = λ a i. IsInitialized (cl.now s.trace) i.status} _ _ u
              (RunsTo-set _ u (
                subst (λ n. IsInitialized n (initialized now i u.instance_.status)) e
                  (first-IsInitialized now i u.instance_.status)))
              (λ a v h. announce_returns (cl.now s.trace) v h)))

  -- The first request for an experiment returns and asks for no requeue, whatever the cluster
  -- answers, and leaves the initialization time at the time of the request, the stage Waiting and
  -- no iteration counted.
  pub reconcile_instance-IsInitialized :
      (s : Env)
      → s.instance_.status.init_time ≡ none
      → RunsTo
          (λ r i. (r.requeue_after ≡ none) × IsInitialized (cl.now s.trace) i.status)
          reconcile_instance
          s
  unfolding reconcile_instance ◌>>=◌ gets
  reconcile_instance-IsInitialized s e = record {
    returns =
        subst
          (λ o.
            Returns (λ r i. (r.requeue_after ≡ none) × IsInitialized (cl.now s.trace) i.status)
              (by_init_time o s).0 (by_init_time o s).1)
          (sym e) (first_returns s).returns;
  }
