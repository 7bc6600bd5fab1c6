-- ===== src/Controller/Reconcile/Ended.antt =====
-- A request for an experiment that is over.
use etc.Prelude.{ℕ, ◌≡◌, refl, none, some, List, arith}
use etc.Api.Constants.{experiment_completed, condition_true}
use etc.Api.Types.{Experiment, ExperimentCondition}
use etc.Api.Status.{find_condition, get_condition}
use etc.Controller.Effects.{Call, Cluster, Env, done, ◌>>=◌, pure, gets, on_status}
use etc.Controller.Effects.Equality.{deep_equal_refl}
use etc.Controller.Recorder.{condition_is_true}
use etc.Controller.Stages.{dummy_result, write_status, end_request}
use etc.Controller.Reconcile.{reconcile_known, reconcile_instance, reconcile}

module _ ⦃cl : Cluster⦄ where
  write_unchanged : (s : Env) → s.original ≡ s.instance_.status → write_status s ≡ (done none, s)
  unfolding write_status ◌>>=◌ gets pure
  write_unchanged s e = ground (arith, deep_equal_refl s.instance_.status)

  -- A request for an experiment whose Completed condition is true returns with no error and no
  -- requeue, changes nothing, and makes no call.
  pub reconcile_completed :
      (e : Experiment) (trace : List Call) (u : ℕ) (c : ExperimentCondition)
      → e.status.init_time ≡ some u
      → find_condition experiment_completed e.status.conditions ≡ some c
      → c.status ≡ condition_true
      → reconcile e trace
        ≡ (done dummy_result, record { instance_ = e; original = e.status; trace = trace })
  unfolding reconcile reconcile_instance ◌>>=◌ pure gets on_status reconcile_known condition_is_true
      get_condition end_request
  reconcile_completed e trace u c i f t =
      ground
        (arith, write_unchanged (record { instance_ = e; original = e.status; trace = trace }) refl)
