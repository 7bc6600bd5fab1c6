-- ===== src/Examples/Requests.antt =====
-- The theorems on whole requests and on the target, on concrete data.
use etc.Prelude.{some, ℕ, ◌≡◌, refl, true, false, none, List, [], ◌∷◌, All, str_eq, inl, inr}
use etc.Api.Constants.{experiment_completed, target_acquired}
use etc.Api.Types.{Experiment}
use etc.Api.Status.{is_false, find_condition, get_condition, mark_condition, update_condition}
use etc.Controller.Effects.{done, ◌>>=◌, pure, gets, deref, ask, on_status}
use etc.Controller.Recorder.{condition_is_true, record_target_acquired, record_event}
use etc.Controller.Target.{
  condition_of, same_instance, contenders, active_contenders_for_target, contend, acquire_if_first,
  acquire_target,
}
use etc.Controller.Target.{next_waiting, next_waiting_experiment, with_condition}
use etc.Controller.Target.Next.{IsFree, IsNext, next_waiting_experiment-IsNext}
use etc.Controller.Target.Exclusion.{Yields}
use etc.Controller.Target.Acquire.{Holds, Sees, acquire_target_safe, acquire_target_exclusive}
use etc.Controller.Stages.{dummy_result}
use etc.Controller.Reconcile.{reconcile}
use etc.Controller.Reconcile.Ended.{reconcile_completed}
use etc.Controller.Steps.{Reach}
use etc.Controller.Steps.Requests.{reconcile-Reach}
use etc.Controller.Steps.Identity.{SameIdentity, reconcile-SameIdentity}
use etc.Controller.Steps.Kept.{KeepsStatus, reconcile-KeepsStatus}
use etc.Controller.Steps.Completion.{IsTrueAtEnd, reconcile-IsTrueAtEnd}
use etc.Examples.Base.{
  test_cluster, cluster_of-HasTimeOrder, waiting_experiment, other_experiment, completed_experiment,
  running_experiment, env_of,
}

abbrev both : List Experiment
both = waiting_experiment ∷ other_experiment ∷ []

reconcile-Reach_example :
    Reach (env_of waiting_experiment) (reconcile ⦃cl = test_cluster⦄ waiting_experiment []).1
reconcile-Reach_example = reconcile-Reach ⦃cl = test_cluster⦄ waiting_experiment []

reconcile-SameIdentity_example :
    SameIdentity running_experiment
      (reconcile ⦃cl = test_cluster⦄ running_experiment []).1.instance_
reconcile-SameIdentity_example = reconcile-SameIdentity ⦃cl = test_cluster⦄ running_experiment []

reconcile-KeepsStatus_example :
    KeepsStatus running_experiment.status
      (reconcile ⦃cl = test_cluster⦄ running_experiment []).1.instance_.status
reconcile-KeepsStatus_example =
    reconcile-KeepsStatus ⦃cl = test_cluster⦄ running_experiment [] 7 refl

running-IsTrueAtEnd : IsTrueAtEnd running_experiment.status
unfolding find_condition
running-IsTrueAtEnd = record { at_end = λ c p q. cc }

reconcile-IsTrueAtEnd_example :
    IsTrueAtEnd (reconcile ⦃cl = test_cluster⦄ running_experiment []).1.instance_.status
reconcile-IsTrueAtEnd_example =
    reconcile-IsTrueAtEnd ⦃cl = test_cluster⦄ running_experiment [] 7 refl running-IsTrueAtEnd

reconcile_completed_example :
    reconcile ⦃cl = test_cluster⦄ completed_experiment []
    ≡ (done dummy_result, env_of completed_experiment)
unfolding find_condition
reconcile_completed_example =
    reconcile_completed ⦃cl = test_cluster⦄ completed_experiment [] 7 _ refl refl refl

free : ¬ Holds waiting_experiment.status
unfolding find_condition
free (c, e, h) = cc

abbrev Taken : (e : Experiment) → Type 0
Taken e = Holds (acquire_target ⦃cl = test_cluster⦄ (env_of e)).1.instance_.status

first-Taken : Taken waiting_experiment
unfolding acquire_target condition_is_true active_contenders_for_target contend contenders
    acquire_if_first record_target_acquired record_event same_instance ◌>>=◌ pure gets deref ask
    on_status find_condition get_condition mark_condition update_condition
first-Taken = (_, refl, refl)

second-Taken : Taken other_experiment
unfolding acquire_target condition_is_true active_contenders_for_target contend contenders
    acquire_if_first record_target_acquired record_event same_instance ◌>>=◌ pure gets deref ask
    on_status find_condition get_condition mark_condition update_condition
second-Taken = (_, refl, refl)

acquire_target_safe_example :
    All
      (λ e.
        str_eq e.spec.target "app" ≡ true
        → is_false (condition_of 100 experiment_completed e) ≡ true
        → same_instance waiting_experiment e ≡ false
        → Yields 101 7 e)
      both
acquire_target_safe_example =
    acquire_target_safe ⦃cl = test_cluster⦄ (env_of waiting_experiment) 7
      (cluster_of-HasTimeOrder both) refl free first-Taken

first-Sees : Sees test_cluster (env_of waiting_experiment) (env_of other_experiment)
unfolding same_instance find_condition get_condition
first-Sees = record { listed_ = inr (inl refl); target = refl; active = refl; distinct = refl }

second-Sees : Sees test_cluster (env_of other_experiment) (env_of waiting_experiment)
unfolding same_instance find_condition get_condition
second-Sees = record { listed_ = inl refl; target = refl; active = refl; distinct = refl }

-- The two were initialized at one time, and both take the target.
acquire_target_exclusive_example : ◌≡◌ {A = ℕ} 7 7
acquire_target_exclusive_example =
    acquire_target_exclusive ⦃cl = test_cluster⦄ (env_of waiting_experiment)
      (env_of other_experiment) 7 7 (cluster_of-HasTimeOrder both) first-Sees second-Sees refl refl
      free free first-Taken second-Taken

released :
    (next_waiting_experiment ⦃cl = test_cluster⦄ "app" none (env_of waiting_experiment)).0
    ≡ done (some (with_condition 101 target_acquired waiting_experiment))
unfolding next_waiting_experiment next_waiting active_contenders_for_target contenders same_instance
    ◌>>=◌ pure gets ask find_condition get_condition
released = refl

-- Of the two that wait, the first in the list is released.
next_waiting_experiment-IsNext_example :
    IsFree 101 none both
    × IsNext 101 101 none both (with_condition 101 target_acquired waiting_experiment)
unfolding contenders get_condition find_condition
next_waiting_experiment-IsNext_example =
    next_waiting_experiment-IsNext ⦃cl = test_cluster⦄ (cluster_of-HasTimeOrder both) "app" none
      (env_of waiting_experiment) (with_condition 101 target_acquired waiting_experiment) released
