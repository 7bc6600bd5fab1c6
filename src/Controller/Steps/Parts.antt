-- ===== src/Controller/Steps/Parts.antt =====
-- The parts of the controller, as steps of a request.
use etc.Prelude.{sym, ◌≡◌, refl, Bool, true, false, Option, none, some, String, if◌then◌else◌, ℕ}
use etc.Prelude.Int.{ℤ}
use etc.Api.Constants.{
  ExperimentConditionType, ConditionStatus, condition_true, experiment_completed,
  ExperimentStageType, completed, after, target_acquired,
}
use etc.Api.Constants.Reason
use mathlib.Core.Path.{subst}
use etc.Api.Status.{find_condition, mark_condition, get_condition}
use etc.Api.Types.{Experiment, ExperimentCondition}
use etc.Controller.Effects.{Cluster, Env, ◌>>=◌, panics, pure, gets, on_status, set_status}
use etc.Controller.Recorder.{
  record_event, record_experiment_failed, record_experiment_completed, record_experiment_progress,
  record_target_acquired, condition_is_true,
}
use etc.Controller.Target.{
  active_contenders_for_target, acquire_target, next_waiting_experiment, trigger_next_experiment,
  release_next, acquire_if_first,
}
use etc.Controller.Stages.{
  advance_from, enter_stage, write_status, end_request, set_stage, advance_stage, end_experiment,
  fail_experiment, over_with,
}
use etc.Controller.Stages.Ends.{advanced_stage}
use etc.Controller.Steps.{
  Reach, here, marked, looked, advanced, with_status, Reach-trans, Reach-step,
}
use etc.Controller.Steps.Changes.{
  after-rank, mark_condition-SetsCondition, mark_only, look_found, look_missing,
}
use etc.Controller.Steps.Rules.{
  Reach-bind, Follows, Follows-ask, Follows-option, follows_rules, Follows-gets, Follows-if,
  Follows-pure, ◌▷◌,
}

module _ ⦃cl : Cluster⦄ where
  -- A mark, where the Completed condition is not set to true, or the stage is Completed.
  mark-Reach :
      (now : ℕ) (kind : ExperimentConditionType) (status : ConditionStatus)
      (reason message : String) (s : Env)
      → (kind ≡ experiment_completed
          → status ≡ condition_true
          → s.instance_.status.stage ≡ some completed)
      → Reach s (with_status (λ x. (mark_condition now kind status reason message x).0) s)
  mark-Reach now kind status reason message s h =
      let x = s.instance_.status in
      subst (λ y. Reach s (with_status (λ z. y) s))
        (sym (mark_only now kind status reason message x))
        (Reach-step (
          marked now kind status reason message _ _ s
            (mark_condition-SetsCondition now kind status reason message x) h))

  mark_step :
      (now : ℕ) (kind : ExperimentConditionType) (status : ConditionStatus)
      (reason message : String)
      → (kind ≡ experiment_completed → status ≡ condition_true → ⊥)
      → Follows (on_status (mark_condition now kind status reason message))
  unfolding on_status
  mark_step now kind status reason message h = record {
    at = λ s. mark-Reach now kind status reason message s (λ k t. absurd (h k t));
  }

  look-Reach :
      (now : ℕ) (kind : ExperimentConditionType) (s : Env) (o : Option ExperimentCondition)
      → find_condition kind s.instance_.status.conditions ≡ o
      → Reach s (with_status (λ x. (get_condition now kind x).1) s)
  look-Reach now kind s none e =
      subst (λ y. Reach s (with_status (λ z. y) s))
        (sym (look_missing now kind s.instance_.status e)) (Reach-step (looked now kind s e))
  look-Reach now kind s (some c) e =
      subst (λ y. Reach s (with_status (λ z. y) s))
        (sym (look_found now kind s.instance_.status c e)) here

  look_step :
      (now : ℕ) (kind : ExperimentConditionType)
      → Follows (on_status (λ s. let (c, s') = get_condition now kind s in (s', c)))
  unfolding on_status
  look_step now kind = record { at = λ s. look-Reach now kind s _ refl }

  pub Follows-mark :
      (kind : ExperimentConditionType) (status : ConditionStatus) (reason message : String)
      → (kind ≡ experiment_completed → status ≡ condition_true → ⊥)
      → Follows (record_event kind status reason message)
  unfolding record_event
  Follows-mark kind status reason message h = Follows-gets _ ▷ λ now.
      mark_step now kind status reason message h ▷ λ changed.
      Follows-if changed (Follows-ask _ _) (Follows-pure tt)

  pub Follows-failed : (reason message : String) → Follows (record_experiment_failed reason message)
  unfolding record_experiment_failed
  Follows-failed reason message = Follows-mark _ _ reason message (λ k t. cc)

  -- The Completed condition is set at the stage Completed.
  completed-Reach :
      (message : String) (s : Env)
      → s.instance_.status.stage ≡ some completed
      → Reach s (record_experiment_completed message s).1
  unfolding record_experiment_completed record_event ◌>>=◌ gets on_status
  completed-Reach message s h =
      Reach-trans
        (mark-Reach (cl.now s.trace) experiment_completed condition_true Reason.experiment_completed
          message s (λ k t. h))
        ((Follows-if _ (Follows-ask _ _) (Follows-pure tt)).at (
          with_status
            (λ x.
              (mark_condition (cl.now s.trace) experiment_completed condition_true
                Reason.experiment_completed message x).0)
            s))

  pub Follows-progress :
      (reason message : String) → Follows (record_experiment_progress reason message)
  unfolding record_experiment_progress
  Follows-progress reason message = Follows-mark _ _ reason message (λ k t. cc)

  pub Follows-acquired : (message : String) → Follows (record_target_acquired message)
  unfolding record_target_acquired
  Follows-acquired message = Follows-mark _ _ _ message (λ k t. cc)

  pub Follows-condition : (kind : ExperimentConditionType) → Follows (condition_is_true kind)
  unfolding condition_is_true
  Follows-condition kind = search (follows_rules, look_step)

  Follows-contenders : (target : String) → Follows (active_contenders_for_target target)
  unfolding active_contenders_for_target
  Follows-contenders target = search follows_rules

  Follows-next :
      (target : String) (i : Option Experiment) → Follows (next_waiting_experiment target i)
  unfolding next_waiting_experiment
  Follows-next target i = search (follows_rules, Follows-contenders)

  Follows-write : Follows write_status
  unfolding write_status
  Follows-write = search follows_rules

  Follows-release : (e : Option Experiment) → Follows (release_next e)
  unfolding release_next
  Follows-release none = search follows_rules
  Follows-release (some e) = search follows_rules

  pub Follows-trigger :
      (target : String) (i : Option Experiment) → Follows (trigger_next_experiment target i)
  unfolding trigger_next_experiment
  Follows-trigger target i = search (follows_rules, Follows-next, Follows-release)

  Follows-first : (i : Experiment) (t : Option ℕ) → Follows (acquire_if_first i t)
  unfolding acquire_if_first
  Follows-first i t = search (follows_rules, Follows-acquired)

  pub Follows-acquire : Follows acquire_target
  unfolding acquire_target
  Follows-acquire = Follows-condition target_acquired ▷ λ have. Follows-if _ (Follows-pure true) (
      Follows-gets _ ▷ λ i. Follows-contenders _ ▷ λ share.
      Follows-gets _ ▷ λ now. Follows-option _ (Follows-pure false) (λ e. Follows-first i e))

  enter-Reach :
      (to from : ExperimentStageType) (s : Env)
      → s.instance_.status.stage ≡ some from
      → after to from ≡ true
      → Reach s (enter_stage to s).1
  unfolding enter_stage ◌>>=◌ set_status set_stage
  enter-Reach to from s e h =
      Reach-trans (Reach-step (advanced to from s e ((after-rank to from).0 h)))
        ((Follows-progress _ _ ▷ λ _. Follows-pure true).at (with_status (set_stage to) s))

  if_after-Reach :
      (to from : ExperimentStageType) (s : Env) (b : Bool)
      → s.instance_.status.stage ≡ some from
      → after to from ≡ b
      → Reach s ((if b then enter_stage to else pure false) s).1
  unfolding pure
  if_after-Reach to from s true e h = enter-Reach to from s e h
  if_after-Reach to from s false e h = here

  -- The guard of the step is the one that the code tests.
  advance-Reach :
      (to : ExperimentStageType) (s : Env) (o : Option ExperimentStageType)
      → s.instance_.status.stage ≡ o
      → Reach s (advance_from to o s).1
  unfolding advance_from panics
  advance-Reach to s none e = here
  advance-Reach to s (some from) e = if_after-Reach to from s (after to from) e refl

  pub Follows-advance : (to : ExperimentStageType) → Follows (advance_stage to)
  unfolding advance_stage ◌>>=◌ gets
  Follows-advance to = record { at = λ s. advance-Reach to s s.instance_.status.stage refl }

  pub Follows-request : (interval : Option ℤ) → Follows (end_request interval)
  unfolding end_request
  Follows-request interval = search (follows_rules, Follows-write)

  over_with-Reach :
      (msg : String) (s : Env)
      → s.instance_.status.stage ≡ some completed
      → Reach s (over_with msg s).1
  unfolding over_with
  over_with-Reach msg s h =
      Reach-bind _ _ s (completed-Reach msg s h)
        (λ a e. (Follows-write ▷ λ _. Follows-gets _ ▷ λ i. Follows-trigger _ _).at _)

  over-Reach :
      (msg : String) (ok : Bool) (s : Env)
      → (ok ≡ true → s.instance_.status.stage ≡ some completed)
      → Reach s ((if ok then over_with msg else pure tt) s).1
  unfolding pure
  over-Reach msg true s h = over_with-Reach msg s (h refl)
  over-Reach msg false s h = here

  pub Follows-end : (msg : String) → Follows (end_experiment msg)
  unfolding end_experiment
  Follows-end msg = record {
    at = λ s. Reach-bind _ _ s ((Follows-advance completed).at s) (λ ok e.
        Reach-bind _ _ _ (over-Reach msg ok _ (λ k. advanced_stage completed s (cc)))
          (λ a e'. (Follows-request none).at _));
  }

  pub Follows-fail : Follows fail_experiment
  unfolding fail_experiment
  Follows-fail = Follows-end _
