-- ===== src/Controller/Stages/Ends.antt =====
-- How an experiment ends: controllers/experiment_controller.go, endExperiment and failExperiment.
use etc.Prelude.{
  ◌≡◌, refl, sym, ap, ◌∙◌, Bool, true, false, Option, none, some, String, arith, inl, inr,
  Bool-cases, if◌then◌else◌,
}
use etc.Prelude.Int.{ℤ}
use etc.Api.Constants.{
  ExperimentStageType, completed, after, ExperimentConditionType, experiment_completed,
  ConditionStatus, condition_true,
}
use etc.Api.Constants.Reason
use mathlib.Core.Path.{subst}
use etc.Api.Types.{Time, Experiment, ExperimentStatus, ExperimentCondition}
use etc.Api.Status.{find_condition, mark_condition, get_condition, add_condition}
use etc.Api.Status.Laws.{find_condition-mark}
use etc.Controller.Effects.{
  Cluster, Env, done, panics, M, ◌>>=◌, pure, gets, ask, on_status, set_status,
}
use etc.Controller.Effects.RunsTo.{
  RunsTo, RunsTo-done, RunsTo-bind, RunsTo-pure, RunsTo-gets, RunsTo-of, RunsTo-after, RunsTo-Frame,
  Frame, Frame-bind, Frame-pure, Frame-gets, Frame-ask,
}
use etc.Controller.Recorder.{record_event, record_experiment_progress, record_experiment_completed}
use etc.Controller.Target.{
  trigger_next_experiment, next_waiting_experiment, active_contenders_for_target, release_next,
}
use etc.Controller.Stages.{
  set_stage, enter_stage, advance_from, advance_stage, write_status, over_with, end_request,
  end_experiment,
}

-- The stage is Completed, and so says the condition.
pub record IsOver (s : ExperimentStatus) : Type 0 where
  pub stage : s.stage ≡ some completed
  pub condition :
      (c : ExperimentCondition) × (find_condition experiment_completed s.conditions ≡ some c)
      × (c.status ≡ condition_true)

abbrev AtStage : ExperimentStageType → Experiment → Type 0
AtStage to i = i.status.stage ≡ some to

pub mark_stage :
    (now : Time) (kind : ExperimentConditionType) (status : ConditionStatus)
    (reason message : String) (s : ExperimentStatus)
    → (mark_condition now kind status reason message s).0.stage ≡ s.stage
unfolding mark_condition get_condition add_condition
mark_stage now kind status reason message s = ground arith

pub RunsTo-set :
    {Q : Unit {0} → Experiment → Type 0} (f : ExperimentStatus → ExperimentStatus) (s : Env)
    → Q tt (record s.instance_ { status = f s.instance_.status })
    → RunsTo Q (set_status f) s
unfolding set_status
RunsTo-set f s h = record { returns = h }

module _ {A : Type 0} where
  Frame-if : (b : Bool) (m n : M A) → Frame m → Frame n → Frame (if b then m else n)
  Frame-if true m n g h = g
  Frame-if false m n g h = h

module _ ⦃cl : Cluster⦄ where
  pub Frame-write : Frame write_status
  unfolding write_status
  Frame-write = Frame-bind _ _ (Frame-gets _) (λ i.
      Frame-bind _ _ (Frame-gets _)
        (λ o. Frame-if _ _ _ (Frame-pure _) (Frame-bind _ _ (Frame-ask _ _) (λ e. Frame-pure _))))

  Frame-release : (next : Option Experiment) → Frame (release_next next)
  unfolding release_next
  Frame-release none = Frame-pure _
  Frame-release (some e) = Frame-ask _ _

  Frame-contenders : (target : String) → Frame (active_contenders_for_target target)
  unfolding active_contenders_for_target
  Frame-contenders target =
      Frame-bind _ _ (Frame-gets _) (λ now. Frame-bind _ _ (Frame-ask _ _) (λ items. Frame-pure _))

  Frame-next : (target : String) (i : Option Experiment) → Frame (next_waiting_experiment target i)
  unfolding next_waiting_experiment
  Frame-next target i =
      Frame-bind _ _ (Frame-contenders target)
        (λ es. Frame-bind _ _ (Frame-gets _) (λ now. Frame-pure _))

  Frame-trigger :
      (target : String) (i : Option Experiment) → Frame (trigger_next_experiment target i)
  unfolding trigger_next_experiment
  Frame-trigger target i = Frame-bind _ _ (Frame-next target i) (λ next. Frame-release next)

  -- A record marks the condition in memory, and its event does not touch the experiment.
  record_run :
      (kind : ExperimentConditionType) (status : ConditionStatus) (reason message : String)
      (s : Env)
      → ((record_event kind status reason message s).0 ≡ done tt)
        × ((record_event kind status reason message s).1.instance_.status
            ≡ (mark_condition (cl.now s.trace) kind status reason message s.instance_.status).0)
  unfolding record_event ◌>>=◌ gets on_status ask pure
  record_run kind status reason message s =
      elim (Bool-cases
        (mark_condition (cl.now s.trace) kind status reason message s.instance_.status).1) [
          | inl e ↦ rw e (refl, refl)
          | inr e ↦ rw e (refl, refl)
        ]

  -- A record that is made of an experiment at a stage leaves it there.
  pub record_returns :
      (P : ExperimentStatus → Type 0) (kind : ExperimentConditionType) (status : ConditionStatus)
      (reason message : String) (s : Env)
      → P (mark_condition (cl.now s.trace) kind status reason message s.instance_.status).0
      → RunsTo (λ a i. P i.status) (record_event kind status reason message) s
  record_returns P kind status reason message s h =
      let (d, e) = record_run kind status reason message s in RunsTo-of _ s tt d (subst P (sym e) h)

  enter_returns :
      (to : ExperimentStageType) (s : Env)
      → RunsTo (λ b i. (b ≡ true) × AtStage to i) (enter_stage to) s
  unfolding enter_stage record_experiment_progress set_stage
  enter_returns to s = RunsTo-bind {Q = λ a i. AtStage to i} _ _ s (RunsTo-set _ s refl) (λ a t h.
      RunsTo-bind _ _ t
        (record_returns (λ x. x.stage ≡ some to) _ _ _ _ t (mark_stage _ _ _ _ _ _ ∙ h))
        (λ b u k. RunsTo-pure true u (refl, k)))

  from_returns :
      (to from : ExperimentStageType) (o : Option ExperimentStageType) (t : Env)
      → o ≡ some from
      → after to from ≡ true
      → RunsTo (λ b i. (b ≡ true) × AtStage to i) (advance_from to o) t
  unfolding advance_from
  from_returns to from none t e h = absurd (cc)
  from_returns to from (some x) t e h = let g : after to x ≡ true = cc in rw g (enter_returns to t)

  advance_returns :
      (to from : ExperimentStageType) (s : Env)
      → s.instance_.status.stage ≡ some from
      → after to from ≡ true
      → RunsTo (λ b i. (b ≡ true) × AtStage to i) (advance_stage to) s
  unfolding advance_stage
  advance_returns to from s e h =
      RunsTo-bind {Q = λ i j. i ≡ s.instance_} _ _ s (RunsTo-gets _ s refl)
        (λ i t p. from_returns to from i.status.stage t (ap (λ j. j.status.stage) p ∙ e) h)

  entered_if :
      (to : ExperimentStageType) (b : Bool) (s : Env)
      → ((if b then enter_stage to else pure false) s).0 ≡ done true
      → AtStage to ((if b then enter_stage to else pure false) s).1.instance_
  unfolding pure
  entered_if to true s e = (RunsTo-done (enter_returns to s) e).1
  entered_if to false s e = absurd (cc)

  from_stage :
      (to : ExperimentStageType) (o : Option ExperimentStageType) (s : Env)
      → (advance_from to o s).0 ≡ done true
      → AtStage to (advance_from to o s).1.instance_
  unfolding advance_from panics
  from_stage to none s e = absurd (cc)
  from_stage to (some from) s e = entered_if to (after to from) s e

  -- Where the advance says that it was made, the stage is the new one.
  pub advanced_stage :
      (to : ExperimentStageType) (s : Env)
      → (advance_stage to s).0 ≡ done true
      → AtStage to (advance_stage to s).1.instance_
  unfolding advance_stage ◌>>=◌ gets
  advanced_stage to s e = from_stage to s.instance_.status.stage s e

  completed_returns :
      (msg : String) (s : Env)
      → AtStage completed s.instance_
      → RunsTo (λ a i. IsOver i.status) (record_experiment_completed msg) s
  unfolding record_experiment_completed
  completed_returns msg s h = record_returns IsOver _ _ _ _ s (record {
    stage = mark_stage _ _ _ _ _ _ ∙ h;
    condition = (
      _,
      find_condition-mark (cl.now s.trace) experiment_completed condition_true
          Reason.experiment_completed msg s.instance_.status experiment_completed,
      refl,
    );
  })

  pub request_returns :
      (interval : Option ℤ) (s : Env)
      → IsOver s.instance_.status
      → RunsTo (λ r i. (r.requeue_after ≡ interval) × IsOver i.status) (end_request interval) s
  unfolding end_request
  request_returns interval s h =
      RunsTo-after (λ i. IsOver i.status) _ _ s Frame-write h (λ e t k. RunsTo-pure _ t (refl, k))

  over_with-IsOver :
      (msg : String) (s : Env)
      → AtStage completed s.instance_
      → RunsTo (λ a i. IsOver i.status) (over_with msg) s
  unfolding over_with
  over_with-IsOver msg s h = RunsTo-bind _ _ s (completed_returns msg s h) (λ a t k.
      RunsTo-after (λ i. IsOver i.status) _ _ t Frame-write k
        (λ w u m.
          RunsTo-after (λ i. IsOver i.status) _ _ u (Frame-gets _) m
            (λ i v n. RunsTo-Frame (λ i. IsOver i.status) _ v (Frame-trigger _ _) n)))

  -- Ending an experiment whose stage is before Completed returns and asks for no requeue, whatever
  -- the cluster answers, and leaves the stage Completed and the Completed condition true.
  pub end_experiment-IsOver :
      (msg : String) (from : ExperimentStageType) (s : Env)
      → s.instance_.status.stage ≡ some from
      → after completed from ≡ true
      → RunsTo (λ r i. (r.requeue_after ≡ none) × IsOver i.status) (end_experiment msg) s
  unfolding end_experiment
  end_experiment-IsOver msg from s e h =
      RunsTo-bind _ _ s (advance_returns completed from s e h) (λ b t k.
        RunsTo-bind {Q = λ a i. IsOver i.status} _ _ t
          (subst (λ x. RunsTo (λ a i. IsOver i.status) (if x then over_with msg else pure tt) t)
            (sym k.0) (over_with-IsOver msg t k.1))
          (λ a u m. request_returns none u m))
