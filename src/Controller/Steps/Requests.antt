-- ===== src/Controller/Steps/Requests.antt =====
-- A whole request, as steps.
use etc.Prelude.{ℕ, ◌≡◌, refl, Option, none, some, List}
use etc.Api.Types.{Experiment}
use etc.Api.Status.{initialize_status}
use etc.Api.Defaults.{initialize_spec}
use etc.Api.Defaults.Laws.{initialize_spec-IsLateInitialized}
use etc.Controller.Effects.{Call, Cluster, Env, ◌>>=◌, gets, set_status, set_spec}
use etc.Controller.Handler.{start}
use etc.Controller.Validation.{is_version_info_valid}
use etc.Controller.Reconcile.{
  announce_new, reconcile_new, start_modifier, reconcile_running, first_weights, reconcile_started,
  reconcile_acquired, reconcile_valid, reconcile_active, reconcile_known, by_init_time,
  reconcile_instance, reconcile,
}
use etc.Controller.Steps.{Reach, Reach-step, Reach-trans, defaulted, initialized}
use etc.Controller.Steps.Rules.{
  Follows, Follows-option, Follows-gets, Follows-if, Follows-pure, Follows-ask, ◌▷◌,
}
use etc.Controller.Steps.Parts.{
  Follows-failed, Follows-progress, Follows-fail, Follows-request, Follows-advance, Follows-acquire,
  Follows-condition,
}
use etc.Controller.Steps.Traffic.{Follows-update}
use etc.Controller.Steps.Jobs.{Modifies, Follows-wrapper, Follows-check, Follows-status}
use etc.Controller.Steps.Iterations.{
  Follows-baseline, recommendation_step, Follows-or_else, Follows-do_iteration, Follows-metrics,
}

spec_step : Follows (set_spec initialize_spec)
unfolding set_spec
spec_step = record {
  at = λ s. Reach-step (defaulted _ s (initialize_spec-IsLateInitialized s.instance_.spec));
}

module _ ⦃cl : Cluster⦄ where
  Follows-valid : Follows is_version_info_valid
  unfolding is_version_info_valid
  Follows-valid = Follows-gets _ ▷ λ i.
      Follows-option _ (Follows-pure _) (λ m. Follows-failed _ _ ▷ λ _. Follows-pure _)

  start_ok : (i : Experiment) → Modifies (start_modifier i)
  start_ok i = record { check = Follows-status _ _ ▷ λ s. Follows-pure _; launched_ = tt }

  Follows-running : Follows reconcile_running
  unfolding reconcile_running
  Follows-running = Follows-valid ▷ λ ok. Follows-if _ Follows-fail (
      Follows-gets _ ▷ λ i.
      Follows-baseline _ ▷ λ b. recommendation_step b ▷ λ _. Follows-do_iteration)

  Follows-first_weights : Follows first_weights
  unfolding first_weights
  Follows-first_weights = Follows-update ▷ λ e.
      Follows-option e (Follows-request _) (λ e. Follows-failed _ _ ▷ λ _. Follows-fail)

  Follows-started : Follows reconcile_started
  unfolding reconcile_started
  Follows-started = Follows-gets _ ▷ λ i.
      Follows-if _ (Follows-metrics ▷ λ ok. Follows-if ok (Follows-request _) Follows-fail)
        (Follows-advance _ ▷ λ ok. Follows-if ok Follows-first_weights Follows-running)

  Follows-acquired_ : Follows reconcile_acquired
  unfolding reconcile_acquired
  Follows-acquired_ = Follows-advance _ ▷ λ ok.
      Follows-if ok (Follows-request _) (
        Follows-gets _ ▷ λ i.
        Follows-or_else (Follows-wrapper _ (start_ok i) start) Follows-started)

  Follows-active : Follows reconcile_active
  unfolding reconcile_active reconcile_valid
  Follows-active = spec_step ▷ λ _. Follows-gets _ ▷ λ i.
      Follows-if _ Follows-fail
        (Follows-acquire ▷ λ ok. Follows-if _ (Follows-request _) Follows-acquired_)

  Follows-known : Follows reconcile_known
  unfolding reconcile_known
  Follows-known = Follows-condition _ ▷ λ over.
      Follows-if over (Follows-request _) (Follows-or_else (Follows-check _) Follows-active)

  Follows-announce : Follows announce_new
  unfolding announce_new
  Follows-announce =
      Follows-gets _ ▷ λ i. Follows-ask _ _ ▷ λ _. Follows-progress _ _ ▷ λ _. Follows-request none

  new-Reach : (s : Env) → s.instance_.status.init_time ≡ none → Reach s (reconcile_new s).1
  unfolding reconcile_new ◌>>=◌ gets set_status initialize_status
  new-Reach s e = Reach-trans (Reach-step (initialized (cl.now s.trace) s e)) (
      Follows-announce.at (record s { instance_ = initialize_status (cl.now s.trace) s.instance_ }))

  by_init_time-Reach :
      (s : Env) (t : Option ℕ) → s.instance_.status.init_time ≡ t → Reach s (by_init_time t s).1
  by_init_time-Reach s none e = new-Reach s e
  by_init_time-Reach s (some t) e = Follows-known.at s

  -- Whatever the cluster answers, and also where it panics, all that a request does to the
  -- experiment in memory is a sequence of steps, each of which says what it writes: the stage goes
  -- to a later one, or to Waiting where a status without an initialization time is initialized; the
  -- start time is set only where it was missing; an iteration makes the count that is there larger
  -- by one, as an int32; the Completed condition becomes true at the stage Completed only; the
  -- histograms of an analysis stay; and the spec changes only by late initialization.
  pub reconcile-Reach :
      (e : Experiment) (trace : List Call)
      → Reach (record { instance_ = e; original = e.status; trace = trace }) (reconcile e trace).1
  unfolding reconcile reconcile_instance ◌>>=◌ gets
  reconcile-Reach e trace = by_init_time-Reach _ e.status.init_time refl
