-- ===== src/Controller/Steps/Iterations.antt =====
-- An iteration, with the reading of metrics before it, as steps.
use etc.Prelude.{
  ap, ◌∙◌, sym, arith, ℕ, zero, suc, ◌+◌, ◌≡◌, refl, Bool, Option, none, some, List, [], ◌∷◌,
  String,
}
use mathlib.Core.Path.{subst}
use etc.Prelude.Int.{ℤ}
use etc.Api.Constants.{finishing}
use etc.Api.Types.{ExperimentStatus, Experiment, Objective, VersionInfo, MetricInfo, Analysis}
use etc.Api.Status.{set_version_recommended_for_promotion}
use etc.Controller.Effects.{
  Cluster, Env, M, ◌>>=◌, pure, panics, gets, ask, set_status, NamespacedName,
}
use etc.Api.Status.Laws.{set_version_recommended_lem}
use etc.Controller.Handler.{finish, rollback, loop}
use etc.Controller.Launch.{Flow, no_modifier}
use etc.Controller.Stages.{ReconcileResult}
use etc.Controller.Metrics.{
  MetricMap, read_metric, unreadable, read_names, read_metrics, append_metrics,
}
use etc.Controller.Analytics.{invoke, stamp_analysis}
use etc.Controller.Iterate.{
  keep_hists, completed_loop, failing_versions, failing_from, versions_must_rollback, must_rollback,
  set_analysis, set_start_time_if_not_set, start_time_of, count_from, complete_iteration,
  finishing_modifier, or_else, finish_experiment, rollback_experiment, baseline_name, schedule_next,
  record_iteration, observe_and_record, shift_traffic, assess, iterate, do_iteration,
}
use etc.Controller.Steps.{
  with_status, Reach, here, called, Reach-step, Reach-trans, started, analysed, recommended,
  iterated, metrics_read,
}
use etc.Controller.Steps.Rules.{
  Follows, Follows-option, Follows-option', Follows-result', Follows-gets, Follows-if, Follows-pure,
  Follows-panics, Follows-deref, Follows-bool, Follows-lookup, Follows-ask, ◌▷◌,
}
use etc.Controller.Steps.Parts.{
  Follows-failed, Follows-progress, Follows-end, Follows-fail, Follows-request, Follows-advance,
}
use etc.Controller.Steps.Traffic.{Follows-update, Follows-redistribute}
use etc.Controller.Steps.Jobs.{Modifies, Follows-wrapper}

Follows-failing : (k : ℕ) (m : List (String × List Bool)) → Follows (failing_versions k m)
unfolding failing_versions
Follows-failing k [] = Follows-pure _
Follows-failing k ((v, bs) ∷ m) =
    Follows-deref _ ▷ λ ok. Follows-failing k m ▷ λ rest. Follows-pure _

Follows-failing_from :
    (i : Experiment) (k : ℕ) (os : List Objective) → Follows (failing_from i k os)
unfolding failing_from
Follows-failing_from i k [] = Follows-pure _
Follows-failing_from i k (o ∷ os) =
    Follows-if _
      ((Follows-deref _ ▷ λ a. Follows-deref _ ▷ λ v. Follows-pure _) ▷ λ d.
        Follows-failing k d ▷ λ failed. Follows-failing_from i (k + 1) os ▷ λ more. Follows-pure _)
      (Follows-failing_from i (k + 1) os)

Follows-must_rollback : Follows must_rollback
unfolding must_rollback versions_must_rollback
Follows-must_rollback =
    (Follows-gets _ ▷ λ i. Follows-option _ (Follows-pure _) (λ c. Follows-failing_from i 0 _))
    ▷ λ v. Follows-pure _

Follows-completed_loop : (i : Experiment) → Follows (completed_loop i)
unfolding completed_loop
Follows-completed_loop i = Follows-if _ Follows-panics (Follows-pure _)

pub Follows-baseline : (v : Option VersionInfo) → Follows (baseline_name v)
Follows-baseline none = Follows-panics
Follows-baseline (some v) = Follows-pure _

keep_hists_lem :
    (o : Option Analysis) (n a : Analysis)
    → o ≡ some a
    → (keep_hists o n).aggregated_builtin_hists ≡ a.aggregated_builtin_hists
unfolding keep_hists
keep_hists_lem none n a e = cc
keep_hists_lem (some b) n a e = ground arith

analysis_step : (a : Analysis) → Follows (set_status (set_analysis a))
unfolding set_status
analysis_step a = record {
  at = λ s. Reach-step (
      analysed (keep_hists s.instance_.status.analysis a) s
        (λ b e. keep_hists_lem s.instance_.status.analysis a b e));
}

recommend_shape :
    (b : String) (s : ExperimentStatus)
    → let t = set_version_recommended_for_promotion b s in
      t ≡ record s { version_recommended_for_promotion = t.version_recommended_for_promotion }
unfolding set_version_recommended_for_promotion
recommend_shape b s = ground arith

recommend_only :
    (b : String) (s : ExperimentStatus)
    → (v : String) × (set_version_recommended_for_promotion b s
        ≡ record s { version_recommended_for_promotion = some v })
recommend_only b s = (
  _,
  recommend_shape b s
      ∙ ap (λ o. record s { version_recommended_for_promotion = o })
          (set_version_recommended_lem b s),
)

recommend-Reach :
    (b : String) (s : Env) → Reach s (with_status (set_version_recommended_for_promotion b) s)
recommend-Reach b s =
    let (v, e) = recommend_only b s.instance_.status in
    subst (λ y. Reach s (with_status (λ z. y) s)) (sym e) (Reach-step (recommended v s))

pub recommendation_step :
    (b : String) → Follows (set_status (set_version_recommended_for_promotion b))
unfolding set_status
recommendation_step b = record { at = recommend-Reach b }

metrics_step : (ms : List MetricInfo) → Follows (set_status (append_metrics ms))
unfolding set_status
metrics_step ms = record { at = λ s. Reach-step (metrics_read ms s) }

pub Follows-or_else :
    {m : M Flow} {n : M ReconcileResult} → Follows m → Follows n → Follows (or_else m n)
unfolding or_else
Follows-or_else fm fn = fm ▷ λ f. Follows-if _ (Follows-pure _) fn

module _ ⦃cl : Cluster⦄ where
  count_from-Reach :
      (s : Env) (o : Option ℤ)
      → s.instance_.status.completed_iterations ≡ o
      → Reach s (count_from o s).1
  unfolding count_from panics ◌>>=◌ gets set_status
  count_from-Reach s none e = here
  count_from-Reach s (some n) e = Reach-step (iterated n (cl.now s.trace) s e)

  iteration_step : Follows complete_iteration
  unfolding complete_iteration ◌>>=◌ gets
  iteration_step = record {
    at = λ s. count_from-Reach s s.instance_.status.completed_iterations refl;
  }

  start_time_of-Reach :
      (s : Env) (o : Option ℕ) → s.instance_.status.start_time ≡ o → Reach s (start_time_of o s).1
  unfolding start_time_of pure ◌>>=◌ gets set_status ask
  start_time_of-Reach s (some t) e = here
  start_time_of-Reach s none e =
      Reach-trans (Reach-step (started (cl.now s.trace) s e)) (Reach-step (called _ _))

  start_step : Follows set_start_time_if_not_set
  unfolding set_start_time_if_not_set ◌>>=◌ gets
  start_step = record { at = λ s. start_time_of-Reach s s.instance_.status.start_time refl }

  Follows-stamp : (e : String) (a : Analysis) → Follows (stamp_analysis e a)
  unfolding stamp_analysis
  Follows-stamp e a = Follows-deref _ ▷ λ m. Follows-deref _ ▷ λ v.
      Follows-deref _ ▷ λ w. Follows-deref _ ▷ λ ws. Follows-gets _ ▷ λ n. Follows-pure _

  Follows-invoke : (e : String) (i : Experiment) → Follows (invoke e i)
  unfolding invoke
  Follows-invoke e i = Follows-ask _ _ ▷ λ a.
      Follows-if _
        (Follows-result' _ (λ e. Follows-pure _) (λ a. Follows-stamp _ a ▷ λ _. Follows-pure _))
        (Follows-pure _)

  finishing_ok : Modifies finishing_modifier
  finishing_ok = record { check = tt; launched_ = Follows-advance finishing ▷ λ _. Follows-pure tt }

  loop_ok : (n : ℤ) → Modifies (record no_modifier { loop_ = some n })
  loop_ok n = record { check = tt; launched_ = tt }

  Follows-finish : Follows finish_experiment
  unfolding finish_experiment
  Follows-finish = Follows-or_else (Follows-wrapper _ finishing_ok finish) (Follows-end _)

  Follows-rollback : Follows rollback_experiment
  unfolding rollback_experiment
  Follows-rollback = Follows-or_else (Follows-wrapper _ finishing_ok rollback) (Follows-end _)

  Follows-schedule : Follows schedule_next
  unfolding schedule_next
  Follows-schedule = Follows-gets _ ▷ λ i. Follows-completed_loop i ▷ λ l.
      Follows-option _ (Follows-request _) (λ n. Follows-progress _ _ ▷ λ _.
      Follows-or_else (Follows-wrapper _ (loop_ok n) loop) (Follows-request _))

  Follows-record : Follows record_iteration
  unfolding record_iteration
  Follows-record = Follows-gets _ ▷ λ i. Follows-baseline _ ▷ λ b. recommendation_step b ▷ λ _.
      iteration_step ▷ λ _.
      Follows-gets _ ▷ λ i'. Follows-deref _ ▷ λ n. Follows-progress _ _ ▷ λ _. Follows-schedule

  Follows-observe_record : Follows observe_and_record
  unfolding observe_and_record
  Follows-observe_record = Follows-update ▷ λ e.
      Follows-option' e (λ e. Follows-failed _ _ ▷ λ _. Follows-fail) Follows-record

  Follows-shift : Follows shift_traffic
  unfolding shift_traffic
  Follows-shift = Follows-redistribute ▷ λ e.
      Follows-option' e (λ e. Follows-failed _ _ ▷ λ _. Follows-fail) Follows-observe_record

  Follows-assess : Follows assess
  unfolding assess
  Follows-assess = Follows-gets _ ▷ λ i. Follows-invoke _ _ ▷ λ r.
      Follows-result' r (λ e. Follows-failed _ _ ▷ λ _. Follows-fail)
        (λ a. analysis_step a ▷ λ _.
          Follows-must_rollback ▷ λ b. Follows-if b Follows-rollback Follows-shift)

  Follows-iterate : Follows iterate
  unfolding iterate
  Follows-iterate = Follows-gets _ ▷ λ i. Follows-deref _ ▷ λ n. Follows-gets _ ▷ λ t.
      Follows-if _ Follows-finish (Follows-if _ (Follows-pure _) Follows-assess)

  pub Follows-do_iteration : Follows do_iteration
  unfolding do_iteration
  Follows-do_iteration = start_step ▷ λ e. Follows-option' e (λ e. Follows-pure _) Follows-iterate

  Follows-unreadable : (r : NamespacedName) (a b : String) → Follows (unreadable r a b)
  unfolding unreadable
  Follows-unreadable r a b = Follows-failed _ _ ▷ λ _. Follows-pure _

  Follows-metric :
      (d : ℕ) (namespace name : String) (m : MetricMap) → Follows (read_metric d namespace name m)
  unfolding read_metric
  Follows-metric zero namespace name m = Follows-panics
  Follows-metric (suc d) namespace name m = Follows-bool _ (Follows-pure _) (
      Follows-ask _ _ ▷ λ a.
      Follows-lookup a (Follows-unreadable _ _ _ ▷ λ b. Follows-pure _)
        (λ e. Follows-unreadable _ _ _ ▷ λ b. Follows-pure _)
        (λ x. Follows-option _ (Follows-pure _) (λ name'. Follows-metric d _ name' _)))

  Follows-names :
      (namespace : String) (names : List String) (m : MetricMap)
      → Follows (read_names namespace names m)
  unfolding read_names
  Follows-names namespace [] m = Follows-pure _
  Follows-names namespace (name ∷ names) m =
      Follows-if _ (Follows-pure _) (Follows-metric _ _ _ _) ▷ λ r.
      Follows-bool _ (Follows-names namespace names _) (Follows-pure _)

  pub Follows-metrics : Follows read_metrics
  unfolding read_metrics
  Follows-metrics = Follows-gets _ ▷ λ i. Follows-deref _ ▷ λ c. Follows-names _ _ _ ▷ λ r.
      Follows-if _ (metrics_step _ ▷ λ _. Follows-pure _) (Follows-pure _)
