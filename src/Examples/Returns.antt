-- ===== src/Examples/Returns.antt =====
-- The theorems on actions that return, on concrete data.
use etc.Prelude.{
  ◌≡◌, ◌↔◌, All, true, refl, none, some, List, [], ◌∷◌, arith, inl, inr, Bool-cases, str_eq, eq_iff,
  if◌then◌else◌,
}
use etc.Api.Constants.{running, after}
use etc.Api.MetricBuilder.{empty_metric_spec}
use etc.Api.Types.{Experiment, VersionInfo, Metric}
use etc.Controller.Effects.{Cluster, done, Call, NamespacedName, Lookup}
use etc.Controller.Effects.RunsTo.{RunsTo}
use etc.Controller.Stages.{ReconcileResult, end_experiment}
use etc.Controller.Stages.Ends.{IsOver, end_experiment-IsOver}
use etc.Controller.Validation.{is_experiment_valid, is_version_info_valid}
use etc.Controller.Validation.Tasks.{IsTask, is_experiment_valid-IsTask}
use etc.Controller.Validation.Versions.{HasVersions, is_version_info_valid-HasVersions}
use etc.Controller.Reconcile.{reconcile_instance}
use etc.Controller.Reconcile.Returns.{IsInitialized, reconcile_instance-IsInitialized}
use etc.Controller.Metrics.{metric_key, read_metrics}
use etc.Controller.Metrics.Depth.{FindsOnly, read_metrics-returns}
use etc.Examples.Base.{
  test_cluster, waiting_experiment, running_experiment, two_versions, latency_criteria, env_of,
}

end_experiment-IsOver_example :
    RunsTo
      (λ (r : ReconcileResult) i. (r.requeue_after ≡ none) × IsOver i.status)
      (end_experiment ⦃cl = test_cluster⦄ "Experiment failed")
      (env_of running_experiment)
unfolding after
end_experiment-IsOver_example =
    end_experiment-IsOver ⦃cl = test_cluster⦄ "Experiment failed" running
      (env_of running_experiment) refl refl

abbrev new_experiment : Experiment
new_experiment = record waiting_experiment {
  status = record waiting_experiment.status { conditions = []; init_time = none; stage = none };
}

reconcile_instance-IsInitialized_example :
    RunsTo
      (λ (r : ReconcileResult) i. (r.requeue_after ≡ none) × IsInitialized 100 i.status)
      (reconcile_instance ⦃cl = test_cluster⦄)
      (env_of new_experiment)
reconcile_instance-IsInitialized_example =
    reconcile_instance-IsInitialized ⦃cl = test_cluster⦄ (env_of new_experiment) refl

-- An action whose one task has neither text.
abbrev bad_action : Experiment
bad_action = record waiting_experiment {
  spec = record waiting_experiment.spec {
    strategy = record waiting_experiment.spec.strategy {
      actions =
          ("start", record { task = none; run = none; condition = none; with_inputs = [] } ∷ [])
          ∷ [];
    };
  };
}

is_experiment_valid-IsTask_example :
    (is_experiment_valid bad_action ≡ true)
    ↔ All (λ entry. All IsTask entry.1) bad_action.spec.strategy.actions
is_experiment_valid-IsTask_example = is_experiment_valid-IsTask bad_action

-- A canary experiment with no candidate.
abbrev no_candidate : Experiment
no_candidate = record running_experiment {
  spec = record running_experiment.spec {
    version_info = some (record two_versions { candidates = [] });
  };
}

is_version_info_valid-HasVersions_example :
    ((is_version_info_valid ⦃cl = test_cluster⦄ (env_of no_candidate)).0 ≡ done true) ↔ (
      (v : VersionInfo) × (no_candidate.spec.version_info ≡ some v)
      × HasVersions no_candidate.spec v)
is_version_info_valid-HasVersions_example =
    is_version_info_valid-HasVersions ⦃cl = test_cluster⦄ (env_of no_candidate)

-- A metric that refers to itself.
abbrev cyclic : Metric
cyclic = record {
  name = "latency";
  namespace = "default";
  spec = record empty_metric_spec { sample_size = some "latency" };
}

abbrev metric_at : List Call → NamespacedName → Lookup Metric
metric_at t ref =
    if str_eq "default/latency" (metric_key ref) then Lookup.found cyclic else Lookup.not_found

abbrev metric_cluster : Cluster
metric_cluster = record test_cluster { metric = metric_at }

metric_cluster_finds : FindsOnly metric_cluster ("default/latency" ∷ [])
metric_cluster_finds t ref m h = elim (Bool-cases (str_eq "default/latency" (metric_key ref))) [
  | inl e ↦ inl ((eq_iff "default/latency" (metric_key ref)).0 e)
  | inr e ↦ absurd (missing (rw e at h))
]
  where
    missing : {A : Type 0} {a : A} → Lookup.not_found ≡ Lookup.found a → ⊥
    missing p = cc

read_metrics-returns_example :
    RunsTo (λ b i. Unit {0}) (read_metrics ⦃cl = metric_cluster⦄) (env_of waiting_experiment)
read_metrics-returns_example =
    read_metrics-returns ⦃cl = metric_cluster⦄ ("default/latency" ∷ []) latency_criteria
      (env_of waiting_experiment) metric_cluster_finds (omega arith) refl
