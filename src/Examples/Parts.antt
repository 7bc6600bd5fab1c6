-- ===== src/Examples/Parts.antt =====
-- The theorems on the parts of the controller, on concrete data.
use etc.Prelude.{◌+◌, ◌*◌, ◌<◌, ◌≡◌, refl, true, false, none, some, [], ◌∷◌, ◌↔◌, arith}
use etc.Prelude.Int.{pos}
use etc.Prelude.Text.{parse_int32}
use etc.Api.Types.{Experiment, VersionInfo}
use etc.Api.Defaults.Getters.{
  get_iterations_per_loop, get_max_loops, get_interval_seconds, get_deployment_pattern,
  get_rollback_on_failure,
}
use etc.Controller.Effects.{done, ◌>>=◌, pure, gets, deref, ask, set_status}
use etc.Controller.Weights.{
  update_observed_weights, update_of, observe_versions, observe_version, observe_ref,
  observe_weight, get_dynamic_resource_interface, assign_weights, assign_missing,
}
use etc.Controller.Weights.Totals.{OneMissing, update_observed_weights_total}
use etc.Controller.Effects.RunsTo.{RunsTo}
use etc.Controller.Weights.{add_patches}
use etc.Controller.Weights.Wanted.{AddsAll}
use etc.Controller.Weights.Patches.{add_patches-AddsAll}
use etc.Api.Types.{WeightsAnalysis, Analysis}
use etc.Controller.Validation.{versions_unique}
use etc.Controller.Validation.Names.{Distinct, versions_unique-Distinct}
use etc.Controller.Iterate.{
  more_iterations_needed, sufficient_time_passed, must_rollback, versions_must_rollback,
  failing_from, failing_versions, assessments_of,
}
use etc.Controller.Iterate.Schedule.{more_iterations_needed_exact, sufficient_time_passed_exact}
use etc.Controller.Iterate.Rollback.{Satisfied, must_rollback-Satisfied}
use etc.Examples.Base.{
  test_cluster, two_versions, baseline_version, candidate_version, weight_ref, waiting_experiment,
  running_experiment, env_of, latency_criteria, test_analysis, assessments,
}

weights_read :
    (update_observed_weights ⦃cl = test_cluster⦄ (env_of waiting_experiment)).0 ≡ done none
unfolding update_observed_weights update_of observe_versions observe_version observe_ref
    observe_weight get_dynamic_resource_interface assign_weights assign_missing ◌>>=◌ pure gets
    deref ask set_status parse_int32
weights_read = refl

-- The candidate has weight 30, and the baseline, which refers to no weight, gets 70.
update_observed_weights_total_example :
    OneMissing
      (baseline_version ∷ candidate_version ∷ [])
      "stable"
      (update_observed_weights ⦃cl = test_cluster⦄ (env_of waiting_experiment)).1.instance_.status
update_observed_weights_total_example =
    update_observed_weights_total ⦃cl = test_cluster⦄ (env_of waiting_experiment) two_versions
      "stable" refl refl weights_read

abbrev read_versions : VersionInfo
read_versions = record two_versions {
  baseline = record baseline_version { weight_obj_ref = some weight_ref };
}

abbrev read_experiment : Experiment
read_experiment = record waiting_experiment {
  spec = record waiting_experiment.spec { version_info = some read_versions };
}

all_read : (update_observed_weights ⦃cl = test_cluster⦄ (env_of read_experiment)).0 ≡ done none
unfolding update_observed_weights update_of observe_versions observe_version observe_ref
    observe_weight get_dynamic_resource_interface assign_weights assign_missing ◌>>=◌ pure gets
    deref ask set_status parse_int32
all_read = refl

versions_unique-Distinct_example :
    (versions_unique two_versions ≡ true) ↔ Distinct (baseline_version ∷ candidate_version ∷ [])
versions_unique-Distinct_example = versions_unique-Distinct two_versions

-- Four iterations in each of two loops.
more_iterations_needed_exact_example :
    (more_iterations_needed running_experiment (pos 3) ≡ true) ↔ (3 < 8)
unfolding get_iterations_per_loop get_max_loops
more_iterations_needed_exact_example =
    more_iterations_needed_exact running_experiment 4 2 3 refl refl (omega arith)

sufficient_time_passed_exact_example :
    (sufficient_time_passed 9900000051 running_experiment (pos 3) ≡ true)
    ↔ (50 + 1000000000 * 10 < 9900000051 + 100000000)
unfolding get_interval_seconds
sufficient_time_passed_exact_example =
    sufficient_time_passed_exact running_experiment 9900000051 50 10 2 refl refl

-- The candidate fails the objective, which asks for a rollback.
rollback_needed : (must_rollback (env_of running_experiment)).0 ≡ done true
unfolding must_rollback versions_must_rollback failing_from failing_versions assessments_of
    get_deployment_pattern get_rollback_on_failure ◌>>=◌ pure gets deref
rollback_needed = refl

must_rollback-Satisfied_example :
    (true ≡ false) ↔ Satisfied running_experiment 0 latency_criteria.objectives assessments.content
must_rollback-Satisfied_example =
    must_rollback-Satisfied (env_of running_experiment) latency_criteria test_analysis assessments
      true refl refl refl rollback_needed

abbrev weighed : WeightsAnalysis
weighed = record {
  meta = record { provenance = ""; timestamp = 0; message = none };
  content = record { name = "next"; value = pos 40 } ∷ [];
}

abbrev weighed_analysis : Analysis
weighed_analysis = record test_analysis { weights = some weighed }

abbrev weighed_experiment : Experiment
weighed_experiment = record running_experiment {
  status = record running_experiment.status { analysis = some weighed_analysis };
}

add_patches-AddsAll_example :
    RunsTo
      (λ r i.
        AddsAll weighed.content [] (baseline_version ∷ candidate_version ∷ []) [] r
        × (i ≡ weighed_experiment))
      (add_patches (baseline_version ∷ candidate_version ∷ []) [])
      (env_of weighed_experiment)
add_patches-AddsAll_example =
    add_patches-AddsAll (baseline_version ∷ candidate_version ∷ []) (env_of weighed_experiment)
      weighed_analysis weighed refl refl
