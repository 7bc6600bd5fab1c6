-- ===== src/Api/Defaults/Laws.antt =====
-- Late initialization of a spec: api/v2alpha2/defaults.go, InitializeSpec and the getters.
use etc.Prelude.{◌≡◌, refl, ap, some, List, [], ◌∷◌, arith}
use etc.Api.Types.{ExperimentSpec, Objective}
use etc.Api.Defaults.{
  range_objectives, initialize_request_count, initialize_objectives, initialize_criteria,
  initialize_weights, initialize_duration, initialize_spec,
}
use etc.Api.Defaults.Getters.{
  get_max_candidate_weight, get_max_candidate_weight_increment, get_deployment_pattern,
  get_interval_seconds, get_iterations_per_loop, get_max_loops,
}

range_objectives_id : (s : ExperimentSpec) (os : List Objective) → range_objectives s os ≡ os
unfolding range_objectives
range_objectives_id s [] = refl
range_objectives_id s (o ∷ os) = ap (λ t. o ∷ t) (range_objectives_id s os)

initialize_request_count_id : (s : ExperimentSpec) → initialize_request_count s ≡ s
unfolding initialize_request_count
initialize_request_count_id s = ground arith

initialize_objectives_id : (s : ExperimentSpec) → initialize_objectives s ≡ s
unfolding initialize_objectives
initialize_objectives_id s = grind (arith, range_objectives_id)

initialize_criteria_id : (s : ExperimentSpec) → initialize_criteria s ≡ s
unfolding initialize_criteria
initialize_criteria_id s = ground (arith, initialize_request_count_id s, initialize_objectives_id s)

-- Late initialization fills in exactly what the getters answer: after it every field that has a
-- default is present and equal to what the getter of the original spec returned, and all that has
-- no default is as it was.
pub record IsLateInitialized (s t : ExperimentSpec) : Type 0 where
  pub target : t.target ≡ s.target
  pub version_info : t.version_info ≡ s.version_info
  pub criteria : t.criteria ≡ s.criteria
  pub testing_pattern : t.strategy.testing_pattern ≡ s.strategy.testing_pattern
  pub actions : t.strategy.actions ≡ s.strategy.actions
  pub deployment_pattern : t.strategy.deployment_pattern ≡ some (get_deployment_pattern s)
  pub weights :
      t.strategy.weights
      ≡ some (record {
        max_candidate_weight = some (get_max_candidate_weight s);
        max_candidate_weight_increment = some (get_max_candidate_weight_increment s);
      })
  pub duration :
      t.duration
      ≡ some (record {
        interval_seconds = some (get_interval_seconds s);
        iterations_per_loop = some (get_iterations_per_loop s);
        max_loops = some (get_max_loops s);
      })

weights_filled :
    (s : ExperimentSpec)
    → (initialize_weights s).strategy ≡ record s.strategy {
      deployment_pattern = some (get_deployment_pattern s);
      weights = some (record {
        max_candidate_weight = some (get_max_candidate_weight s);
        max_candidate_weight_increment = some (get_max_candidate_weight_increment s);
      });
    }
unfolding initialize_weights get_max_candidate_weight get_max_candidate_weight_increment
    get_deployment_pattern
weights_filled s = ground arith

weights_only :
    (s : ExperimentSpec)
    → initialize_weights s ≡ record s { strategy = (initialize_weights s).strategy }
unfolding initialize_weights
weights_only s = ground arith

duration_filled :
    (s : ExperimentSpec)
    → initialize_duration s ≡ record s {
      duration = some (record {
        interval_seconds = some (get_interval_seconds s);
        iterations_per_loop = some (get_iterations_per_loop s);
        max_loops = some (get_max_loops s);
      });
    }
unfolding initialize_duration get_interval_seconds get_iterations_per_loop get_max_loops
duration_filled s = ground arith

-- Late initialization writes what the getters of the original spec answer into the fields that have
-- a default, and changes nothing else; in particular the criteria stay as they are.
pub initialize_spec-IsLateInitialized :
    (s : ExperimentSpec) → IsLateInitialized s (initialize_spec s)
unfolding initialize_spec get_interval_seconds get_iterations_per_loop get_max_loops
initialize_spec-IsLateInitialized s = ground (
  arith,
  initialize_criteria_id (initialize_duration (initialize_weights s)),
  duration_filled (initialize_weights s),
  weights_only s,
  weights_filled s,
)

-- The answers of the getters that the controller asks.
pub record SameAnswers (s t : ExperimentSpec) : Type 0 where
  pub max_candidate_weight : get_max_candidate_weight t ≡ get_max_candidate_weight s
  pub max_increment : get_max_candidate_weight_increment t ≡ get_max_candidate_weight_increment s
  pub deployment_pattern : get_deployment_pattern t ≡ get_deployment_pattern s
  pub interval_seconds : get_interval_seconds t ≡ get_interval_seconds s
  pub iterations_per_loop : get_iterations_per_loop t ≡ get_iterations_per_loop s
  pub max_loops : get_max_loops t ≡ get_max_loops s

pub SameAnswers-of : {s t : ExperimentSpec} → IsLateInitialized s t → SameAnswers s t
unfolding get_interval_seconds get_iterations_per_loop get_max_loops get_max_candidate_weight
    get_max_candidate_weight_increment get_deployment_pattern
SameAnswers-of h = ground arith

-- No getter of a default answers differently after late initialization.
pub initialize_spec-SameAnswers : (s : ExperimentSpec) → SameAnswers s (initialize_spec s)
initialize_spec-SameAnswers s = SameAnswers-of (initialize_spec-IsLateInitialized s)

determined : {s t u : ExperimentSpec} → IsLateInitialized s t → IsLateInitialized t u → u ≡ t
determined h k = ground (arith, SameAnswers-of h)

-- A second late initialization changes nothing.
pub initialize_spec_idempotent :
    (s : ExperimentSpec) → initialize_spec (initialize_spec s) ≡ initialize_spec s
initialize_spec_idempotent s =
    determined (initialize_spec-IsLateInitialized s)
      (initialize_spec-IsLateInitialized (initialize_spec s))
