-- ===== src/Api/Defaults.antt =====
-- api/v2alpha2/defaults.go: late initialization, which writes the defaults into a spec; the getters
-- are in Getters.
pub mod Getters
pub mod Laws
use etc.Prelude.{
  ℕ, zero, suc, Bool, true, false, Option, none, some, List, [], ◌∷◌, String, length, ◌&&◌,
  if◌then◌else◌,
}
use etc.Prelude.Int.{ℤ, pos, ◌*ℤ◌}
use etc.Api.Constants.{DeploymentPatternType, progressive, blue_green}
use etc.Api.Types.{ExperimentSpec, Strategy, Weights, Duration, Criteria, Objective, VersionInfo}
use etc.Api.Defaults.Getters.{
  default_start_handler, default_finish_handler, default_failure_handler, default_rollback_handler,
  default_loop_handler, default_max_candidate_weight, default_max_candidate_weight_increment,
  default_deployment_pattern, default_interval_seconds, default_iterations_per_loop,
  default_max_loops, or_default, is_none, candidates_of, get_number_of_candidates, has_baseline,
  get_number_of_baseline, get_start_handler, get_finish_handler, get_rollback_handler,
  get_failure_handler, get_loop_handler, max_weight_of, get_max_candidate_weight, max_increment_of,
  get_max_candidate_weight_increment, get_deployment_pattern, interval_of, get_interval_seconds,
  get_interval_as_duration, iterations_of, get_iterations_per_loop, max_loops_of, get_max_loops,
  get_request_count, is_blue_green, get_rollback_on_failure,
}

-- &Weights{}
abbrev pub no_weights : Weights
no_weights = record { max_candidate_weight = none; max_candidate_weight_increment = none }

-- s.Strategy.Weights = w
abbrev set_weights : ExperimentSpec → Weights → ExperimentSpec
set_weights s w = record s { strategy = record s.strategy { weights = some w } }

unfoldable pub initialize_max_candidate_weight : ExperimentSpec → ExperimentSpec
unfolding get_max_candidate_weight
initialize_max_candidate_weight s =
    let w = or_default s.strategy.weights no_weights in
    let s' = set_weights s w in
    elim w.max_candidate_weight [
      | none ↦
          set_weights s' (record w { max_candidate_weight = some (get_max_candidate_weight s') })
      | some x ↦ s'
    ]

unfoldable pub initialize_max_candidate_weight_increment : ExperimentSpec → ExperimentSpec
unfolding get_max_candidate_weight_increment
initialize_max_candidate_weight_increment s =
    let w = or_default s.strategy.weights no_weights in
    let s' = set_weights s w in
    elim w.max_candidate_weight_increment [
      | none ↦ set_weights s' (record w {
        max_candidate_weight_increment = some (get_max_candidate_weight_increment s');
      })
      | some x ↦ s'
    ]

unfoldable pub initialize_deployment_pattern : ExperimentSpec → ExperimentSpec
unfolding get_deployment_pattern
initialize_deployment_pattern s = elim s.strategy.deployment_pattern [
  | none ↦ record s {
    strategy = record s.strategy { deployment_pattern = some (get_deployment_pattern s) };
  }
  | some p ↦ s
]

unfoldable pub initialize_weights : ExperimentSpec → ExperimentSpec
unfolding initialize_max_candidate_weight initialize_max_candidate_weight_increment
    initialize_deployment_pattern
initialize_weights s =
    initialize_deployment_pattern
      (initialize_max_candidate_weight_increment (initialize_max_candidate_weight s))

-- &Duration{}
abbrev pub no_duration : Duration
no_duration = record { interval_seconds = none; iterations_per_loop = none; max_loops = none }

unfoldable pub initialize_interval : ExperimentSpec → ExperimentSpec
initialize_interval s =
    let d = or_default s.duration no_duration in
    elim d.interval_seconds [
      | none ↦ record s {
        duration = some (record d { interval_seconds = some default_interval_seconds });
      }
      | some x ↦ record s { duration = some d }
    ]

unfoldable pub initialize_iterations_per_loop : ExperimentSpec → ExperimentSpec
unfolding get_iterations_per_loop
initialize_iterations_per_loop s =
    let d = or_default s.duration no_duration in
    let s' = record s { duration = some d } in
    elim d.iterations_per_loop [
      | none ↦ record s' {
        duration = some (record d { iterations_per_loop = some (get_iterations_per_loop s') });
      }
      | some x ↦ s'
    ]

unfoldable pub initialize_max_loops : ExperimentSpec → ExperimentSpec
unfolding get_max_loops
initialize_max_loops s =
    let d = or_default s.duration no_duration in
    let s' = record s { duration = some d } in
    elim d.max_loops [
      | none ↦ record s' { duration = some (record d { max_loops = some (get_max_loops s') }) }
      | some x ↦ s'
    ]

unfoldable pub initialize_duration : ExperimentSpec → ExperimentSpec
unfolding initialize_interval initialize_iterations_per_loop initialize_max_loops
initialize_duration s =
    initialize_max_loops (initialize_iterations_per_loop (initialize_interval s))

unfoldable pub initialize_request_count : ExperimentSpec → ExperimentSpec
unfolding get_request_count
initialize_request_count s = elim s.criteria [
  | none ↦ s
  | some c ↦ elim c.request_count [
    | none ↦ record s { criteria = some (record c { request_count = get_request_count s }) }
    | some r ↦ s
  ]
]

-- The body of the loop of `InitializeObjectives`. `o` is the loop's own copy of the element.
initialize_objective : ExperimentSpec → Objective → Objective
unfolding get_deployment_pattern
initialize_objective s o =
    if is_blue_green (get_deployment_pattern s) && is_none o.rollback_on_failure
    then record o { rollback_on_failure = some true }
    else o

-- `for _, o := range objectives { … }`: each round writes to a copy, and the copy is dropped.
range_objectives : ExperimentSpec → List Objective → List Objective
range_objectives s [] = []
range_objectives s (o ∷ os) = let copy = initialize_objective s o in o ∷ range_objectives s os

unfoldable pub initialize_objectives : ExperimentSpec → ExperimentSpec
unfolding range_objectives initialize_objective
initialize_objectives s = elim s.criteria [
  | none ↦ s
  | some c ↦ record s {
    criteria = some (record c { objectives = range_objectives s c.objectives });
  }
]

unfoldable pub initialize_criteria : ExperimentSpec → ExperimentSpec
initialize_criteria s = elim s.criteria [
  | none ↦ s
  | some c ↦ initialize_objectives (initialize_request_count s)
]

unfoldable pub initialize_spec : ExperimentSpec → ExperimentSpec
initialize_spec s = initialize_criteria (initialize_duration (initialize_weights s))
