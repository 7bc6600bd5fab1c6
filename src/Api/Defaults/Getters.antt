-- ===== src/Api/Defaults/Getters.antt =====
-- api/v2alpha2/defaults.go: the getters, which answer the default where a spec says nothing.
use etc.Prelude.{ℕ, Bool, true, false, Option, none, some, String, length, if◌then◌else◌}
use etc.Prelude.Int.{ℤ, pos, ◌*ℤ◌}
use etc.Api.Constants.{DeploymentPatternType, progressive, blue_green}
use etc.Api.Types.{ExperimentSpec, Weights, Duration, Objective, VersionInfo}

abbrev pub default_start_handler : String
default_start_handler = "start"

abbrev pub default_finish_handler : String
default_finish_handler = "finish"

abbrev pub default_failure_handler : String
default_failure_handler = "finish"

abbrev pub default_rollback_handler : String
default_rollback_handler = "finish"

abbrev pub default_loop_handler : String
default_loop_handler = "loop"

abbrev pub default_max_candidate_weight : ℤ
default_max_candidate_weight = pos 100

abbrev pub default_max_candidate_weight_increment : ℤ
default_max_candidate_weight_increment = pos 10

abbrev pub default_deployment_pattern : DeploymentPatternType
default_deployment_pattern = progressive

abbrev pub default_interval_seconds : ℤ
default_interval_seconds = pos 20

abbrev pub default_iterations_per_loop : ℤ
default_iterations_per_loop = pos 15

abbrev pub default_max_loops : ℤ
default_max_loops = pos 1

-- A pointer's value, or the default where it is nil.
abbrev pub or_default {ℓ} : {A : Type ℓ} → Option A → A → A
or_default none d = d
or_default (some a) d = a

abbrev pub is_none {ℓ} : {A : Type ℓ} → Option A → Bool
is_none none = true
is_none (some a) = false

abbrev pub candidates_of : Option VersionInfo → ℕ
candidates_of none = 0
candidates_of (some v) = length v.candidates

unfoldable pub get_number_of_candidates : ExperimentSpec → ℕ
get_number_of_candidates s = candidates_of s.version_info

unfoldable pub has_baseline : ExperimentSpec → Bool
has_baseline s = elim s.version_info [ none ↦ false | some v ↦ true ]

unfoldable pub get_number_of_baseline : ExperimentSpec → ℕ
unfolding has_baseline
get_number_of_baseline s = if has_baseline s then 1 else 0

unfoldable pub get_start_handler : ExperimentSpec → String
get_start_handler s = default_start_handler

unfoldable pub get_finish_handler : ExperimentSpec → String
get_finish_handler s = default_finish_handler

unfoldable pub get_rollback_handler : ExperimentSpec → String
get_rollback_handler s = default_rollback_handler

unfoldable pub get_failure_handler : ExperimentSpec → String
get_failure_handler s = default_failure_handler

unfoldable pub get_loop_handler : ExperimentSpec → String
get_loop_handler s = default_loop_handler

abbrev pub max_weight_of : Option Weights → ℤ
max_weight_of none = default_max_candidate_weight
max_weight_of (some w) = or_default w.max_candidate_weight default_max_candidate_weight

unfoldable pub get_max_candidate_weight : ExperimentSpec → ℤ
get_max_candidate_weight s = max_weight_of s.strategy.weights

abbrev pub max_increment_of : Option Weights → ℤ
max_increment_of none = default_max_candidate_weight_increment
max_increment_of (some w) =
    or_default w.max_candidate_weight_increment default_max_candidate_weight_increment

unfoldable pub get_max_candidate_weight_increment : ExperimentSpec → ℤ
get_max_candidate_weight_increment s = max_increment_of s.strategy.weights

unfoldable pub get_deployment_pattern : ExperimentSpec → DeploymentPatternType
get_deployment_pattern s = or_default s.strategy.deployment_pattern default_deployment_pattern

abbrev pub interval_of : Option Duration → ℤ
interval_of none = default_interval_seconds
interval_of (some d) = or_default d.interval_seconds default_interval_seconds

unfoldable pub get_interval_seconds : ExperimentSpec → ℤ
get_interval_seconds s = interval_of s.duration

-- time.Second * time.Duration(n): an int64 of nanoseconds, which an int32 of seconds fits.
unfoldable pub get_interval_as_duration : ExperimentSpec → ℤ
unfolding get_interval_seconds ◌*ℤ◌
get_interval_as_duration s = pos 1000000000 *ℤ get_interval_seconds s

abbrev pub iterations_of : Option Duration → ℤ
iterations_of none = default_iterations_per_loop
iterations_of (some d) = or_default d.iterations_per_loop default_iterations_per_loop

unfoldable pub get_iterations_per_loop : ExperimentSpec → ℤ
get_iterations_per_loop s = iterations_of s.duration

abbrev pub max_loops_of : Option Duration → ℤ
max_loops_of none = default_max_loops
max_loops_of (some d) = or_default d.max_loops default_max_loops

unfoldable pub get_max_loops : ExperimentSpec → ℤ
get_max_loops s = max_loops_of s.duration

unfoldable pub get_request_count : ExperimentSpec → Option String
get_request_count s = elim s.criteria [ none ↦ none | some c ↦ c.request_count ]

abbrev pub is_blue_green : DeploymentPatternType → Bool
is_blue_green blue_green = true
is_blue_green _ = false

unfoldable pub get_rollback_on_failure : Objective → DeploymentPatternType → Bool
get_rollback_on_failure o p = or_default o.rollback_on_failure (is_blue_green p)
