-- ===== src/Examples/Api.antt =====
-- The theorems on specs, statuses and stages, on concrete data.
use etc.Api.Defaults.{initialize_spec}
use etc.Api.Defaults.Laws.{IsLateInitialized, initialize_spec-IsLateInitialized}
use etc.Examples.Base.{test_spec}

initialize_spec-IsLateInitialized_example : IsLateInitialized test_spec (initialize_spec test_spec)
initialize_spec-IsLateInitialized_example = initialize_spec-IsLateInitialized test_spec
