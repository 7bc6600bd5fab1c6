-- ===== src/Iter8ctl/Experiment/Assertions.antt =====
-- Assert of iter8ctl/experiment/experiment.go.
pub mod Laws
use etc.Prelude.{
  ◌≡◌, refl, Bool, true, false, Option, none, some, List, [], ◌∷◌, String, if◌then◌else◌,
}
use etc.Api.Types.{Time, Experiment}
use etc.Iter8ctl.Experiment.{completed, winner_found}

pub data ConditionType : Type 0 where
  is_completed found_winner : ConditionType
  other : String → ConditionType

-- The error of one condition; nil is `none`.
unfoldable pub condition_error : Time → Option Experiment → ConditionType → Option String
unfolding completed winner_found
condition_error now e is_completed =
    if completed now e then none else some "experiment has not completed"
condition_error now e found_winner =
    if winner_found e then none else some "no winner found in experiment"
condition_error now e (other text) = some "unsupported condition found in assertion"

unfoldable pub assert_ : Time → Option Experiment → List ConditionType → Option String
unfolding condition_error
assert_ now e [] = none
assert_ now e (c ∷ cs) =
    let rest = assert_ now e cs in
    elim (condition_error now e c) [ none ↦ rest | some text ↦ some text ]
