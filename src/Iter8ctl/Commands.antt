-- ===== src/Iter8ctl/Commands.antt =====
-- iter8ctl/cmd: assert.go, describe.go and debug.go, the commands' arguments and their runs.
-- `experiment` is what GetExperiment answers for a choice and a namespace flag.
pub mod Holds
use etc.Prelude.{
  ℕ, Bool, true, false, Option, none, some, List, [], ◌∷◌, ◌++◌, String, str_eq, if◌then◌else◌,
}
use etc.Prelude.Text.{◌+++◌, is_empty}
use etc.Api.Types.{Time, Experiment}
use etc.Controller.Effects.{Outcome, done, panic, Result, ok, err}
use etc.Iter8ctl.Effects.{◌>>=◌, Decimals}
use etc.Iter8ctl.Experiment.{get_experiment}
use etc.Iter8ctl.Experiment.Assertions.{ConditionType, is_completed, found_winner, assert_}
use etc.Iter8ctl.Describe.{builder, with_experiment, print_analysis}

-- `latest`, and the name of the experiment.
unfoldable pub positional : List String → Outcome (Result (Bool × String))
positional [] = done (ok (true, ""))
positional (name ∷ []) = if is_empty name then panic else done (ok (false, name))
positional (name ∷ other ∷ names) = done (err "more than one positional argument supplied")

abbrev pub chosen : (Bool → String → Result Experiment) → Result (Bool × String) → Result Experiment
chosen experiment (err text) = err text
chosen experiment (ok (latest, name)) = experiment latest name

-- The common part of the three commands' Args.
unfoldable pub select_experiment :
    (Bool → String → Result Experiment) → List String → Outcome (Result Experiment)
unfolding ◌>>=◌ positional
select_experiment experiment args = do choice ← positional args; done (chosen experiment choice)

abbrev pub and_condition : ConditionType → Result (List ConditionType) → Result (List ConditionType)
and_condition c (err text) = err text
and_condition c (ok cs) = ok (c ∷ cs)

unfoldable pub parse_conditions : List String → Result (List ConditionType)
parse_conditions [] = ok []
parse_conditions (cond ∷ conditions) =
    let rest = parse_conditions conditions in
    if str_eq cond "completed"
    then and_condition is_completed rest
    else if str_eq cond "winnerFound"
    then and_condition found_winner rest
    else err ("Invalid condition: " +++ cond)

abbrev pub asserted : Time → Experiment → Result (List ConditionType) → Option String
asserted now e (err text) = some text
asserted now e (ok conds) = assert_ now (some e) conds

-- The conditions of the flag, for the experiment that was found. `none` prints that all are satisfied.
unfoldable pub assert_texts : Time → Experiment → List String → Option String
unfolding parse_conditions
assert_texts now e [] = some "one or more conditions must be specified with assert"
assert_texts now e (cond ∷ conditions) = asserted now e (parse_conditions (cond ∷ conditions))

abbrev assert_found : Time → List String → Result Experiment → Option String
assert_found now conditions (err text) = some text
assert_found now conditions (ok e) = assert_texts now e conditions

unfoldable pub assert_command :
    Time → (Bool → String → Result Experiment) → List String → List String → Outcome (Option String)
unfolding ◌>>=◌ select_experiment assert_texts
assert_command now experiment args conditions = do
  answer ← select_experiment experiment args
  done (assert_found now conditions answer)

module _ ⦃ds : Decimals⦄ (render : List String → List (List String) → String) where
  abbrev describe_found : Result Experiment → Outcome (Result (Option String))
  describe_found (err text) = done (err text)
  describe_found (ok e) = do
    printed ← print_analysis render (with_experiment (some e) builder)
    done (ok printed.1)

  -- The error of Args, or the text that is printed.
  unfoldable pub describe_command :
      (Bool → String → Result Experiment) → List String → Outcome (Result (Option String))
  unfolding ◌>>=◌ select_experiment print_analysis with_experiment
  describe_command experiment args = do
    answer ← select_experiment experiment args
    describe_found answer
