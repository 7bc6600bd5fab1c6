-- ===== src/Examples/Tools.antt =====
-- The theorems on the command line tool, on concrete experiments.
use etc.Prelude.{
  ℕ, ◌≡◌, ◌↔◌, refl, true, Option, none, some, List, [], ◌∷◌, String, arith, if◌then◌else◌, ltb,
  lookup,
}
use etc.Prelude.Int.{ℤ, pos, negsuc}
use etc.Prelude.Text.{print_int, parse_int32}
use etc.Api.Constants.{higher}
use etc.Api.Types.{Reward, AggregatedMetricsAnalysis, Analysis, Experiment}
use etc.Controller.Effects.{Result, ok, done}
use etc.Iter8ctl.Effects.{Decimals, HasOrder, Returns}
use etc.Iter8ctl.Experiment.{get_versions, started}
use etc.Iter8ctl.Experiment.Assertions.{is_completed, found_winner, assert_}
use etc.Iter8ctl.Experiment.Assertions.Laws.{IsVerdict, assert-IsVerdict}
use etc.Iter8ctl.Experiment.Rewards.{get_annotated_metric_strs}
use etc.Iter8ctl.Experiment.Rewards.Best.{IsFirstBest}
use etc.Iter8ctl.Experiment.Rewards.Marked.{IsMarkedRow, get_annotated-IsFirstBest}
use etc.Iter8ctl.Describe.{builder, with_experiment, print_analysis}
use etc.Iter8ctl.Describe.Texts.Winner.{HasNamedWinner}
use etc.Iter8ctl.Describe.Returns.{print_analysis-Returns}
use etc.Examples.Base.{
  test_analysis, waiting_experiment, other_experiment, running_experiment, no_meta,
}

-- Natural numbers as decimals.
abbrev compare_numbers : ℕ → ℕ → ℤ
compare_numbers m n = if ltb m n then negsuc 0 else if ltb n m then pos 1 else pos 0

abbrev number_of : Option ℤ → ℕ
number_of (some (pos n)) = n
number_of _ = 0

abbrev numbers : Decimals
numbers = record {
  Decimal = ℕ;
  rounded = λ q. number_of (parse_int32 q);
  dec_text = λ n. print_int (pos n);
  cmp = compare_numbers;
}

numbers-HasOrder : HasOrder numbers
numbers-HasOrder = record {
  less_irrefl = λ x. ground arith;
  greater_less = λ x y. ground arith;
  less_trans = λ x y z h k. ground arith;
  less_weak = λ x y z h. ground arith;
}

abbrev value_metric : String → String → AggregatedMetricsAnalysis
value_metric stable next = record {
  meta = no_meta;
  content =
      (
        "sales",
        record {
          max = none;
          min = none;
          content =
              ("stable", record { max = none; min = none; value = some stable; sample_size = none })
              ∷ ("next", record { max = none; min = none; value = some next; sample_size = none })
              ∷ [];
        },
      )
      ∷ [];
}

abbrev sales_analysis : Analysis
sales_analysis = record test_analysis { aggregated_metrics = some (value_metric "5" "8") }

abbrev sales_experiment : Experiment
sales_experiment = record running_experiment {
  status = record running_experiment.status { analysis = some sales_analysis };
}

abbrev sales : Reward
sales = record { metric = "sales"; preferred_direction = higher }

abbrev sales_values : List (Option ℕ)
sales_values = some 5 ∷ some 8 ∷ []

get_annotated-IsFirstBest_example :
    (best : Option (ℕ × ℕ)) × (row : List String) × (get_annotated_metric_strs ⦃ds = numbers⦄
        sales_experiment sales
      ≡ done row)
    × IsFirstBest ⦃ds = numbers⦄ true sales_values best
    × IsMarkedRow ⦃ds = numbers⦄ sales_values best row
unfolding get_versions lookup parse_int32
get_annotated-IsFirstBest_example =
    get_annotated-IsFirstBest ⦃ds = numbers⦄ numbers-HasOrder sales_experiment sales_analysis sales
      refl

-- The row that is printed.
sales_row :
    get_annotated_metric_strs ⦃ds = numbers⦄ sales_experiment sales ≡ done ("5" ∷ "8 *" ∷ [])
unfolding get_annotated_metric_strs lookup parse_int32 print_int
sales_row = refl

abbrev listed : String → Result (List Experiment)
listed ns = ok (waiting_experiment ∷ other_experiment ∷ [])

assert-IsVerdict_example :
    IsVerdict 12
      (some running_experiment)
      (is_completed ∷ found_winner ∷ [])
      (assert_ 12 (some running_experiment) (is_completed ∷ found_winner ∷ []))
assert-IsVerdict_example =
    assert-IsVerdict 12 (some running_experiment) (is_completed ∷ found_winner ∷ [])

abbrev no_table : List String → List (List String) → String
no_table header rows = ""

print_analysis-Returns_example :
    Returns
      (print_analysis ⦃ds = numbers⦄ no_table (with_experiment (some sales_experiment) builder))
    ↔ (started (some sales_experiment) ≡ true → HasNamedWinner (some sales_analysis))
print_analysis-Returns_example = print_analysis-Returns ⦃ds = numbers⦄ no_table sales_experiment
