-- ===== src/TaskRunner/Collect/Aggregate.antt =====
-- taskrunner/tasks/collect/collect.go: the results of Fortio runs, and how they are aggregated.
use etc.Prelude.{Option, none, some, List, [], ◌∷◌, ◌++◌, String, lookup, insert}
use etc.Prelude.Int.{ℤ, pos, ◌+ℤ◌, wrap64}
use etc.Api.Types.{Json}
use etc.Controller.Effects.{Result}
use etc.TaskRunner.Effects.{Call}

-- A Fortio run: F is float64. A pointer in a map of results is never nil.
pub record DurationSample (F : Type 0) : Type 0 where
  pub start : F
  pub end_ : F
  pub count : ℤ

pub record DurationHist (F : Type 0) : Type 0 where
  pub count : ℤ
  pub max : F
  pub sum : F
  pub samples : List (DurationSample F)

abbrev pub Codes : Type 0
Codes = List (String × ℤ)

pub record RunResult (F : Type 0) : Type 0 where
  pub duration_histogram : DurationHist F
  pub ret_codes : Option Codes

abbrev pub Results : Type 0 → Type 0
Results F = List (String × RunResult F)

pub record Fortio : Type 1 where
  pub Float : Type 0
  pub add : Float → Float → Float
  pub max_of : Float → Float → Float
  pub default_qps : Float
  pub print_f : Float → String
  pub quote : String → String
  pub output : List Call → Result (RunResult Float)
  pub decode_results : Json → Option (Results Float)
  pub encode_results : Option (Results Float) → Json

-- old[key] += n, for a key of the map.
abbrev pub count_or_zero : Option ℤ → ℤ
count_or_zero none = pos 0
count_or_zero (some n) = n

unfoldable pub add_count : String → ℤ → Codes → Codes
add_count key n codes = insert key (wrap64 (count_or_zero (lookup key codes) +ℤ n)) codes

unfoldable pub add_ret_codes : Codes → Codes → Codes
unfolding add_count
add_ret_codes old [] = old
add_ret_codes old (entry ∷ entries) = add_ret_codes (add_count entry.0 entry.1 old) entries

abbrev pub added_codes : Option Codes → Option Codes → Option Codes
added_codes none new = new
added_codes (some old) none = some old
added_codes (some old) (some new) = some (add_ret_codes old new)

module _ ⦃fo : Fortio⦄ where
  unfoldable pub merge : RunResult fo.Float → RunResult fo.Float → RunResult fo.Float
  unfolding add_ret_codes
  merge old new =
      let h = old.duration_histogram in
      let k = new.duration_histogram in
      record {
        duration_histogram = record {
          count = wrap64 (h.count +ℤ k.count);
          max = fo.max_of h.max k.max;
          sum = fo.add h.sum k.sum;
          samples = h.samples ++ k.samples;
        };
        ret_codes = added_codes old.ret_codes new.ret_codes;
      }

  abbrev pub merge_found : Option (RunResult fo.Float) → RunResult fo.Float → RunResult fo.Float
  merge_found none new = new
  merge_found (some old) new = merge old new

  unfoldable pub aggregate :
      Option (Results fo.Float) → String → RunResult fo.Float → Results fo.Float
  unfolding merge
  aggregate none version new = (version, new) ∷ []
  aggregate (some old) version new = insert version (merge_found (lookup version old) new) old
