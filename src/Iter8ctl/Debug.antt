-- ===== src/Iter8ctl/Debug.antt =====
-- iter8ctl/debug/debug.go and iter8ctl/utils/utils.go: the logs of an experiment's task runner jobs.
-- kubectl, JSON and the order that sort.Sort chooses among equal elements are parameters.
pub mod Sorted
use etc.Prelude.{
  ℕ, zero, suc, ◌≡◌, ◌≤◌, Bool, true, false, ◌&&◌, ◌||◌, Option, none, some, List, [], ◌∷◌, ◌++◌,
  String, str_eq, if◌then◌else◌, leb, ltb, length,
}
use Prim.Native.Char.{Char, code}
use mathlib.Core.List.{Perm}
use etc.Prelude.Int.{ℤ, ◌≤ℤ◌}
use etc.Prelude.Text.{◌+++◌, is_empty, split}
use etc.Api.Types.{Experiment}
use etc.Controller.Effects.{Outcome, done, panic, Result, ok, err}
use etc.TaskRunner.Effects.{Iter8Log}
use etc.Iter8ctl.Effects.{◌>>=◌}

abbrev source_tr : String
source_tr = "task-runner"

-- The elements that are compared have to come from the task runner.
unfoldable pub all_from_tr : List Iter8Log → Bool
all_from_tr [] = true
all_from_tr (il ∷ ils) = str_eq il.source source_tr && all_from_tr ils

-- sort.Sort(byPrecedence(ils)), by a function `sort`. Less panics on another source, and each element
-- of two or more is compared.
unfoldable pub sort_logs : (List Iter8Log → List Iter8Log) → List Iter8Log → Outcome (List Iter8Log)
unfolding all_from_tr
sort_logs sort ils = if all_from_tr ils || leb (length ils) 1 then done (sort ils) else panic

-- Each log is followed by one of the same precedence or a higher one.
unfoldable pub IsSorted : List Iter8Log → Type 0
IsSorted [] = Unit {0}
IsSorted (il ∷ []) = Unit {0}
IsSorted (il ∷ next ∷ ils) = (il.precedence ≤ℤ next.precedence) × IsSorted (next ∷ ils)

-- What the documentation of sort.Sort says: it sorts in ascending order, and is not stable.
pub record Sorts (sort : List Iter8Log → List Iter8Log) : Type 0 where
  pub permutes : (ils : List Iter8Log) → Perm (sort ils) ils
  pub sorted : (ils : List Iter8Log) → IsSorted (sort ils)

abbrev pub selector : Experiment → String
selector e =
    "iter8/experimentName=" +++ (e.name +++ (",iter8/experimentNamespace=" +++ e.namespace))

unfoldable pub is_relevant : Experiment → ℕ → Iter8Log → Bool
is_relevant e priority il =
    il.is_iter8_log
    && str_eq il.experiment_name e.name
    && str_eq il.experiment_namespace e.namespace
    && leb il.priority priority

-- A line that is no JSON, or not of this type, is skipped. `decoded` reads a line.
unfoldable pub relevant_log : (String → Option Iter8Log) → Experiment → ℕ → String → List Iter8Log
unfolding is_relevant
relevant_log decoded e priority line = elim (decoded line) [
  | none ↦ []
  | some il ↦ if is_relevant e priority il then il ∷ [] else []
]

-- The logs are sorted after every line.
unfoldable pub scan :
    (String → Option Iter8Log)
    → (List Iter8Log → List Iter8Log)
    → Experiment
    → ℕ
    → List String
    → List Iter8Log
    → Outcome (List Iter8Log)
unfolding ◌>>=◌ relevant_log sort_logs
scan decoded sort e priority [] ils = done ils
scan decoded sort e priority (line ∷ lines) ils =
    sort_logs sort (ils ++ relevant_log decoded e priority line)
    >>= scan decoded sort e priority lines

abbrev pub ok_of : Outcome (List Iter8Log) → Outcome (Result (List Iter8Log))
ok_of panic = panic
ok_of (done ils) = done (ok ils)

abbrev pub scanned :
    (String → Option Iter8Log)
    → (List Iter8Log → List Iter8Log)
    → Experiment
    → ℕ
    → Result (List String)
    → Outcome (Result (List Iter8Log))
scanned decoded sort e priority (err text) = done (err text)
scanned decoded sort e priority (ok lines) = ok_of (scan decoded sort e priority lines [])

-- `logs` is the output of kubectl for a selector, in the lines of bufio.Scanner, which end before the
-- first one that is longer than its buffer. A priority is a uint8.
unfoldable pub debug :
    (String → Option Iter8Log)
    → (List Iter8Log → List Iter8Log)
    → (String → Result (List String))
    → Experiment
    → ℕ
    → Outcome (Result (List Iter8Log))
unfolding scan
debug decoded sort logs e priority =
    if ltb priority 1 || ltb 3 priority
    then done (err "priority can only be set to 1, 2, or 3")
    else scanned decoded sort e priority (logs (selector e))
