-- ===== src/Examples/Logs.antt =====
-- The theorems on the debug and the assert command, on concrete logs.
use etc.Prelude.{
  ℕ, ◌≡◌, ◌≢◌, ◌↔◌, refl, Bool, true, false, Option, none, some, List, [], ◌∷◌, String, arith,
  if◌then◌else◌, str_eq, All,
}
use mathlib.Core.List.{Perm}
use mathlib.Core.List.Perm
use etc.Prelude.Int.{ℤ, pos, ltb_ℤ, ◌≤ℤ◌}
use etc.Controller.Effects.{Result, ok, done}
use etc.TaskRunner.Effects.{Iter8Log}
use etc.Iter8ctl.Commands.{assert_texts}
use etc.Iter8ctl.Commands.Holds.{Holds, assert_texts-Holds}
use etc.Iter8ctl.Debug.{IsSorted, Sorts, all_from_tr, selector, relevant_log, debug}
use etc.Iter8ctl.Debug.Sorted.{IsDebugOutput, LinesFromTr, debug-IsDebugOutput}
use etc.Examples.Base.{running_experiment}

insert_log : Iter8Log → List Iter8Log → List Iter8Log
insert_log il [] = il ∷ []
insert_log il (next ∷ ils) =
    let rest = insert_log il ils in
    if ltb_ℤ next.precedence il.precedence then next ∷ rest else il ∷ next ∷ ils

insertion_sort : List Iter8Log → List Iter8Log
unfolding insert_log
insertion_sort [] = []
insertion_sort (il ∷ ils) = insert_log il (insertion_sort ils)

insert_step-Perm :
    (il next : Iter8Log) (ils : List Iter8Log) (b : Bool)
    → Perm (insert_log il ils) (il ∷ ils)
    → Perm (if b then next ∷ insert_log il ils else il ∷ next ∷ ils) (il ∷ next ∷ ils)
insert_step-Perm il next ils true h = Perm.trans (Perm.cons next h) (Perm.swap il next ils)
insert_step-Perm il next ils false h = Perm.refl (il ∷ next ∷ ils)

insert_log-Perm : (il : Iter8Log) (ils : List Iter8Log) → Perm (insert_log il ils) (il ∷ ils)
unfolding insert_log
insert_log-Perm il [] = Perm.refl (il ∷ [])
insert_log-Perm il (next ∷ ils) =
    insert_step-Perm il next ils (ltb_ℤ next.precedence il.precedence) (insert_log-Perm il ils)

insertion_sort-Perm : (ils : List Iter8Log) → Perm (insertion_sort ils) ils
unfolding insertion_sort
insertion_sort-Perm [] = Perm.refl []
insertion_sort-Perm (il ∷ ils) =
    Perm.trans (insert_log-Perm il (insertion_sort ils)) (Perm.cons il (insertion_sort-Perm ils))

insert_after_step :
    (first il next : Iter8Log) (ils : List Iter8Log)
    → IsSorted (first ∷ next ∷ ils)
    → first.precedence ≤ℤ il.precedence
    → (b : Bool) → ltb_ℤ next.precedence il.precedence ≡ b
    → (next.precedence ≤ℤ il.precedence → IsSorted (next ∷ insert_log il ils))
    → IsSorted (first ∷ (if b then next ∷ insert_log il ils else il ∷ next ∷ ils))
unfolding IsSorted
insert_after_step first il next ils h le true e ih = (h.0, ih (ground arith))
insert_after_step first il next ils h le false e ih = (le, (ground arith, h.1))

-- The list with a log before it that stays the first.
insert_after :
    (first il : Iter8Log) (ils : List Iter8Log)
    → IsSorted (first ∷ ils)
    → first.precedence ≤ℤ il.precedence
    → IsSorted (first ∷ insert_log il ils)
unfolding insert_log IsSorted
insert_after first il [] h le = (le, tt)
insert_after first il (next ∷ ils) h le =
    insert_after_step first il next ils h le (ltb_ℤ next.precedence il.precedence) refl
      (insert_after next il ils h.1)

insert_first_step :
    (il next : Iter8Log) (ils : List Iter8Log)
    → IsSorted (next ∷ ils)
    → (b : Bool) → ltb_ℤ next.precedence il.precedence ≡ b
    → IsSorted (if b then next ∷ insert_log il ils else il ∷ next ∷ ils)
unfolding IsSorted
insert_first_step il next ils h true e = insert_after next il ils h (ground arith)
insert_first_step il next ils h false e = (ground arith, h)

insert_log-IsSorted :
    (il : Iter8Log) (ils : List Iter8Log) → IsSorted ils → IsSorted (insert_log il ils)
unfolding insert_log IsSorted
insert_log-IsSorted il [] h = tt
insert_log-IsSorted il (next ∷ ils) h =
    insert_first_step il next ils h (ltb_ℤ next.precedence il.precedence) refl

insertion_sort-IsSorted : (ils : List Iter8Log) → IsSorted (insertion_sort ils)
unfolding insertion_sort IsSorted
insertion_sort-IsSorted [] = tt
insertion_sort-IsSorted (il ∷ ils) =
    insert_log-IsSorted il (insertion_sort ils) (insertion_sort-IsSorted ils)

insertion_sort-Sorts : Sorts insertion_sort
insertion_sort-Sorts = record { permutes = insertion_sort-Perm; sorted = insertion_sort-IsSorted }

abbrev log_of : String → ℕ → ℤ → Iter8Log
log_of message priority precedence = record {
  is_iter8_log = true;
  experiment_name = "first";
  experiment_namespace = "default";
  source = "task-runner";
  priority = priority;
  message = message;
  precedence = precedence;
}

abbrev decoded : String → Option Iter8Log
decoded line =
    if str_eq line "loop"
    then some (log_of "loop" 3 (pos 1))
    else if str_eq line "start"
    then some (log_of "start" 1 (pos 0))
    else none

abbrev logs : String → Result (List String)
logs query = ok ("loop" ∷ "no json" ∷ "start" ∷ [])

logs-LinesFromTr : LinesFromTr decoded running_experiment 3 (logs (selector running_experiment))
unfolding LinesFromTr all_from_tr relevant_log
logs-LinesFromTr = refl

debug-IsDebugOutput_example :
    (r : Result (List Iter8Log)) × (debug decoded insertion_sort logs running_experiment 3 ≡ done r)
    × IsDebugOutput decoded running_experiment 3 (logs (selector running_experiment)) r
debug-IsDebugOutput_example =
    debug-IsDebugOutput decoded insertion_sort insertion_sort-Sorts running_experiment 3 logs
      (omega arith) (omega arith) logs-LinesFromTr

assert_texts-Holds_example : (assert_texts 12 running_experiment ("completed" ∷ []) ≡ none) ↔ (
    ◌≢◌ {A = List String} ("completed" ∷ []) []
    × All (Holds 12 running_experiment) ("completed" ∷ []))
assert_texts-Holds_example = assert_texts-Holds 12 running_experiment ("completed" ∷ [])
