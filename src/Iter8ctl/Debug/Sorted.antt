-- ===== src/Iter8ctl/Debug/Sorted.antt =====
-- Debug of iter8ctl/debug/debug.go: which logs it gives, and in which order.
use etc.Prelude.{
  ℕ, ◌≡◌, ◌≤◌, refl, sym, ap, ◌∙◌, Bool, true, false, ◌&&◌, ◌||◌, Option, List, [], ◌∷◌, ◌++◌,
  String, str_eq, if◌then◌else◌, arith, leb, ltb, length,
}
use mathlib.Core.Path.{subst}
use mathlib.Core.List.{Perm, Permᴰ, append_assoc, append-nil}
use mathlib.Core.Logic.{∥∥₁_elim}
use mathlib.Core.Bool.{Bool-set}
use mathlib.Core.List.Perm
use etc.Api.Types.{Experiment}
use etc.Controller.Effects.{done, panic, Result, ok, err}
use etc.TaskRunner.Effects.{Iter8Log}
use etc.Iter8ctl.Effects.{◌>>=◌}
use etc.Iter8ctl.Debug.{
  all_from_tr, sort_logs, IsSorted, Sorts, selector, relevant_log, scan, scanned, ok_of, debug,
}

-- The relevant logs of all lines, in their order.
unfoldable pub relevant_logs :
    (String → Option Iter8Log) → Experiment → ℕ → List String → List Iter8Log
relevant_logs decoded e priority [] = []
relevant_logs decoded e priority (line ∷ lines) =
    relevant_log decoded e priority line ++ relevant_logs decoded e priority lines

-- Each log comes from the task runner.
abbrev pub AreFromTr : List Iter8Log → Type 0
AreFromTr ils = all_from_tr ils ≡ true

abbrev from_tr : Iter8Log → Bool
from_tr il = str_eq il.source "task-runner"

and_swap : (x y r : Bool) → (x && (y && r)) ≡ (y && (x && r))
and_swap x y r = ground arith

Permᴰ-all_from_tr : {ils ils' : List Iter8Log} → Permᴰ ils ils' → all_from_tr ils ≡ all_from_tr ils'
unfolding all_from_tr
Permᴰ-all_from_tr Permᴰ.nil = refl
Permᴰ-all_from_tr (Permᴰ.cons {a} {b} {l₁} {l₂} e d) =
    ap (λ x. from_tr x && all_from_tr l₁) e ∙ ap (λ r. from_tr b && r) (Permᴰ-all_from_tr d)
Permᴰ-all_from_tr (Permᴰ.swap {a} {b} {a'} {b'} {l} e₁ e₂) =
    ap (λ x. from_tr x && (from_tr b && all_from_tr l)) e₁
    ∙ ap (λ y. from_tr b' && (from_tr y && all_from_tr l)) e₂
    ∙ and_swap (from_tr b') (from_tr a') (all_from_tr l)
Permᴰ-all_from_tr (Permᴰ.trans d₁ d₂) = Permᴰ-all_from_tr d₁ ∙ Permᴰ-all_from_tr d₂

Perm-AreFromTr : {ils ils' : List Iter8Log} → Perm ils ils' → AreFromTr ils' → AreFromTr ils
Perm-AreFromTr p h = ∥∥₁_elim p (Bool-set _ _) (λ d. Permᴰ-all_from_tr d ∙ h)

AreFromTr-append :
    (ils ils' : List Iter8Log) → AreFromTr ils → AreFromTr ils' → AreFromTr (ils ++ ils')
unfolding all_from_tr
AreFromTr-append [] ils' h k = k
AreFromTr-append (il ∷ ils) ils' h k = ground (arith, AreFromTr-append ils ils')

append-AreFromTr :
    (ils ils' : List Iter8Log) → AreFromTr (ils ++ ils') → AreFromTr ils × AreFromTr ils'
unfolding all_from_tr
append-AreFromTr [] ils' h = (refl, h)
append-AreFromTr (il ∷ ils) ils' h = ground (arith, append-AreFromTr ils ils')

module _ (decoded : String → Option Iter8Log) (e : Experiment) (priority : ℕ) where
  -- What kubectl gave, or its error.
  unfoldable pub IsDebugOutput : Result (List String) → Result (List Iter8Log) → Type 0
  unfolding relevant_logs
  IsDebugOutput (err text) r = r ≡ err text
  IsDebugOutput (ok lines) r =
      (ils : List Iter8Log) × (r ≡ ok ils)
      × Perm ils (relevant_logs decoded e priority lines)
      × IsSorted ils

  unfoldable pub LinesFromTr : Result (List String) → Type 0
  unfolding relevant_logs
  LinesFromTr (err text) = Unit {0}
  LinesFromTr (ok lines) = AreFromTr (relevant_logs decoded e priority lines)

module _ (decoded : String → Option Iter8Log) (sort : List Iter8Log → List Iter8Log)
    (sorts : Sorts sort) (e : Experiment) (priority : ℕ) where
  sort_logs-done : (ils : List Iter8Log) → AreFromTr ils → sort_logs sort ils ≡ done (sort ils)
  unfolding sort_logs
  sort_logs-done ils h = ap (λ b. if b || leb (length ils) 1 then done (sort ils) else panic) h

  -- The logs of the lines scanned so far and of those to come, sorted if any line was scanned.
  scan-Perm :
      (lines : List String) (ils : List Iter8Log)
      → AreFromTr ils
      → AreFromTr (relevant_logs decoded e priority lines)
      → IsSorted ils
      → (result : List Iter8Log) × (scan decoded sort e priority lines ils ≡ done result)
        × Perm result (ils ++ relevant_logs decoded e priority lines)
        × IsSorted result
  unfolding scan relevant_logs ◌>>=◌
  scan-Perm [] ils h k sorted =
      (ils, refl, subst (Perm ils) (sym (append-nil ils)) (Perm.refl ils), sorted)
  scan-Perm (line ∷ lines) ils h k sorted =
      let new = relevant_log decoded e priority line in
      let rest = relevant_logs decoded e priority lines in
      let parts = append-AreFromTr new rest k in
      let all_tr : AreFromTr (ils ++ new) = AreFromTr-append ils new h parts.0 in
      let (result, scans, perm, ordered) =
        scan-Perm lines (sort (ils ++ new)) (Perm-AreFromTr (sorts.permutes (ils ++ new)) all_tr)
          parts.1 (sorts.sorted (ils ++ new)) in
      let moved : Perm result (ils ++ (new ++ rest)) =
        subst (Perm result) (append_assoc ils new rest)
          (Perm.trans perm (Perm.append_right rest (sorts.permutes (ils ++ new)))) in
      (
        result,
        ap (λ m. m >>= scan decoded sort e priority lines) (sort_logs-done (ils ++ new) all_tr)
            ∙ scans,
        moved,
        ordered,
      )

  scanned-IsDebugOutput :
      (answer : Result (List String))
      → LinesFromTr decoded e priority answer
      → (r : Result (List Iter8Log)) × (scanned decoded sort e priority answer ≡ done r)
        × IsDebugOutput decoded e priority answer r
  unfolding IsDebugOutput LinesFromTr all_from_tr IsSorted
  scanned-IsDebugOutput (err text) h = (err text, refl, refl)
  scanned-IsDebugOutput (ok lines) h =
      let (ils, scans, perm, ordered) = scan-Perm lines [] refl h tt in
      (ok ils, ap ok_of scans, (ils, refl, perm, ordered))

  -- With a sort that permutes its list and puts the precedences in ascending order, and a priority
  -- of 1 to 3, where kubectl fails the debug command returns its error; and where each log that it
  -- prints for the experiment with that priority or a more urgent one is of the task runner, the
  -- command returns, and gives exactly those logs, with their repetitions, in an order of ascending
  -- precedence.
  pub debug-IsDebugOutput :
      (logs : String → Result (List String))
      → 1 ≤ priority
      → priority ≤ 3
      → LinesFromTr decoded e priority (logs (selector e))
      → (r : Result (List Iter8Log)) × (debug decoded sort logs e priority ≡ done r)
        × IsDebugOutput decoded e priority (logs (selector e)) r
  unfolding debug
  debug-IsDebugOutput logs low high h =
      let in_range : (ltb priority 1 || ltb 3 priority) ≡ false = ground arith in
      let (r, scans, output) = scanned-IsDebugOutput (logs (selector e)) h in
      (
        r,
        ap
              (λ b.
                if b
                then done (err "priority can only be set to 1, 2, or 3")
                else scanned decoded sort e priority (logs (selector e)))
              in_range
            ∙ scans,
        output,
      )
