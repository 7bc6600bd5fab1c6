-- ===== src/Api/Status/Kinds.antt =====
-- The types of the conditions that a status lists: api/v2alpha2/status.go.
use etc.Prelude.{
  ◌≡◌, refl, none, some, List, [], ◌∷◌, ◌++◌, String, arith, ℕ, suc, ◌+◌, ◌≤◌, if◌then◌else◌,
}
use etc.Prelude.Text.{◌+++◌, is_empty}
use etc.Api.Constants.{ExperimentConditionType, condition_eq, ConditionStatus, condition_unknown}
use etc.Api.Types.{Time, ExperimentCondition, ExperimentStatus}
use etc.Api.Status.{find_condition, update_condition, get_condition, mark_condition}

-- How many conditions of a type a status lists.
unfoldable pub count_kind : ExperimentConditionType → List ExperimentCondition → ℕ
count_kind j [] = 0
count_kind j (c ∷ cs) = if condition_eq c.kind j then suc (count_kind j cs) else count_kind j cs

-- No type of condition is listed twice.
pub record HasUniqueKinds (s : ExperimentStatus) : Type 0 where
  pub at_kind : (j : ExperimentConditionType) → count_kind j s.conditions ≤ 1

count_kind-update :
    (j : ExperimentConditionType) (c' : ExperimentCondition) (cs : List ExperimentCondition)
    → count_kind j (update_condition c' cs) ≡ count_kind j cs
unfolding count_kind update_condition
count_kind-update j c' [] = refl
count_kind-update j c' (c ∷ cs) = ground (arith, count_kind-update j c' cs)

count_kind-append :
    (j : ExperimentConditionType) (cs ds : List ExperimentCondition)
    → count_kind j (cs ++ ds) ≡ count_kind j cs + count_kind j ds
unfolding count_kind
count_kind-append j [] ds = omega arith
count_kind-append j (c ∷ cs) ds = ground (arith, count_kind-append j cs ds)

count_kind_absent :
    (j : ExperimentConditionType) (cs : List ExperimentCondition)
    → find_condition j cs ≡ none
    → count_kind j cs ≡ 0
unfolding count_kind find_condition
count_kind_absent j [] h = refl
count_kind_absent j (c ∷ cs) h = ground (arith, count_kind_absent j cs)

count_kind-get :
    (now : Time) (kind j : ExperimentConditionType) (s : ExperimentStatus)
    → count_kind j s.conditions ≤ 1
    → count_kind j (get_condition now kind s).1.conditions ≤ 1
unfolding get_condition count_kind
count_kind-get now kind j s h = ground (
  arith,
  count_kind_absent j s.conditions,
  count_kind_absent kind s.conditions,
  count_kind-append j s.conditions (
      record {
        kind = kind;
        status = condition_unknown;
        last_transition_time = some now;
        reason = none;
        message = none;
      }
      ∷ []),
)

-- A mark lists no condition type twice if none was.
pub mark_condition-HasUniqueKinds :
    (now : Time) (kind : ExperimentConditionType) (status : ConditionStatus)
    (reason message : String) (s : ExperimentStatus)
    → HasUniqueKinds s
    → HasUniqueKinds (mark_condition now kind status reason message s).0
unfolding mark_condition
mark_condition-HasUniqueKinds now kind status reason message s h =
    let s₀ = λ (s : ExperimentStatus). record s {
      message = some (if is_empty message then reason else reason +++ (": " +++ message));
    } in
    record {
      at_kind = λ j.
          rw
            (count_kind-update j
              (record (get_condition now kind (s₀ s)).0 {
                status = status;
                last_transition_time = some now;
                reason = some reason;
                message = some message;
              })
              (get_condition now kind (s₀ s)).1.conditions)
            (count_kind-get now kind j (s₀ s) (h.at_kind j));
    }

-- So does reading one.
pub get_condition-HasUniqueKinds :
    (now : Time) (kind : ExperimentConditionType) (s : ExperimentStatus)
    → HasUniqueKinds s
    → HasUniqueKinds (get_condition now kind s).1
get_condition-HasUniqueKinds now kind s h = record {
  at_kind = λ j. count_kind-get now kind j s (h.at_kind j);
}
