-- ===== src/Controller/Steps/Changes.antt =====
-- What a step changes: the order of the stages, and a condition that is set or that is added.
use etc.Prelude.{
  ℕ, ◌≤◌, ◌<◌, ◌≡◌, ◌↔◌, true, false, Option, none, some, List, [], ◌∷◌, ◌++◌, String, arith,
}
use etc.Api.Constants.{
  ExperimentConditionType, condition_eq, ConditionStatus, condition_unknown, ExperimentStageType,
  waiting, initializing, running, finishing, completed, other, after,
}
use etc.Api.Types.{Time, ExperimentCondition, ExperimentStatus}
use etc.Api.Status.{find_condition, mark_condition, get_condition, add_condition}
use etc.Api.Status.Laws.{find_condition-mark}
use etc.Api.Status.Kinds.{count_kind, mark_condition-HasUniqueKinds}

-- The place of a stage in the order; an unknown stage is before all.
abbrev pub stage_rank : ExperimentStageType → ℕ
stage_rank waiting = 1
stage_rank initializing = 2
stage_rank running = 3
stage_rank finishing = 4
stage_rank completed = 5
stage_rank (other s) = 0

-- A stage is after another exactly when it has the higher place in the order of the stages, in
-- which an unknown stage is the lowest.
pub after-rank :
    (to from : ExperimentStageType) → (after to from ≡ true) ↔ (stage_rank from < stage_rank to)
unfolding after
after-rank to from = ground arith

-- A condition as it stands in a status.
abbrev pub condition :
    Time
    → ExperimentConditionType
    → ConditionStatus
    → Option String
    → Option String
    → ExperimentCondition
condition now kind status reason message = record {
  kind = kind;
  status = status;
  last_transition_time = some now;
  reason = reason;
  message = message;
}

-- `ds` are the conditions `cs`, but that the one of the type of `c` is `c`; no type is there twice if
-- none was.
pub record SetsCondition (c : ExperimentCondition) (cs ds : List ExperimentCondition) : Type 0 where
  pub found : find_condition c.kind ds ≡ some c
  pub others :
      (j : ExperimentConditionType)
      → condition_eq c.kind j ≡ false
      → find_condition j ds ≡ find_condition j cs
  pub unique :
      ((j : ExperimentConditionType) → count_kind j cs ≤ 1)
      → (j : ExperimentConditionType) → count_kind j ds ≤ 1

same_kind : (j : ExperimentConditionType) → condition_eq j j ≡ true
same_kind j = ground arith

module _ (now : Time) (kind : ExperimentConditionType) where
  -- A mark sets its condition.
  pub mark_condition-SetsCondition :
      (status : ConditionStatus) (reason message : String) (s : ExperimentStatus)
      → SetsCondition
          (condition now kind status (some reason) (some message))
          s.conditions
          (mark_condition now kind status reason message s).0.conditions
  mark_condition-SetsCondition status reason message s = record {
    found =
        ground (arith, find_condition-mark now kind status reason message s kind, same_kind kind);
    others = λ j e. ground (arith, find_condition-mark now kind status reason message s j);
    unique = λ h.
        let u =
          mark_condition-HasUniqueKinds now kind status reason message s (record { at_kind = h }) in
        u.at_kind;
  }

  -- It writes the conditions and the message of a status, and no other field.
  pub mark_only :
      (status : ConditionStatus) (reason message : String) (s : ExperimentStatus)
      → let t = (mark_condition now kind status reason message s).0 in
        t ≡ record s { conditions = t.conditions; message = t.message }
  unfolding mark_condition get_condition add_condition
  mark_only status reason message s = ground arith

  -- What reading a condition leaves, where it is there and where it is missing.
  pub look_found :
      (s : ExperimentStatus) (c : ExperimentCondition)
      → find_condition kind s.conditions ≡ some c
      → (get_condition now kind s).1 ≡ s
  unfolding get_condition
  look_found s c e = ground arith

  pub look_missing :
      (s : ExperimentStatus)
      → find_condition kind s.conditions ≡ none
      → (get_condition now kind s).1 ≡ record s {
        conditions = s.conditions ++ (condition now kind condition_unknown none none ∷ []);
      }
  unfolding get_condition add_condition
  look_missing s e = ground arith
