-- ===== src/Api/Status.antt =====
-- api/v2alpha2/status.go: conditions, counters and the recommended version of an experiment.
pub mod Laws
pub mod Kinds
use etc.Prelude.{
  ℕ, Bool, true, false, not, ◌||◌, Option, none, some, List, [], ◌∷◌, ◌++◌, String, str_eq,
  if◌then◌else◌,
}
use etc.Prelude.Int.{ℤ, pos, ◌+ℤ◌, wrap32}
use etc.Prelude.Text.{◌+++◌, is_empty}
use etc.Api.Constants.{
  ExperimentConditionType, experiment_completed, experiment_failed, target_acquired, condition_eq,
  ConditionStatus, condition_true, condition_false, condition_unknown, status_eq, waiting,
}
use etc.Api.Types.{
  Time, ExperimentCondition, ExperimentStatus, Experiment, Analysis, WinnerAssessmentAnalysis,
}

-- The condition that `addCondition` appends.
abbrev fresh_condition : Time → ExperimentConditionType → ConditionStatus → ExperimentCondition
fresh_condition now kind status = record {
  kind = kind;
  status = status;
  last_transition_time = some now;
  reason = none;
  message = none;
}

-- The time of metav1.Now() is an argument.
unfoldable pub add_condition :
    Time → ExperimentConditionType → ConditionStatus → ExperimentStatus → ExperimentStatus
add_condition now kind status s = record s {
  conditions = s.conditions ++ (fresh_condition now kind status ∷ []);
}

-- The loop of `GetCondition`.
unfoldable pub find_condition :
    ExperimentConditionType → List ExperimentCondition → Option ExperimentCondition
find_condition kind [] = none
find_condition kind (c ∷ cs) =
    let rest = find_condition kind cs in if condition_eq c.kind kind then some c else rest

-- A condition that is not there is added, with status Unknown.
unfoldable pub get_condition :
    Time → ExperimentConditionType → ExperimentStatus → ExperimentCondition × ExperimentStatus
unfolding find_condition add_condition
get_condition now kind s = elim (find_condition kind s.conditions) [
  | none ↦ (fresh_condition now kind condition_unknown, add_condition now kind condition_unknown s)
  | some c ↦ (c, s)
]

abbrev pub is_true : ExperimentCondition → Bool
is_true c = status_eq c.status condition_true

abbrev pub is_false : ExperimentCondition → Bool
is_false c = status_eq c.status condition_false

abbrev pub is_unknown : ExperimentCondition → Bool
is_unknown c = status_eq c.status condition_unknown

unfoldable pub initialize_status : Time → Experiment → Experiment
unfolding add_condition
initialize_status now e =
    let s₁ = add_condition now experiment_completed condition_false e.status in
    let s₂ = add_condition now experiment_failed condition_false s₁ in
    let s₃ = add_condition now target_acquired condition_false s₂ in
    record e {
      status = record s₃ {
        init_time = some now;
        last_update_time = some now;
        stage = some waiting;
        completed_iterations = some (pos 0);
      };
    }

unfoldable pub get_completed_iterations : ExperimentStatus → ℤ
get_completed_iterations s = elim s.completed_iterations [ none ↦ pos 0 | some n ↦ n ]

-- The counter is an int32, and `++` wraps.
unfoldable pub increment_completed_iterations : ExperimentStatus → ExperimentStatus × ℤ
unfolding get_completed_iterations wrap32 ◌+ℤ◌
increment_completed_iterations s =
    let n = wrap32 (get_completed_iterations s +ℤ pos 1) in
    (record s { completed_iterations = some n }, n)

abbrev winner_of : WinnerAssessmentAnalysis → Option String
winner_of w = if not w.content.winner_found then none else w.content.winner

abbrev assessed_winner : Option WinnerAssessmentAnalysis → Option String
assessed_winner none = none
assessed_winner (some w) = winner_of w

unfoldable pub identified_winner : Option Analysis → Option String
identified_winner none = none
identified_winner (some a) = assessed_winner a.winner_assessment

-- Both writes of the source: first where nothing is recommended yet, then where it differs.
unfoldable pub set_version_recommended_for_promotion : String → ExperimentStatus → ExperimentStatus
unfolding identified_winner
set_version_recommended_for_promotion current_baseline s =
    let recommendation : String = elim (identified_winner s.analysis) [
      | none ↦ current_baseline
      | some w ↦ w
    ] in
    let present : String = elim s.version_recommended_for_promotion [
      | none ↦ recommendation
      | some v ↦ v
    ] in
    if str_eq present recommendation
    then record s { version_recommended_for_promotion = some present }
    else record s { version_recommended_for_promotion = some recommendation }

-- Writes to the condition that `GetCondition` returned a pointer to: the first of its type.
unfoldable pub update_condition :
    ExperimentCondition → List ExperimentCondition → List ExperimentCondition
update_condition c' [] = []
update_condition c' (c ∷ cs) =
    let rest = update_condition c' cs in if condition_eq c.kind c'.kind then c' ∷ cs else c ∷ rest

-- `*p != s` for a pointer that may be nil: nil counts as different.
abbrev pub differs : Option String → String → Bool
differs none s = true
differs (some t) s = not (str_eq s t)

-- `condition_message` is the formatted text. The Boolean tells whether the condition changed.
unfoldable pub mark_condition :
    Time
    → ExperimentConditionType
    → ConditionStatus
    → String
    → String
    → ExperimentStatus
    → ExperimentStatus × Bool
mark_condition now kind status reason condition_message s =
    let status_message : String =
      if is_empty condition_message then reason else reason +++ (": " +++ condition_message) in
    let s₀ = record s { message = some status_message } in
    let (c, s₁) = get_condition now kind s₀ in
    let updated : Bool =
      not (status_eq status c.status)
      || differs c.reason reason
      || differs c.message condition_message in
    let c' = record c {
      status = status;
      reason = some reason;
      message = some condition_message;
      last_transition_time = some now;
    } in
    (record s₁ { conditions = update_condition c' s₁.conditions }, updated)
