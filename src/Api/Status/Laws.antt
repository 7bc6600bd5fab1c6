-- ===== src/Api/Status/Laws.antt =====
-- What the conditions of an experiment's status tell: api/v2alpha2/status.go.
use etc.Prelude.{
  ◌≡◌, refl, true, false, none, some, List, [], ◌∷◌, ◌++◌, String, eq_iff, arith, inl, inr,
  Option-cases, not, ◌||◌, if◌then◌else◌,
}
use text.Mathlib.TextPositions.{eq_refl}
use etc.Prelude.Text.{◌+++◌, is_empty}
use etc.Api.Constants.{ExperimentConditionType, condition_eq, ConditionStatus, status_eq}
use etc.Api.Types.{Time, ExperimentCondition, ExperimentStatus}
use etc.Api.Status.{
  differs, find_condition, update_condition, get_condition, mark_condition,
  set_version_recommended_for_promotion, identified_winner,
}

-- The condition that a mark leaves behind.
abbrev pub marked :
    Time → ExperimentConditionType → ConditionStatus → String → String → ExperimentCondition
marked now kind status reason message = record {
  kind = kind;
  status = status;
  last_transition_time = some now;
  reason = some reason;
  message = some message;
}

find_condition-update :
    (j : ExperimentConditionType) (c' : ExperimentCondition) (cs : List ExperimentCondition)
    → find_condition j (update_condition c' cs) ≡ elim (find_condition c'.kind cs) [
      | none ↦ find_condition j cs
      | some c ↦ if condition_eq c'.kind j then some c' else find_condition j cs
    ]
unfolding find_condition update_condition
find_condition-update j c' [] = refl
find_condition-update j c' (c ∷ cs) = ground (arith, find_condition-update j c' cs)

find_condition-append :
    (j : ExperimentConditionType) (cs ds : List ExperimentCondition)
    → find_condition j (cs ++ ds)
      ≡ elim (find_condition j cs) [ none ↦ find_condition j ds | some c ↦ some c ]
unfolding find_condition
find_condition-append j [] ds = refl
find_condition-append j (c ∷ cs) ds = ground (arith, find_condition-append j cs ds)

find_condition-kind :
    (j : ExperimentConditionType) (cs : List ExperimentCondition) (c : ExperimentCondition)
    → find_condition j cs ≡ some c
    → c.kind ≡ j
unfolding find_condition
find_condition-kind j [] c h = cc
find_condition-kind j (d ∷ cs) c h = ground (arith, find_condition-kind j cs c)

-- Reading a condition adds it where it is missing, and every other condition is found as before.
pub find_condition-get :
    (now : Time) (kind j : ExperimentConditionType) (s : ExperimentStatus)
    → find_condition j (get_condition now kind s).1.conditions ≡ (
        if condition_eq kind j
        then some (get_condition now kind s).0
        else find_condition j s.conditions)
unfolding get_condition find_condition
find_condition-get now kind j s = ground (
  arith,
  find_condition-append j s.conditions
      ((get_condition now kind (record s { conditions = [] })).0 ∷ []),
)

get_condition-kind :
    (now : Time) (kind : ExperimentConditionType) (s : ExperimentStatus)
    → (get_condition now kind s).0.kind ≡ kind
unfolding get_condition
get_condition-kind now kind s = elim (Option-cases (find_condition kind s.conditions)) [
  | inl e ↦ ground arith
  | inr (c, e) ↦ ground (arith, find_condition-kind kind s.conditions c e)
]

condition_eq_refl : (j : ExperimentConditionType) → condition_eq j j ≡ true
condition_eq_refl j = ground arith

update-get :
    (now : Time) (kind j : ExperimentConditionType) (s : ExperimentStatus)
    (c' : ExperimentCondition)
    → c'.kind ≡ kind
    → find_condition j (update_condition c' (get_condition now kind s).1.conditions)
      ≡ (if condition_eq kind j then some c' else find_condition j s.conditions)
update-get now kind j s c' e = ground (
  arith,
  find_condition-update j c' (get_condition now kind s).1.conditions,
  find_condition-get now kind j s,
  find_condition-get now kind kind s,
  condition_eq_refl kind,
)

-- After a mark the condition of the marked type is the one that was given, and every other type is
-- found as before.
pub find_condition-mark :
    (now : Time) (kind : ExperimentConditionType) (status : ConditionStatus)
    (reason message : String) (s : ExperimentStatus) (j : ExperimentConditionType)
    → find_condition j (mark_condition now kind status reason message s).0.conditions ≡ (
        if condition_eq kind j
        then some (marked now kind status reason message)
        else find_condition j s.conditions)
unfolding mark_condition
find_condition-mark now kind status reason message s j =
    let s₀ = record s {
      message = some (if is_empty message then reason else reason +++ (": " +++ message));
    } in
    let e = get_condition-kind now kind s₀ in
    let c = (get_condition now kind s₀).0 in
    rw
      (update-get now kind j s₀
        (record c {
          status = status;
          reason = some reason;
          message = some message;
          last_transition_time = some now;
        })
        e)
      (ground arith)

-- A mark reports a change exactly when the condition was missing or has another status, reason or
-- message.
pub mark_condition_changed :
    (now : Time) (kind : ExperimentConditionType) (status : ConditionStatus)
    (reason message : String) (s : ExperimentStatus)
    → (mark_condition now kind status reason message s).1
      ≡ elim (find_condition kind s.conditions) [
        | none ↦ true
        | some c ↦
            not (status_eq status c.status) || differs c.reason reason || differs c.message message
      ]
unfolding mark_condition get_condition
mark_condition_changed now kind status reason message s =
    elim (Option-cases (find_condition kind s.conditions)) [
      | inl e ↦ ground arith
      | inr (c, e) ↦ ground arith
    ]

status_eq_refl : (a : ConditionStatus) → status_eq a a ≡ true
status_eq_refl a = ground arith

-- The same mark made a second time, at whatever time, reports no change.
pub mark_condition_again :
    (now later : Time) (kind : ExperimentConditionType) (status : ConditionStatus)
    (reason message : String) (s : ExperimentStatus)
    → (mark_condition later kind status reason message
        (mark_condition now kind status reason message s).0).1
      ≡ false
mark_condition_again now later kind status reason message s =
    let once = (mark_condition now kind status reason message s).0 in
    rw (mark_condition_changed later kind status reason message once) (
      rw (find_condition-mark now kind status reason message s kind)
        (rw (condition_eq_refl kind) (rw (status_eq_refl status, eq_refl reason, eq_refl message))))

-- The recommended version is the winner, where the analysis has found one, and else the baseline,
-- whatever was recommended before.
pub set_version_recommended_lem :
    (baseline : String) (s : ExperimentStatus)
    → (set_version_recommended_for_promotion baseline s).version_recommended_for_promotion
      ≡ some (elim (identified_winner s.analysis) [ none ↦ baseline | some w ↦ w ])
unfolding set_version_recommended_for_promotion
set_version_recommended_lem baseline s =
    let present = s.version_recommended_for_promotion in
    ground (
      arith,
      eq_iff
          (elim present [
            | none ↦ elim (identified_winner s.analysis) [ none ↦ baseline | some w ↦ w ]
            | some v ↦ v
          ])
          (elim (identified_winner s.analysis) [ none ↦ baseline | some w ↦ w ]),
    )
