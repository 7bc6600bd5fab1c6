-- ===== src/Iter8ctl/Commands/Holds.antt =====
-- iter8ctl/cmd/assert.go: which conditions hold when the command prints that all are satisfied.
use etc.Prelude.{
  ◌≡◌, ◌≢◌, ◌↔◌, refl, sym, ◌∙◌, Bool, true, false, Option, none, some, List, [], ◌∷◌, String,
  str_eq, eq_iff, All, arith, if◌then◌else◌, ◌⊎◌,
}
use mathlib.Core.Path.{subst}
use etc.Prelude.Text.{◌+++◌}
use etc.Api.Types.{Time, Experiment}
use etc.Controller.Effects.{Result, ok, err}
use etc.Iter8ctl.Experiment.{completed, winner_found}
use etc.Iter8ctl.Experiment.Assertions.{
  ConditionType, is_completed, found_winner, condition_error, assert_,
}
use etc.Iter8ctl.Experiment.Assertions.Laws.{Satisfies, condition_error-Satisfies}
use etc.Iter8ctl.Commands.{parse_conditions, and_condition, asserted, assert_texts}

-- A condition by its text.
abbrev pub Holds : Time → Experiment → String → Type 0
Holds now e text =
    ((text ≡ "completed") × (completed now (some e) ≡ true))
    ⊎ ((text ≡ "winnerFound") × (winner_found (some e) ≡ true))

some-none : (text : String) → some text ≢ none
some-none text h = cc

assert_cons :
    (now : Time) (e : Option Experiment) (c : ConditionType) (cs : List ConditionType)
    (o : Option String)
    → condition_error now e c ≡ o
    → (elim o [ none ↦ assert_ now e cs | some text ↦ some text ] ≡ none)
      ↔ (Satisfies now e c × (assert_ now e cs ≡ none))
assert_cons now e c cs none h =
    let holds = (condition_error-Satisfies now e c).0 h in (λ k. (holds, k), λ k. k.1)
assert_cons now e c cs (some text) h =
    (λ k. cc, λ k. elim (some-none text (sym h ∙ (condition_error-Satisfies now e c).1 k.0)) [ ])

asserted-and :
    (now : Time) (e : Experiment) (c : ConditionType) (rest : Result (List ConditionType))
    → (asserted now e (and_condition c rest) ≡ none)
      ↔ (Satisfies now (some e) c × (asserted now e rest ≡ none))
unfolding assert_
asserted-and now e c (err text) = (λ k. cc, λ k. k.1)
asserted-and now e c (ok cs) = assert_cons now (some e) c cs (condition_error now (some e) c) refl

Holds-completed :
    (now : Time) (e : Experiment) → Satisfies now (some e) is_completed ↔ Holds now e "completed"
unfolding Satisfies
Holds-completed now e = ground (arith, eq_iff "completed" "winnerFound")

Holds-winner :
    (now : Time) (e : Experiment) → Satisfies now (some e) found_winner ↔ Holds now e "winnerFound"
unfolding Satisfies
Holds-winner now e = ground (arith, eq_iff "winnerFound" "completed")

-- One condition more, of a known text.
one_more :
    (now : Time) (e : Experiment) (c : ConditionType) (text cond : String)
    (rest : Result (List ConditionType)) (conditions : List String)
    → cond ≡ text
    → Satisfies now (some e) c ↔ Holds now e text
    → (asserted now e rest ≡ none) ↔ All (Holds now e) conditions
    → (asserted now e (and_condition c rest) ≡ none) ↔ All (Holds now e) (cond ∷ conditions)
one_more now e c text cond rest conditions same first others =
    let split = asserted-and now e c rest in
    (
      λ k. (subst (Holds now e) (sym same) (first.0 (split.0 k).0), others.0 (split.0 k).1),
      λ k. split.1 (first.1 (subst (Holds now e) same k.0), others.1 k.1),
    )

parse_step :
    (now : Time) (e : Experiment) (cond : String) (rest : Result (List ConditionType))
    (conditions : List String)
    → (asserted now e rest ≡ none) ↔ All (Holds now e) conditions
    → (b₁ b₂ : Bool) → str_eq cond "completed" ≡ b₁
    → str_eq cond "winnerFound" ≡ b₂
    → (asserted now e (
          if b₁
          then and_condition is_completed rest
          else if b₂
          then and_condition found_winner rest
          else err ("Invalid condition: " +++ cond))
        ≡ none)
      ↔ All (Holds now e) (cond ∷ conditions)
parse_step now e cond rest conditions others true b₂ h₁ h₂ =
    one_more now e is_completed "completed" cond rest conditions ((eq_iff cond "completed").0 h₁)
      (Holds-completed now e) others
parse_step now e cond rest conditions others false true h₁ h₂ =
    one_more now e found_winner "winnerFound" cond rest conditions
      ((eq_iff cond "winnerFound").0 h₂) (Holds-winner now e) others
parse_step now e cond rest conditions others false false h₁ h₂ =
    (λ k. cc, λ k. ground (arith, eq_iff cond "completed", eq_iff cond "winnerFound"))

parse_conditions-Holds :
    (now : Time) (e : Experiment) (conditions : List String)
    → (asserted now e (parse_conditions conditions) ≡ none) ↔ All (Holds now e) conditions
unfolding parse_conditions assert_
parse_conditions-Holds now e [] = (λ k. tt, λ k. refl)
parse_conditions-Holds now e (cond ∷ conditions) =
    parse_step now e cond (parse_conditions conditions) conditions
      (parse_conditions-Holds now e conditions) (str_eq cond "completed")
      (str_eq cond "winnerFound") refl refl

-- For an experiment that was found, the assert command reports no error exactly when a condition is
-- given and each one that is given is completed, for an experiment that has completed, or
-- winnerFound, for one that has found a winner.
pub assert_texts-Holds :
    (now : Time) (e : Experiment) (conditions : List String)
    → (assert_texts now e conditions ≡ none) ↔ ((conditions ≢ []) × All (Holds now e) conditions)
unfolding assert_texts
assert_texts-Holds now e [] = (λ k. cc, λ k. elim (k.0 refl) [ ])
assert_texts-Holds now e (cond ∷ conditions) =
    let parsed = parse_conditions-Holds now e (cond ∷ conditions) in
    (λ k. (λ h. cc, parsed.0 k), λ k. parsed.1 k.1)
