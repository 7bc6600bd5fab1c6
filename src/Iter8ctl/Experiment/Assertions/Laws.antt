-- ===== src/Iter8ctl/Experiment/Assertions/Laws.antt =====
-- Assert of iter8ctl/experiment/experiment.go: which conditions hold when it returns nil.
use etc.Prelude.{
  ◌≡◌, ◌↔◌, refl, ap, true, Option, none, some, List, [], ◌∷◌, ◌++◌, String, All, arith,
}
use etc.Api.Types.{Time, Experiment}
use etc.Iter8ctl.Experiment.{completed, winner_found}
use etc.Iter8ctl.Experiment.Assertions.{
  ConditionType, is_completed, found_winner, other, condition_error, assert_,
}

-- A supported condition that the experiment has.
unfoldable pub Satisfies : Time → Option Experiment → ConditionType → Type 0
Satisfies now e is_completed = completed now e ≡ true
Satisfies now e found_winner = winner_found e ≡ true
Satisfies now e (other text) = ⊥

pub condition_error-Satisfies :
    (now : Time) (e : Option Experiment) (c : ConditionType)
    → (condition_error now e c ≡ none) ↔ Satisfies now e c
unfolding condition_error Satisfies
condition_error-Satisfies now e is_completed = ground arith
condition_error-Satisfies now e found_winner = ground arith
condition_error-Satisfies now e (other text) = ground arith

-- The text is that of the first condition that is not satisfied.
unfoldable pub IsFirstError : Time → Option Experiment → List ConditionType → String → Type 0
IsFirstError now e cs text =
    (pre : List ConditionType) × (c : ConditionType) × (post : List ConditionType) × (cs
      ≡ pre ++ (c ∷ post))
    × All (Satisfies now e) pre
    × (condition_error now e c ≡ some text)

-- nil exactly when all hold, and else the first error.
unfoldable pub IsVerdict : Time → Option Experiment → List ConditionType → Option String → Type 0
unfolding IsFirstError
IsVerdict now e cs none = All (Satisfies now e) cs
IsVerdict now e cs (some text) = IsFirstError now e cs text

IsVerdict-cons :
    (now : Time) (e : Option Experiment) (c : ConditionType) (cs : List ConditionType)
    (o : Option String)
    → condition_error now e c ≡ o
    → (r : Option String) → IsVerdict now e cs r
    → IsVerdict now e (c ∷ cs) (elim o [ none ↦ r | some text ↦ some text ])
unfolding IsVerdict IsFirstError
IsVerdict-cons now e c cs none h none v = ((condition_error-Satisfies now e c).0 h, v)
IsVerdict-cons now e c cs none h (some text) (pre, c', post, split, held, eq) =
    (c ∷ pre, c', post, ap (λ l. c ∷ l) split, ((condition_error-Satisfies now e c).0 h, held), eq)
IsVerdict-cons now e c cs (some text) h r v = ([], c, cs, refl, tt, h)

-- An assertion returns no error only if every condition is supported and holds, and else the error
-- of the first one that is not supported or does not hold.
pub assert-IsVerdict :
    (now : Time) (e : Option Experiment) (cs : List ConditionType)
    → IsVerdict now e cs (assert_ now e cs)
unfolding assert_ IsVerdict
assert-IsVerdict now e [] = tt
assert-IsVerdict now e (c ∷ cs) =
    IsVerdict-cons now e c cs (condition_error now e c) refl (assert_ now e cs)
      (assert-IsVerdict now e cs)
