-- ===== src/Controller/Iterate/Rollback.antt =====
-- When an experiment is rolled back: controllers/iterate.go, versionsMustRollback and mustRollback.
use etc.Prelude.{
  ℕ, ◌+◌, ◌≡◌, refl, sym, ap, ◌∙◌, Bool, true, false, Option, none, some, List, [], ◌∷◌, ◌++◌,
  String, All, get_elem?, ◌↔◌, if◌then◌else◌,
}
use mathlib.Core.Path.{subst}
use etc.Api.Types.{Objective, Criteria, Analysis, VersionAssessmentAnalysis, Experiment}
use etc.Api.Defaults.Getters.{get_deployment_pattern, get_rollback_on_failure}
use etc.Controller.Effects.{Env, Outcome, done, panic, M, ◌>>=◌, pure, gets, deref}
use etc.Controller.Effects.Gives.{OnDone, Gives, Gives-pure, Gives-bind}
use etc.Controller.Iterate.{
  failing_versions, assessments_of, failing_from, versions_must_rollback, must_rollback, not_empty,
}

-- Every version satisfies the objective at `index`.
abbrev pub SatisfiedByAll : ℕ → List (String × List Bool) → Type 0
SatisfiedByAll index assessments = All (λ e. get_elem? e.1 index ≡ some true) assessments

-- Every version satisfies every objective that asks for a rollback on failure.
pub Satisfied : Experiment → ℕ → List Objective → List (String × List Bool) → Type 0
Satisfied i index [] assessments = Unit {0}
Satisfied i index (o ∷ os) assessments =
    (get_rollback_on_failure o (get_deployment_pattern i.spec) ≡ true
      → SatisfiedByAll index assessments)
    × Satisfied i (index + 1) os assessments

-- A list of failures is empty exactly where `P` holds.
abbrev Decides : Type 0 → List String → Type 0
Decides P r = (not_empty r ≡ false) ↔ P

Gives-deref : {A : Type 0} (o : Option A) → Gives (λ a. o ≡ some a) (deref o)
unfolding deref
Gives-deref none = record { at = λ s. tt }
Gives-deref (some a) = record { at = λ s. refl }

OnDone-weaken :
    {A : Type 0} {P Q : A → Type 0} (o : Outcome A)
    → ((a : A) → P a → Q a)
    → OnDone P o
    → OnDone Q o
OnDone-weaken (done a) f h = f a h
OnDone-weaken panic f h = tt

Gives-weaken :
    {A : Type 0} {P Q : A → Type 0} (m : M A) → ((a : A) → P a → Q a) → Gives P m → Gives Q m
Gives-weaken m f g = record { at = λ s. OnDone-weaken (m s).0 f (g.at s) }

cons_satisfied :
    (index : ℕ) (version : String) (satisfies : List Bool) (m : List (String × List Bool))
    (ok : Bool) (rest : List String)
    → get_elem? satisfies index ≡ some ok
    → Decides (SatisfiedByAll index m) rest
    → Decides
        (SatisfiedByAll index ((version, satisfies) ∷ m))
        (if ok then rest else version ∷ rest)
cons_satisfied index version satisfies m true rest e h = (λ p. (e, h.0 p), λ q. h.1 q.1)
cons_satisfied index version satisfies m false rest e h = (λ p. cc, λ q. cc)

Gives-failing :
    (index : ℕ) (m : List (String × List Bool))
    → Gives (Decides (SatisfiedByAll index m)) (failing_versions index m)
unfolding failing_versions
Gives-failing index [] = Gives-pure [] (λ p. tt, λ q. refl)
Gives-failing index ((version, satisfies) ∷ m) =
    Gives-bind _ _ (Gives-deref (get_elem? satisfies index)) (λ ok e.
      Gives-bind _ _ (Gives-failing index m)
        (λ rest h. Gives-pure _ (cons_satisfied index version satisfies m ok rest e h)))

append-Decides :
    (P Q : Type 0) (xs ys : List String) → Decides P xs → Decides Q ys → Decides (P × Q) (xs ++ ys)
append-Decides P Q [] ys h k = (λ p. (h.0 refl, k.0 p), λ q. k.1 q.1)
append-Decides P Q (x ∷ xs) ys h k = (λ p. cc, λ q. absurd (cc (h.1 q.0)))

module _ (i : Experiment) (d : List (String × List Bool))
    (known : Gives (λ x. x ≡ d) (assessments_of i)) where
  flagged :
      (o : Objective) (index : ℕ) (os : List Objective) (xs ys : List String)
      → get_rollback_on_failure o (get_deployment_pattern i.spec) ≡ true
      → Decides (SatisfiedByAll index d) xs
      → Decides (Satisfied i (index + 1) os d) ys
      → Decides (Satisfied i index (o ∷ os) d) (xs ++ ys)
  unfolding Satisfied
  flagged o index os xs ys f h k =
      let both = append-Decides _ _ xs ys h k in
      (λ p. ((λ g. (both.0 p).0), (both.0 p).1), λ q. both.1 (q.0 f, q.1))

  not_flagged :
      (o : Objective) (index : ℕ) (os : List Objective) (ys : List String)
      → get_rollback_on_failure o (get_deployment_pattern i.spec) ≡ false
      → Decides (Satisfied i (index + 1) os d) ys
      → Decides (Satisfied i index (o ∷ os) d) ys
  unfolding Satisfied
  not_flagged o index os ys f k = (λ p. ((λ g. cc), k.0 p), λ q. k.1 q.1)

  -- One round of the loop over the objectives, on the flag of the objective.
  Gives-round :
      (o : Objective) (index : ℕ) (os : List Objective) (rest : M (List String)) (b : Bool)
      → get_rollback_on_failure o (get_deployment_pattern i.spec) ≡ b
      → Gives (Decides (Satisfied i (index + 1) os d)) rest
      → Gives (Decides (Satisfied i index (o ∷ os) d)) (
          if b
          then (assessments_of i >>= λ data_.
              failing_versions index data_ >>= λ failed. rest >>= λ more. pure (failed ++ more))
          else rest)
  Gives-round o index os rest true f g = Gives-bind _ _ known (λ x e.
      Gives-bind _ _ (Gives-failing index x) (λ xs h. Gives-bind _ _ g (λ ys k.
        Gives-pure _
          (flagged o index os xs ys f (subst (λ z. Decides (SatisfiedByAll index z) xs) e h) k))))
  Gives-round o index os rest false f g = Gives-weaken rest (λ ys. not_flagged o index os ys f) g

  Gives-from :
      (index : ℕ) (os : List Objective)
      → Gives (Decides (Satisfied i index os d)) (failing_from i index os)
  unfolding failing_from Satisfied
  Gives-from index [] = Gives-pure [] (λ p. tt, λ q. refl)
  Gives-from index (o ∷ os) = Gives-round o index os _ _ refl (Gives-from (index + 1) os)

Gives-assessments :
    (i : Experiment) (a : Analysis) (v : VersionAssessmentAnalysis)
    → i.status.analysis ≡ some a
    → a.version_assessments ≡ some v
    → Gives (λ x. x ≡ v.content) (assessments_of i)
unfolding assessments_of
Gives-assessments i a v e f =
    Gives-bind _ _ (Gives-deref i.status.analysis)
      (λ a' p. Gives-bind _ _ (Gives-deref a'.version_assessments) (λ v' q. Gives-pure _ cc))

-- The answer of `mustRollback`, where it does not panic.
abbrev RollbackIff : Type 0 → Bool → Type 0
RollbackIff P b = (b ≡ false) ↔ P

done_of : (P : Bool → Type 0) (o : Outcome Bool) (b : Bool) → OnDone P o → o ≡ done b → P b
done_of P (done c) b h e = subst P (cc) h
done_of P panic b h e = cc

abbrev failing_of : Option Criteria → Experiment → M (List String)
failing_of o i = elim o [ none ↦ pure [] | some c ↦ failing_from i 0 c.objectives ]

abbrev rollback_of : Option Criteria → Experiment → M Bool
rollback_of o i = failing_of o i >>= λ (versions : List String). pure (not_empty versions)

must_rollback_run :
    (s : Env) → must_rollback s ≡ rollback_of s.instance_.spec.criteria s.instance_ s
unfolding must_rollback versions_must_rollback ◌>>=◌ gets
must_rollback_run s = refl

rollback_answer :
    (i : Experiment) (c : Criteria) (a : Analysis) (v : VersionAssessmentAnalysis)
    → i.status.analysis ≡ some a
    → a.version_assessments ≡ some v
    → Gives (RollbackIff (Satisfied i 0 c.objectives v.content)) (rollback_of (some c) i)
rollback_answer i c a v f g =
    Gives-bind _ _ (Gives-from i v.content (Gives-assessments i a v f g) 0 c.objectives)
      (λ versions h. Gives-pure _ h)

module _ (s : Env) (c : Criteria) (a : Analysis) (v : VersionAssessmentAnalysis) (b : Bool) where
  -- With criteria and an analysis of the versions, where the test whether to roll back gives an
  -- answer, the answer is no exactly when every version satisfies every objective whose failure
  -- asks for a rollback.
  pub must_rollback-Satisfied :
      s.instance_.spec.criteria ≡ some c
      → s.instance_.status.analysis ≡ some a
      → a.version_assessments ≡ some v
      → (must_rollback s).0 ≡ done b
      → (b ≡ false) ↔ Satisfied s.instance_ 0 c.objectives v.content
  must_rollback-Satisfied e f g h =
      done_of (RollbackIff (Satisfied s.instance_ 0 c.objectives v.content)) (must_rollback s).0 b
        (subst (λ x. OnDone (RollbackIff (Satisfied s.instance_ 0 c.objectives v.content)) x)
          (sym (ap (λ r. r.0) (must_rollback_run s) ∙ ap (λ o. (rollback_of o s.instance_ s).0) e))
          ((rollback_answer s.instance_ c a v f g).at s))
        h
