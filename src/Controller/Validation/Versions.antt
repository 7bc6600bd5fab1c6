-- ===== src/Controller/Validation/Versions.antt =====
-- Version information: controllers/validatation.go, IsVersionInfoValid.
use etc.Prelude.{
  ℕ, ◌≤◌, ◌≡◌, ◌≢◌, ◌↔◌, refl, Bool, true, false, ◌&&◌, not, Option, none, some, List, [], ◌∷◌,
  String, length, All, arith, if◌then◌else◌,
}
use mathlib.Core.Path.{subst}
use Prim.Native.Char.{code}
use etc.Prelude.Text.{is_empty, begins_with}
use etc.Api.Constants.{TestingPatternType, canary, ab, abn, conformance, other}
use etc.Api.Types.{ObjectReference, VersionDetail, VersionInfo, Criteria, ExperimentSpec}
use etc.Api.Constants.Reason
use etc.Controller.Effects.{
  Cluster, Env, Outcome, done, panic, M, continue, ◌>>=◌, ◌>>◌, pure, gets,
}
use etc.Controller.Recorder.{record_experiment_failed}
use etc.Controller.Validation.{
  candidates_match_strategy, candidates_match, versions_unique, valid_number_of_rewards,
  rewards_match, bad_path, any_bad_path, version_info_problem, problem_of, is_version_info_valid,
}
use etc.Controller.Validation.Names.{Distinct, versions_unique-Distinct}

-- How many candidates a test of this kind has.
abbrev pub HasCandidates : TestingPatternType → ℕ → Type 0
HasCandidates conformance n = n ≡ 0
HasCandidates ab n = n ≡ 1
HasCandidates canary n = n ≡ 1
HasCandidates abn n = 1 ≤ n
HasCandidates (other s) n = Unit {0}

-- How many rewards a test of this kind has. Criteria may be missing where it has none.
abbrev pub HasRewards : TestingPatternType → Option Criteria → Type 0
HasRewards ab none = ⊥
HasRewards ab (some c) = length c.rewards ≡ 1
HasRewards abn none = ⊥
HasRewards abn (some c) = length c.rewards ≡ 1
HasRewards canary none = Unit {0}
HasRewards canary (some c) = length c.rewards ≡ 0
HasRewards conformance none = Unit {0}
HasRewards conformance (some c) = length c.rewards ≡ 0
HasRewards (other s) o = Unit {0}

-- A path is empty or starts with a dot, which has the code 46.
abbrev pub IsFieldPath : String → Type 0
IsFieldPath String.[] = Unit {0}
IsFieldPath (String.◌∷◌ c s) = code c ≡ 46

abbrev pub HasPath : Option ObjectReference → Type 0
HasPath none = Unit {0}
HasPath (some ref) = IsFieldPath ref.field_path

pub record HasVersions (s : ExperimentSpec) (v : VersionInfo) : Type 0 where
  pub candidates : HasCandidates s.strategy.testing_pattern (length v.candidates)
  pub distinct : Distinct (v.baseline ∷ v.candidates)
  pub rewards : HasRewards s.strategy.testing_pattern s.criteria
  pub paths : All (λ x. HasPath x.weight_obj_ref) (v.baseline ∷ v.candidates)

candidates_lem :
    (p : TestingPatternType) (v : VersionInfo)
    → (candidates_match p v ≡ true) ↔ HasCandidates p (length v.candidates)
candidates_lem conformance v = ground arith
candidates_lem ab v = ground arith
candidates_lem canary v = ground arith
candidates_lem abn v = ground arith
candidates_lem (other s) v = (λ h. tt, λ h. refl)

rewards_lem :
    (p : TestingPatternType) (o : Option Criteria) → (rewards_match p o ≡ true) ↔ HasRewards p o
rewards_lem ab none = (λ h. absurd (cc), λ h. absurd h)
rewards_lem ab (some c) = ground arith
rewards_lem abn none = (λ h. absurd (cc), λ h. absurd h)
rewards_lem abn (some c) = ground arith
rewards_lem canary none = (λ h. tt, λ h. refl)
rewards_lem canary (some c) = ground arith
rewards_lem conformance none = (λ h. tt, λ h. refl)
rewards_lem conformance (some c) = ground arith
rewards_lem (other s) none = (λ h. tt, λ h. refl)
rewards_lem (other s) (some c) = (λ h. tt, λ h. refl)

field_path_lem :
    (path : String)
    → ((not (is_empty path) && not (begins_with 46 path)) ≡ false) ↔ IsFieldPath path
field_path_lem String.[] = (λ h. tt, λ h. refl)
field_path_lem (String.◌∷◌ c s) = ground arith

path_lem : (o : Option ObjectReference) → (bad_path o ≡ false) ↔ HasPath o
path_lem none = (λ h. tt, λ h. refl)
path_lem (some ref) = field_path_lem ref.field_path

neither : (a b : Bool) → ((if a then true else b) ≡ false) ↔ ((a ≡ false) × (b ≡ false))
neither a b = ground arith

paths_lem :
    (vs : List VersionDetail) → (any_bad_path vs ≡ false) ↔ All (λ x. HasPath x.weight_obj_ref) vs
unfolding any_bad_path
paths_lem [] = (λ h. tt, λ h. refl)
paths_lem (v ∷ vs) =
    let one = path_lem v.weight_obj_ref in
    let rest = paths_lem vs in
    let parts = neither (bad_path v.weight_obj_ref) (any_bad_path vs) in
    (λ h. (one.0 (parts.0 h).0, rest.0 (parts.0 h).1), λ h. parts.1 (one.1 h.0, rest.1 h.1))

-- The four tests of the code, in its order.
four :
    (a b c d : Bool) (p q r x : String)
    → ((if not a
          then some p
          else if not b
          then some q
          else if not c
          then some r
          else if d
          then some x
          else none)
        ≡ none)
      ↔ ((a ≡ true) × (b ≡ true) × (c ≡ true) × (d ≡ false))
four a b c d p q r x = ground arith

versions_lem :
    (s : ExperimentSpec) (v : VersionInfo) → (version_info_problem s v ≡ none) ↔ HasVersions s v
unfolding version_info_problem candidates_match_strategy valid_number_of_rewards
versions_lem s v =
    let tests =
      four (candidates_match s.strategy.testing_pattern v) (versions_unique v)
        (rewards_match s.strategy.testing_pattern s.criteria)
        (any_bad_path (v.baseline ∷ v.candidates)) _ _ _ _ in
    let candidates = candidates_lem s.strategy.testing_pattern v in
    let distinct = versions_unique-Distinct v in
    let rewards = rewards_lem s.strategy.testing_pattern s.criteria in
    let paths = paths_lem (v.baseline ∷ v.candidates) in
    (
      λ h.
          let (a, b, c, d) = tests.0 h in
          record {
            candidates = candidates.0 a;
            distinct = distinct.0 b;
            rewards = rewards.0 c;
            paths = paths.0 d;
          },
      λ h.
          tests.1 (
            candidates.1 h.candidates,
            distinct.1 h.distinct,
            rewards.1 h.rewards,
            paths.1 h.paths,
          ),
    )

problem_lem :
    (s : ExperimentSpec) (o : Option VersionInfo)
    → (problem_of s o ≡ none) ↔ ((v : VersionInfo) × (o ≡ some v) × HasVersions s v)
problem_lem s none = (λ h. absurd (cc), λ h. let (v, e, k) = h in absurd (cc))
problem_lem s (some v) = (
  λ h. (v, refl, (versions_lem s v).0 h),
  λ h.
      let (u, e, k) = h in
      let same : u ≡ v = cc in (versions_lem s v).1 (subst (HasVersions s) same k),
)

refuses : (o : Outcome Unit) (s : Env) → (continue o (λ a. pure false) s).0 ≢ done true
unfolding pure
refuses (done a) s e = cc
refuses panic s e = cc

module _ ⦃cl : Cluster⦄ where
  verdict_lem :
      (o : Option String) (s : Env)
      → (((elim o as (λ x. M Bool) [
        | none ↦ pure true
        | some m ↦ record_experiment_failed Reason.invalid_experiment m >> pure false
      ])
            s).0
          ≡ done true)
        ↔ (o ≡ none)
  unfolding pure ◌>>=◌
  verdict_lem none s = (λ h. refl, λ h. refl)
  verdict_lem (some m) s = (λ h. absurd (refuses _ _ h), λ h. absurd (cc))

  -- The test of the version information says yes exactly when it is there, has no candidate for a
  -- conformance test, one for A/B and canary tests and at least one for A/B/n tests, no two
  -- versions of it have one name, the criteria have one reward for A/B and A/B/n tests and none for
  -- conformance and canary tests, where they may be missing, and each field path is empty or starts
  -- with a dot.
  pub is_version_info_valid-HasVersions :
      (s : Env)
      → ((is_version_info_valid s).0 ≡ done true) ↔ (
          (v : VersionInfo) × (s.instance_.spec.version_info ≡ some v)
          × HasVersions s.instance_.spec v)
  unfolding is_version_info_valid ◌>>=◌ gets
  is_version_info_valid-HasVersions s =
      let spec = s.instance_.spec in
      let verdict = verdict_lem (problem_of spec spec.version_info) s in
      let problem = problem_lem spec spec.version_info in
      (λ h. problem.0 (verdict.0 h), λ h. verdict.1 (problem.1 h))
