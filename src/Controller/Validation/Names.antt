-- ===== src/Controller/Validation/Names.antt =====
-- Names of versions: controllers/validatation.go, versionsUnique against distinctness.
use etc.Prelude.{
  ◌≡◌, refl, true, false, List, [], ◌∷◌, ◌++◌, String, str_eq, All, arith, ◌↔◌, ◌||◌, ◌∙◌,
  Bool-cases, inl, inr, sym,
}
use etc.Api.Types.{VersionDetail, VersionInfo}
use etc.Controller.Target.{contains_string}
use etc.Controller.Validation.{unique_from, versions_unique}

-- No name is that of another version of the list.
abbrev pub Distinct : List VersionDetail → Type 0
Distinct [] = Unit {0}
Distinct (v ∷ vs) = All (λ w. str_eq v.name w.name ≡ false) vs × Distinct vs

abbrev Fresh : List String → List VersionDetail → Type 0
Fresh seen vs = All (λ w. contains_string seen w.name ≡ false) vs

contains_string-append :
    (seen : List String) (n m : String)
    → contains_string (seen ++ (n ∷ [])) m ≡ contains_string seen m || str_eq n m
unfolding contains_string
contains_string-append [] n m = ground arith
contains_string-append (x ∷ seen) n m = ground (arith, contains_string-append seen n m)

split-Fresh :
    (seen : List String) (n : String) (vs : List VersionDetail)
    → Fresh (seen ++ (n ∷ [])) vs
    → Fresh seen vs × All (λ w. str_eq n w.name ≡ false) vs
split-Fresh seen n [] h = (tt, tt)
split-Fresh seen n (v ∷ vs) h =
    let (p, q) = split-Fresh seen n vs h.1 in
    let e = sym (contains_string-append seen n v.name) ∙ h.0 in
    ((ground arith, p), (ground arith, q))

join-Fresh :
    (seen : List String) (n : String) (vs : List VersionDetail)
    → Fresh seen vs
    → All (λ w. str_eq n w.name ≡ false) vs
    → Fresh (seen ++ (n ∷ [])) vs
join-Fresh seen n [] h k = tt
join-Fresh seen n (v ∷ vs) h k =
    (contains_string-append seen n v.name ∙ ground (arith, h.0, k.0), join-Fresh seen n vs h.1 k.1)

unique_sound :
    (seen : List String) (vs : List VersionDetail)
    → unique_from seen vs ≡ true
    → Fresh seen vs × Distinct vs
unfolding unique_from
unique_sound seen [] h = (tt, tt)
unique_sound seen (v ∷ vs) h = elim (Bool-cases (contains_string seen v.name)) [
  | inl e ↦ absurd (ground arith)
  | inr e ↦
      let (f, d) = unique_sound (seen ++ (v.name ∷ [])) vs (rw e at h) in
      let (p, q) = split-Fresh seen v.name vs f in ((e, p), (q, d))
]

unique_complete :
    (seen : List String) (vs : List VersionDetail)
    → Fresh seen vs
    → Distinct vs
    → unique_from seen vs ≡ true
unfolding unique_from
unique_complete seen [] f d = refl
unique_complete seen (v ∷ vs) f d =
    rw f.0 (unique_complete (seen ++ (v.name ∷ [])) vs (join-Fresh seen v.name vs f.1 d.0) d.1)

seen_one : (n m : String) → contains_string (n ∷ []) m ≡ str_eq n m
unfolding contains_string
seen_one n m = ground arith

Fresh-of :
    (n : String) (vs : List VersionDetail)
    → All (λ w. str_eq n w.name ≡ false) vs
    → Fresh (n ∷ []) vs
Fresh-of n [] h = tt
Fresh-of n (v ∷ vs) h = (seen_one n v.name ∙ h.0, Fresh-of n vs h.1)

Fresh-others :
    (n : String) (vs : List VersionDetail)
    → Fresh (n ∷ []) vs
    → All (λ w. str_eq n w.name ≡ false) vs
Fresh-others n [] h = tt
Fresh-others n (v ∷ vs) h = (sym (seen_one n v.name) ∙ h.0, Fresh-others n vs h.1)

-- The versions of an experiment are accepted exactly when no two of them, the baseline included,
-- have one name.
pub versions_unique-Distinct :
    (v : VersionInfo) → (versions_unique v ≡ true) ↔ Distinct (v.baseline ∷ v.candidates)
unfolding versions_unique
versions_unique-Distinct v = (
  λ h.
      let (f, d) = unique_sound (v.baseline.name ∷ []) v.candidates h in
      (Fresh-others v.baseline.name v.candidates f, d),
  λ d.
      unique_complete (v.baseline.name ∷ []) v.candidates
        (Fresh-of v.baseline.name v.candidates d.0) d.1,
)
