-- ===== src/Prelude/Lists.antt =====
-- Lists measured by native numbers, association lists for Go maps, and predicates on lists.
use Prim.Native.Nat.{ℕ, zero, suc, ◌+◌}
use Prim.Native.String.{String}
use mathlib.Core.Path.{◌≡◌, refl}
use mathlib.Core.Logic.{◌⊎◌}
use mathlib.Core.Option.{Option, none, some}
use mathlib.Core.List.{List, [], ◌∷◌, ◌++◌}
use native.Mathlib.Omega.{arith}
use text.Mathlib.Text.{◌==◌ as str_eq}
use text.Mathlib.TextEquality.{eq_iff}
use etc.Prelude.Tests.{if◌then◌else◌}

module _ {ℓ} {A : Type ℓ} where
  abbrev pub length : List A → ℕ
  length [] = 0
  length (x ∷ xs) = suc (length xs)

  abbrev pub get_elem? : List A → ℕ → Option A
  get_elem? [] i = none
  get_elem? (x ∷ xs) zero = some x
  get_elem? (x ∷ xs) (suc i) = get_elem? xs i

  pub length-append : (xs ys : List A) → length (xs ++ ys) ≡ length xs + length ys
  length-append [] ys = omega arith
  length-append (x ∷ xs) ys = omega (arith, length-append xs ys)

-- `P` holds of every element; of some element, with the witness kept.
abbrev pub All {ℓ} : {A : Type ℓ} → (A → Type 0) → List A → Type 0
All P [] = Unit {0}
All P (x ∷ xs) = P x × All P xs

abbrev pub Any {ℓ} : {A : Type ℓ} → (A → Type 0) → List A → Type 0
Any P [] = ⊥
Any P (x ∷ xs) = P x ⊎ Any P xs

module _ {ℓ} {A : Type ℓ} (P : A → Type 0) where
  pub All-append : (xs ys : List A) → All P xs → All P ys → All P (xs ++ ys)
  All-append [] ys h k = k
  All-append (x ∷ xs) ys h k = (h.0, All-append xs ys h.1 k)

-- A Go map with text keys. The order of a list is one order in which `range` may visit the map.
module _ {ℓ} {B : Type ℓ} where
  unfoldable pub lookup : String → List (String × B) → Option B
  lookup key [] = none
  lookup key (entry ∷ entries) = if str_eq entry.0 key then some entry.1 else lookup key entries

  -- m[key] = b
  unfoldable pub insert : String → B → List (String × B) → List (String × B)
  insert key b [] = (key, b) ∷ []
  insert key b (entry ∷ entries) =
      if str_eq entry.0 key then (key, b) ∷ entries else entry ∷ insert key b entries

  pub lookup-cons :
      (key : String) (entry : String × B) (entries : List (String × B))
      → lookup key (entry ∷ entries)
        ≡ (if str_eq entry.0 key then some entry.1 else lookup key entries)
  unfolding lookup
  lookup-cons key entry entries = refl

  pub lookup-nil : (key : String) → lookup key [] ≡ none
  unfolding lookup
  lookup-nil key = refl

  pub lookup-insert :
      (key : String) (b : B) (entries : List (String × B)) (other : String)
      → lookup other (insert key b entries)
        ≡ (if str_eq key other then some b else lookup other entries)
  unfolding lookup insert
  lookup-insert key b [] other = refl
  lookup-insert key b (entry ∷ entries) other = ground (
    arith,
    lookup-insert key b entries other,
    eq_iff entry.0 other,
    eq_iff key other,
    eq_iff entry.0 key,
  )
