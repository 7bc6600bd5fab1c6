-- ===== src/Controller/Weights/Wanted.antt =====
-- The patches that the versions ask for, and those of a map: controllers/weights.go, addPatch.
use etc.Prelude.{
  ◌≡◌, ◌↔◌, true, false, Option, none, some, List, [], ◌∷◌, ◌++◌, String, eq_iff, arith, Any,
  if◌then◌else◌,
}
use mathlib.Core.List.{append-nil}
use etc.Prelude.Int.{ℤ, eqb_ℤ}
use etc.Prelude.Text.{is_empty}
use etc.Api.Types.{ObjectReference, VersionDetail, WeightData}
use etc.Controller.Effects.{PatchIntValue, Result, ok, err}
use etc.Controller.Weights.{
  get_key, key_eq, get_weight_recommendation, get_current_weight, patch_path, PatchMap, add_to_map,
}

pub key_eq_lem : (a b : ObjectReference) → (key_eq a b ≡ true) ↔ (a ≡ b)
unfolding key_eq
key_eq_lem a b = ground (
  arith,
  eq_iff a.api_version b.api_version,
  eq_iff a.kind b.kind,
  eq_iff a.namespace b.namespace,
  eq_iff a.name b.name,
  eq_iff a.field_path b.field_path,
)

-- The patches of an object in a map: those of its first entry.
unfoldable pub patches_at : ObjectReference → PatchMap → List PatchIntValue
patches_at key [] = []
patches_at key (entry ∷ m) = if key_eq entry.0 key then entry.1 else patches_at key m

-- The one patch that a version asks for, with the object that it is for: none where the version
-- refers to no field, or has no recommended weight, or has that weight already.
abbrev pub weight_patch :
    String → ObjectReference → List WeightData → Option ℤ → List (ObjectReference × PatchIntValue)
weight_patch name ref current none = []
weight_patch name ref current (some weight) =
    if eqb_ℤ weight (get_current_weight name current)
    then []
    else (get_key ref, record { op = "add"; path = patch_path ref.field_path; value = weight }) ∷ []

abbrev pub ref_patch :
    String
    → List WeightData
    → List WeightData
    → Option ObjectReference
    → List (ObjectReference × PatchIntValue)
ref_patch name recommendations current none = []
ref_patch name recommendations current (some ref) =
    if is_empty ref.field_path
    then []
    else weight_patch name ref current (get_weight_recommendation name recommendations)

abbrev pub version_patch :
    List WeightData → List WeightData → VersionDetail → List (ObjectReference × PatchIntValue)
version_patch recommendations current v = ref_patch v.name recommendations current v.weight_obj_ref

-- The patches that a list of pairs has for an object, in order.
unfoldable pub patches_for :
    ObjectReference → List (ObjectReference × PatchIntValue) → List PatchIntValue
patches_for key [] = []
patches_for key (pair ∷ pairs) =
    if key_eq pair.0 key then pair.1 ∷ patches_for key pairs else patches_for key pairs

-- The patches for an object that the versions ask for, in their order.
unfoldable pub expected :
    ObjectReference → List WeightData → List WeightData → List VersionDetail → List PatchIntValue
expected key recommendations current [] = []
expected key recommendations current (v ∷ vs) =
    patches_for key (version_patch recommendations current v)
    ++ expected key recommendations current vs

pub patches_at-add :
    (key other : ObjectReference) (p : PatchIntValue) (m : PatchMap)
    → patches_at other (add_to_map key p m)
      ≡ patches_at other m ++ patches_for other ((key, p) ∷ [])
unfolding patches_at patches_for add_to_map
patches_at-add key other p [] = ground arith
patches_at-add key other p (entry ∷ m) = ground (
  arith,
  key_eq_lem entry.0 key,
  key_eq_lem entry.0 other,
  key_eq_lem key other,
  patches_at-add key other p m,
  append-nil entry.1,
  append-nil (patches_at other m),
)

-- What adding the patch of a version gives: a map with that patch, if it asks for one, or an error
-- where the version refers to a field and no weight is recommended for it.
abbrev pub Lacks : List WeightData → VersionDetail → Type 0
Lacks recommendations v =
    (ref : ObjectReference) × (v.weight_obj_ref ≡ some ref)
    × (is_empty ref.field_path ≡ false)
    × (get_weight_recommendation v.name recommendations ≡ none)

abbrev pub Adds :
    List WeightData → List WeightData → VersionDetail → PatchMap → Result PatchMap → Type 0
Adds recommendations current v m (ok m') =
    (key : ObjectReference)
    → patches_at key m'
      ≡ patches_at key m ++ patches_for key (version_patch recommendations current v)
Adds recommendations current v m (err e) = Lacks recommendations v

-- What the loop gives: every object has the patches that the versions ask for, in their order, or
-- some version lacks a recommendation.
abbrev pub AddsAll :
    List WeightData → List WeightData → List VersionDetail → PatchMap → Result PatchMap → Type 0
AddsAll recommendations current vs m (ok m') =
    (key : ObjectReference)
    → patches_at key m' ≡ patches_at key m ++ expected key recommendations current vs
AddsAll recommendations current vs m (err e) = Any (Lacks recommendations) vs
