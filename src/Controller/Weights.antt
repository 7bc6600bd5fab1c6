-- ===== src/Controller/Weights.antt =====
-- controllers/weights.go: traffic weights, written to the cluster by patches and read back.
pub mod Tallies
pub mod Totals
pub mod Wanted
pub mod Patches
use etc.Prelude.{
  ℕ, zero, suc, ◌≡◌, refl, Bool, true, false, ◌&&◌, not, Option, none, some, List, [], ◌∷◌, ◌++◌,
  String, str_eq, if◌then◌else◌,
}
use etc.Prelude.Int.{ℤ, pos, ◌+ℤ◌, ◌-ℤ◌, wrap32, eqb_ℤ}
use etc.Prelude.Text.{◌+++◌, is_empty, replace_char, replace_close_dot, parse_int32}
use etc.Api.Constants.{TestingPatternType, conformance, DeploymentPatternType, fixed_split}
use etc.Api.Types.{
  ObjectReference, VersionDetail, VersionInfo, WeightData, Analysis, Experiment, ExperimentStatus,
  Json,
}
use etc.Api.Defaults.Getters.{get_deployment_pattern}
use etc.Controller.Effects.{
  Call, find_resource, get_object, patch_object, PatchIntValue, Result, ok, err, Cluster, Env, M,
  ◌>>=◌, ◌>>◌, pure, gets, deref, panics, ask, set_status, get_instance,
}

abbrev pub is_conformance : TestingPatternType → Bool
is_conformance conformance = true
is_conformance _ = false

abbrev pub is_fixed_split : DeploymentPatternType → Bool
is_fixed_split fixed_split = true
is_fixed_split _ = false

unfoldable pub should_redistribute : Experiment → Bool
should_redistribute e =
    if is_conformance e.spec.strategy.testing_pattern
    then false
    else not (is_fixed_split (get_deployment_pattern e.spec))

-- The object of a reference, without the field path.
unfoldable pub get_key : ObjectReference → ObjectReference
get_key obj = record obj { field_path = "" }

unfoldable pub key_eq : ObjectReference → ObjectReference → Bool
key_eq a b =
    str_eq a.api_version b.api_version
    && str_eq a.kind b.kind
    && str_eq a.namespace b.namespace
    && str_eq a.name b.name
    && str_eq a.field_path b.field_path

unfoldable pub get_weight_recommendation : String → List WeightData → Option ℤ
get_weight_recommendation version [] = none
get_weight_recommendation version (w ∷ ws) =
    let rest = get_weight_recommendation version ws in
    if str_eq w.name version then some w.value else rest

-- A version with no observed weight has weight 0.
unfoldable pub get_current_weight : String → List WeightData → ℤ
get_current_weight version [] = pos 0
get_current_weight version (w ∷ ws) =
    let rest = get_current_weight version ws in if str_eq w.name version then w.value else rest

-- The path of the patch, from the field path of the reference.
unfoldable pub patch_path : String → String
patch_path field_path = replace_char b'.' (replace_close_dot (replace_char b'[' field_path))

-- map[corev1.ObjectReference][]patchIntValue
abbrev pub PatchMap : Type 0
PatchMap = List (ObjectReference × List PatchIntValue)

unfoldable pub add_to_map : ObjectReference → PatchIntValue → PatchMap → PatchMap
add_to_map key p [] = (key, p ∷ []) ∷ []
add_to_map key p ((k, ps) ∷ m) =
    let rest = add_to_map key p m in
    if key_eq k key then (k, ps ++ (p ∷ [])) ∷ m else (k, ps) ∷ rest

-- The recommendation in the status. A present analysis with no weights is a nil pointer.
unfoldable pub recommended : String → Option Analysis → M (Option ℤ)
recommended version none = pure none
recommended version (some a) = do
  w ← deref a.weights
  pure (get_weight_recommendation version w.content)

-- The patch of a version with this weight, if the weight changes.
unfoldable pub add_weight :
    VersionDetail → ObjectReference → ℤ → List WeightData → PatchMap → PatchMap
add_weight version ref weight observed patches =
    if eqb_ℤ weight (get_current_weight version.name observed)
    then patches
    else add_to_map (get_key ref)
        (record { op = "add"; path = patch_path ref.field_path; value = weight }) patches

unfoldable pub add_patch_to : VersionDetail → ObjectReference → PatchMap → M (Result PatchMap)
unfolding add_weight
add_patch_to version ref patches = if is_empty ref.field_path then pure (ok patches) else do
  i ← get_instance
  w ← recommended version.name i.status.analysis
  pure (elim w [
    | none ↦ err "no weight recommendation provided"
    | some weight ↦ ok (add_weight version ref weight i.status.current_weight_distribution patches)
  ])

-- The patch map grows by the patch of `version`, or stays where there is nothing to patch.
unfoldable pub add_patch : VersionDetail → PatchMap → M (Result PatchMap)
add_patch version patches = elim version.weight_obj_ref [
  | none ↦ pure (ok patches)
  | some ref ↦ add_patch_to version ref patches
]

-- The versions in order, up to the first error.
unfoldable pub add_patches : List VersionDetail → PatchMap → M (Result PatchMap)
add_patches [] patches = pure (ok patches)
add_patches (v ∷ vs) patches =
    add_patch v patches >>= λ r. elim r [ ok m ↦ add_patches vs m | err e ↦ pure (err e) ]

abbrev parsed : Result String → Result ℤ
parsed (err e) = err e
parsed (ok out) = elim (parse_int32 out) [ none ↦ err "invalid syntax" | some n ↦ ok n ]

-- The variables of `updateObservedWeights`.
pub record Observation : Type 0 where
  pub observed_weights : List WeightData
  pub missing : List String
  pub total : ℤ

abbrev pub no_observation : Observation
no_observation = record { observed_weights = []; missing = []; total = pos 0 }

abbrev pub set_distribution : List WeightData → ExperimentStatus → ExperimentStatus
set_distribution ws s = record s { current_weight_distribution = ws }

-- One missing weight is what the others leave of 100; more are accepted for a fixed split only.
unfoldable pub assign_missing : Observation → List String → M (Option String)
assign_missing o [] = set_status (set_distribution o.observed_weights) >> pure none
assign_missing o (name ∷ []) =
    set_status (
      set_distribution
        (o.observed_weights ++ (record { name = name; value = wrap32 (pos 100 -ℤ o.total) } ∷ [])))
    >> pure none
assign_missing o (name ∷ (other ∷ more)) = do
  i ← get_instance
  pattern_ ← deref i.spec.strategy.deployment_pattern
  if not (is_fixed_split pattern_)
      then pure
          (some "unable to read version weights; insufficient number of weightObjectRef specified")
      else set_status (set_distribution o.observed_weights) >> pure none

unfoldable pub assign_weights : Observation → M (Option String)
assign_weights o = assign_missing o o.missing

module _ ⦃cl : Cluster⦄ where
  -- The namespace to look in, or `none` for a kind that is not namespaced.
  unfoldable pub get_dynamic_resource_interface :
      ObjectReference → String → M (Result (Option String))
  get_dynamic_resource_interface ref default_namespace = do
    r ← ask (find_resource ref.api_version ref.kind) (λ t. cl.resource t ref.api_version ref.kind)
    let namespace = if is_empty ref.namespace then default_namespace else ref.namespace
    pure (elim r [
      | ok namespaced ↦ ok (if namespaced then some namespace else none)
      | err e ↦ err e
    ])

  -- The error of the patch, if any.
  unfoldable pub patch_weight : ObjectReference → List PatchIntValue → String → M (Option String)
  patch_weight ref patches namespace = do
    r ← get_dynamic_resource_interface ref namespace
    elim r [
      | ok ns ↦ ask (patch_object ref ns patches) (λ t. cl.patched t ref ns patches)
      | err e ↦ pure (some e)
    ]

  -- Every object is patched; an error is only logged.
  unfoldable pub apply_patches : PatchMap → String → M (Unit {0})
  apply_patches [] namespace = pure tt
  apply_patches ((obj, p) ∷ m) namespace =
      let rest = apply_patches m namespace in patch_weight obj p namespace >>= λ e. rest

  unfoldable pub redistribute_to : VersionInfo → M (Option String)
  redistribute_to info = do
    patches ← add_patches (info.baseline ∷ info.candidates) []
    i ← get_instance
    elim patches [ ok m ↦ apply_patches m i.namespace >> pure none | err e ↦ pure (some e) ]

  -- The error, if any.
  unfoldable pub redistribute_weight : M (Option String)
  redistribute_weight = do
    i ← get_instance
    if not (should_redistribute i) then pure none else elim i.spec.version_info [
      | none ↦ pure (some "cannot redistribute weight; no version information present")
      | some info ↦ redistribute_to info
    ]

  -- The value at the field path of an object that was read.
  abbrev read_field : String → Json → Result ℤ
  read_field field_path obj =
      if is_empty field_path
      then err "no fieldpath specified in referencing object"
      else parsed (cl.json_path ("{" +++ (field_path +++ "}")) obj)

  unfoldable pub observe_weight : ObjectReference → String → M (Result ℤ)
  observe_weight ref namespace = do
    r ← get_dynamic_resource_interface ref namespace
    elim r [
      | err e ↦ pure (err e)
      | ok ns ↦ do
        obj ← ask (get_object ref ns) (λ t. cl.object t ref ns)
        pure (elim obj [ err e ↦ err e | ok json ↦ read_field ref.field_path json ])
    ]

  -- One version: its weight is read, or it is listed as missing.
  unfoldable pub observe_ref :
      VersionDetail → Observation → String → Option ObjectReference → M (Result Observation)
  observe_ref v o namespace none = pure (ok (record o { missing = o.missing ++ (v.name ∷ []) }))
  observe_ref v o namespace (some ref) = do
    w ← observe_weight ref namespace
    pure (elim w [
      | err e ↦ err e
      | ok n ↦ ok (record o {
        observed_weights = o.observed_weights ++ (record { name = v.name; value = n } ∷ []);
        total = wrap32 (o.total +ℤ n);
      })
    ])

  unfoldable pub observe_version : VersionDetail → Observation → M (Result Observation)
  observe_version v o = do i ← get_instance; observe_ref v o i.namespace v.weight_obj_ref

  unfoldable pub observe_versions : List VersionDetail → Observation → M (Result Observation)
  observe_versions [] o = pure (ok o)
  observe_versions (v ∷ vs) o =
      observe_version v o >>= λ r. elim r [ ok o' ↦ observe_versions vs o' | err e ↦ pure (err e) ]

  unfoldable pub update_of : Option VersionInfo → M (Option String)
  update_of none = pure none
  update_of (some info) = do
    r ← observe_versions (info.baseline ∷ info.candidates) no_observation
    elim r [ err e ↦ pure (some e) | ok o ↦ assign_weights o ]

  -- The error, if any. With no version information there is nothing to observe.
  unfoldable pub update_observed_weights : M (Option String)
  update_observed_weights = do i ← get_instance; update_of i.spec.version_info
