-- ===== src/Controller/Steps/Traffic.antt =====
-- The weights and the handlers, as steps of a request.
use etc.Prelude.{Option, none, some, List, [], ◌∷◌, String}
use etc.Api.Types.{VersionDetail, VersionInfo, ObjectReference, WeightData, Analysis}
use etc.Controller.Effects.{Cluster, set_status, PatchIntValue}
use etc.Controller.Weights.{
  PatchMap, add_patch, add_patches, add_patch_to, recommended, get_dynamic_resource_interface,
  patch_weight, apply_patches, redistribute_to, redistribute_weight, observe_weight, observe_ref,
  observe_version, observe_versions, Observation, set_distribution, assign_missing, assign_weights,
  update_of, update_observed_weights,
}
use etc.Controller.Steps.{observed, Reach-step}
use etc.Controller.Steps.Rules.{
  Follows, Follows-option, Follows-result, Follows-result', Follows-gets, Follows-if, Follows-pure,
  Follows-deref, Follows-ask, ◌▷◌, follows_rules,
}

Follows-recommended : (v : String) (a : Option Analysis) → Follows (recommended v a)
unfolding recommended
Follows-recommended v none = Follows-pure none
Follows-recommended v (some a) = search follows_rules

Follows-add_to :
    (v : VersionDetail) (ref : ObjectReference) (m : PatchMap) → Follows (add_patch_to v ref m)
unfolding add_patch_to
Follows-add_to v ref m =
    Follows-if _ (Follows-pure _)
      (Follows-gets _ ▷ λ i. Follows-recommended _ _ ▷ λ w. Follows-pure _)

Follows-add_patch : (v : VersionDetail) (m : PatchMap) → Follows (add_patch v m)
unfolding add_patch
Follows-add_patch v m = Follows-option _ (Follows-pure _) (λ ref. Follows-add_to v ref m)

Follows-add_patches : (vs : List VersionDetail) (m : PatchMap) → Follows (add_patches vs m)
unfolding add_patches
Follows-add_patches [] m = Follows-pure _
Follows-add_patches (v ∷ vs) m = Follows-add_patch v m ▷ λ r.
    Follows-result r (λ m'. Follows-add_patches vs m') (λ e. Follows-pure _)

distribution_step : (ws : List WeightData) → Follows (set_status (set_distribution ws))
unfolding set_status
distribution_step ws = record { at = λ s. Reach-step (observed ws s) }

module _ ⦃cl : Cluster⦄ where
  Follows-interface :
      (ref : ObjectReference) (ns : String) → Follows (get_dynamic_resource_interface ref ns)
  unfolding get_dynamic_resource_interface
  Follows-interface ref ns = Follows-ask _ _ ▷ λ r. Follows-pure _

  Follows-patch :
      (ref : ObjectReference) (ps : List PatchIntValue) (ns : String)
      → Follows (patch_weight ref ps ns)
  unfolding patch_weight
  Follows-patch ref ps ns =
      Follows-interface ref ns ▷ λ r. Follows-result r (λ n. Follows-ask _ _) (λ e. Follows-pure _)

  Follows-apply : (m : PatchMap) (ns : String) → Follows (apply_patches m ns)
  unfolding apply_patches
  Follows-apply [] ns = Follows-pure tt
  Follows-apply ((obj, p) ∷ m) ns = Follows-patch obj p ns ▷ λ e. Follows-apply m ns

  Follows-redistribute_to : (info : VersionInfo) → Follows (redistribute_to info)
  unfolding redistribute_to
  Follows-redistribute_to info = Follows-add_patches _ _ ▷ λ r. Follows-gets _ ▷ λ i.
      Follows-result r (λ m. Follows-apply m _ ▷ λ _. Follows-pure _) (λ e. Follows-pure _)

  pub Follows-redistribute : Follows redistribute_weight
  unfolding redistribute_weight
  Follows-redistribute = Follows-gets _ ▷ λ i.
      Follows-if _ (Follows-pure _)
        (Follows-option _ (Follows-pure _) (λ info. Follows-redistribute_to info))

  Follows-observe : (ref : ObjectReference) (ns : String) → Follows (observe_weight ref ns)
  unfolding observe_weight
  Follows-observe ref ns = Follows-interface ref ns ▷ λ r.
      Follows-result' r (λ e. Follows-pure _) (λ n. Follows-ask _ _ ▷ λ o. Follows-pure _)

  Follows-ref :
      (v : VersionDetail) (o : Observation) (ns : String) (r : Option ObjectReference)
      → Follows (observe_ref v o ns r)
  unfolding observe_ref
  Follows-ref v o ns none = Follows-pure _
  Follows-ref v o ns (some ref) = Follows-observe ref _ ▷ λ w. Follows-pure _

  Follows-version : (v : VersionDetail) (o : Observation) → Follows (observe_version v o)
  unfolding observe_version
  Follows-version v o = Follows-gets _ ▷ λ i. Follows-ref v o _ _

  Follows-versions : (vs : List VersionDetail) (o : Observation) → Follows (observe_versions vs o)
  unfolding observe_versions
  Follows-versions [] o = Follows-pure _
  Follows-versions (v ∷ vs) o = Follows-version v o ▷ λ r.
      Follows-result r (λ o'. Follows-versions vs o') (λ e. Follows-pure _)

  Follows-missing : (o : Observation) (names : List String) → Follows (assign_missing o names)
  unfolding assign_missing
  Follows-missing o [] = distribution_step _ ▷ λ _. Follows-pure _
  Follows-missing o (name ∷ []) = distribution_step _ ▷ λ _. Follows-pure _
  Follows-missing o (name ∷ (other ∷ more)) = Follows-gets _ ▷ λ i. Follows-deref _ ▷ λ p.
      Follows-if _ (Follows-pure _) (distribution_step _ ▷ λ _. Follows-pure _)

  Follows-update_of : (o : Option VersionInfo) → Follows (update_of o)
  unfolding update_of assign_weights
  Follows-update_of none = Follows-pure _
  Follows-update_of (some info) =
      Follows-versions _ _ ▷ λ r. Follows-result' r (λ e. Follows-pure _) (λ o. Follows-missing o _)

  pub Follows-update : Follows update_observed_weights
  unfolding update_observed_weights
  Follows-update = Follows-gets _ ▷ λ i. Follows-update_of _
