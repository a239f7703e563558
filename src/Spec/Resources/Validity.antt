-- ===== src/Spec/Resources/Validity.antt =====
-- What the checks of resources and of the attestation accept.
use confidential_agent.Common.{
  ℕ, String, true, false, none, All, Any, string_eq, ◌↔◌, ◌≡◌, ◌≢◌, arith, contains_iff, Field, ok,
  WhenSome, when_some-eq-ok_iff, for_each-eq-ok_iff,
}
use confidential_agent.Common.Text.{is_empty, trim, starts_with}
use confidential_agent.Common.BTree.{BTreeMap}
use confidential_agent.Spec.Types.{AttestationSpec, rekor, RekorSpec, ResourceSpec}
use confidential_agent.Spec.Urls.Validity.{IsId, validate_id_iff}
use confidential_agent.Spec.Resources.{
  reserved_names, validate_resource, validate_resources, validate_rekor, validate_attestation,
}

-- An id that the platform does not use, with a source, and an absolute target in the guest.
pub record IsResource (entry : String × ResourceSpec) : Type 0 where
  pub name : IsId entry.0
  pub free : ¬ Any (λ r. r ≡ entry.0) reserved_names
  pub source : is_empty entry.1.source ≡ false
  pub target : starts_with b'/' entry.1.target ≡ true

resource_iff :
    (index : ℕ) (entry : String × ResourceSpec)
    → (validate_resource index entry ≡ ok tt) ↔ IsResource entry
unfolding validate_resource
resource_iff index (name, resource) =
    ground
      (arith, validate_id_iff (Field.name "resources key") name, contains_iff reserved_names name)

-- Resources are accepted exactly if each has a plain name that the platform does not reserve, a
-- source, and an absolute target.
pub validate_resources_iff :
    (resources : BTreeMap ResourceSpec)
    → (validate_resources resources ≡ ok tt) ↔ All IsResource resources
unfolding validate_resources
validate_resources_iff resources =
    for_each-eq-ok_iff IsResource validate_resource resource_iff 0 resources

pub record IsRekor (r : RekorSpec) : Type 0 where
  pub artifact_type : is_empty (trim r.artifact_type) ≡ false
  pub rekor_url : is_empty (trim r.rekor_url) ≡ false
  pub cosign_key : (r.required ≡ true) → r.cosign_key ≢ none

rekor_iff : (r : RekorSpec) → (validate_rekor r ≡ ok tt) ↔ IsRekor r
unfolding validate_rekor
rekor_iff r = ground arith

-- A Rekor entry is well formed, and there is one where the reference values come from Rekor.
pub record IsAttestation (a : AttestationSpec) : Type 0 where
  pub entry : WhenSome IsRekor a.rekor
  pub present : (a.reference_values ≡ rekor) → a.rekor ≢ none

-- The attestation part is accepted exactly if its Rekor entry is well formed and given where the
-- reference values come from Rekor.
pub validate_attestation_iff :
    (a : AttestationSpec) → (validate_attestation a ≡ ok tt) ↔ IsAttestation a
unfolding validate_attestation
validate_attestation_iff a =
    ground (arith, when_some-eq-ok_iff IsRekor validate_rekor rekor_iff a.rekor)
