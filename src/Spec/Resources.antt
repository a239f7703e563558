-- ===== src/Spec/Resources.antt =====
-- core/src/spec.rs: the application's resources and the attestation's Rekor entry.
pub mod Validity
use confidential_agent.Common.{
  ℕ, String, Bool, true, false, not, ◌&&◌, ◌||◌, Option, none, some, List, [], ◌∷◌, ◌==◌, string_eq,
  contains, Field, Problem, Result, ok, ◌>>=◌, ◌>>◌, bail_if, ensure, when_some, for_each,
}
use confidential_agent.Common.Text.{is_empty, trim, starts_with}
use confidential_agent.Common.BTree.{BTreeMap}
use confidential_agent.Spec.Types.{
  AttestationSpec, ReferenceValueMode, sample, rekor, RekorSpec, ResourceSpec,
}
use confidential_agent.Spec.Container.{option_is_some}
use confidential_agent.Spec.Urls.{validate_id}

-- The names that the platform delivers itself.
unfoldable pub reserved_names : List String
reserved_names =
    "disk_passphrase" ∷ "data_passphrase" ∷ "cagent_bootstrap_config" ∷ "cagent_mesh_bundle"
    ∷ "cagent_a2a_bundle" ∷ "cagent_reference_value_list" ∷ []

-- One round of the loop over the resources.
unfoldable pub validate_resource : ℕ → String × ResourceSpec → Result (Unit {0})
validate_resource index (name, resource) = do
  validate_id (Field.name "resources key") name
  ensure (not (contains reserved_names name)) (Field.name name) Problem.reserved
  bail_if (is_empty resource.source) (Field.name "source") Problem.empty
  bail_if (not (starts_with b'/' resource.target)) (Field.name "target") Problem.relative

unfoldable pub validate_resources : BTreeMap ResourceSpec → Result (Unit {0})
validate_resources resources = for_each validate_resource 0 resources

unfoldable pub validate_rekor : RekorSpec → Result (Unit {0})
validate_rekor r = do
  bail_if (is_empty (trim r.artifact_type)) (Field.name "artifact_type") Problem.empty
  bail_if (is_empty (trim r.rekor_url)) (Field.name "rekor_url") Problem.empty
  bail_if (r.required && not (option_is_some r.cosign_key)) (Field.name "cosign_key")
      Problem.required

abbrev pub mode_is_rekor : ReferenceValueMode → Bool
mode_is_rekor sample = false
mode_is_rekor rekor = true

unfoldable pub validate_attestation : AttestationSpec → Result (Unit {0})
validate_attestation a = do
  when_some validate_rekor a.rekor
  bail_if (mode_is_rekor a.reference_values && not (option_is_some a.rekor))
      (Field.name "attestation.rekor") Problem.required
