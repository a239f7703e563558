-- ===== src/Spec/Checks.antt =====
-- core/src/spec.rs: `AgentSpec::validate`, part by part in its order.
pub mod Parts
pub mod Validity
pub mod Loading
mod Examples
use confidential_agent.Common.{
  ℕ, suc, ◌<◌, String, Bool, true, false, not, ◌&&◌, ◌||◌, Option, none, some, List, [], ◌∷◌, any,
  is_empty, length, ltb, leb, ◌==◌, nat_eq, string_eq, if◌then◌else◌, contains, is_hexdigit,
  is_alphanumeric, nat_eqb, Field, Problem, Error, Result, ok, err, bad, ◌>>=◌, ◌>>◌, bail_if,
  ensure, when_some, for_each,
}
use mathlib.Core.Option.{get_or}
use confidential_agent.Common.Text
use confidential_agent.Common.Text.{
  empty_text, byte_len, trim, all_chars, strip_prefix, starts_with,
}
use confidential_agent.Common.BTree.{BTreeMap}
use confidential_agent.Spec.Types.{
  AgentSpec, ServiceSpec, BuildSpec, BuildRepositorySpec, BuildVariantSpec, BuildFileSpec,
  DeploySpec, PublishedImageSpec, SlbSpec, SlbType, nlb, alb, AttestationSpec, AttestationMode,
  challenge, trustee, ReferenceValueMode, sample, rekor, RekorSpec, ResourceSpec, A2aSpec,
  A2aInterfaceSpec, A2aSigningSpec, A2aSkillSpec, EncryptionMode, rats_tls, ohttp, ConnectPort,
}
use confidential_agent.Spec.Ports.{
  port, encryption, connect_ports, validate_ports, validate_connect_ports, validate_mcp_ports,
}
use confidential_agent.Spec.Container.{option_is_some, is_blank, validate_build_container}
use confidential_agent.Spec.Disk.{deployment_disk_gb}
use confidential_agent.Spec.Urls.{validate_id, validate_https_url, validate_package}
use confidential_agent.Spec.Resources.{validate_resources, validate_attestation}
use confidential_agent.Spec.AgentToAgent.{validate_a2a}
use confidential_agent.Trustee.{validate_trustee_service_id}

unfoldable pub schema_version : String
schema_version = "confidential-agent/v1"

-- `AgentSpec::image_variant`
unfoldable pub image_variant : AgentSpec → String
image_variant spec = get_or spec.deploy.image_variant "release"

-- `AgentSpec::deploys_debug_image`
unfoldable pub deploys_debug_image : AgentSpec → Bool
unfolding image_variant
deploys_debug_image spec = image_variant spec == "debug"

-- `AgentSpec::image_id`
unfoldable pub image_id : AgentSpec → String
image_id spec = elim (spec.deploy.image) [
  | none ↦ spec.build.image_name
  | some image ↦ get_or image.manifest "published-image"
]

abbrev pub mode_is_trustee : AttestationMode → Bool
mode_is_trustee challenge = false
mode_is_trustee trustee = true

abbrev pub field : String → Field
field = Field.name

-- `if test { check? }`
abbrev pub when : Bool → Result (Unit {0}) → Result (Unit {0})
when true check = check
when false check = ok tt

-- The schema, the id, the disk, and what the mode and the image ask of the service.
unfoldable pub validate_service : AgentSpec → Result (Unit {0})
validate_service spec = do
  bail_if (not (spec.schema == schema_version)) (field "schema") Problem.version
  validate_id (field "service.id") spec.service.id
  size ← deployment_disk_gb spec
  when (mode_is_trustee spec.attestation.mode) (validate_trustee_service_id spec.service.id)
  bail_if (is_blank spec.service.app_service) (field "service.app_service") Problem.empty
  bail_if (spec.service.ssh && deploys_debug_image spec) (field "service.ssh") Problem.conflict

-- `manifest.strip_prefix("sha256:").unwrap_or_default()` is 64 hexadecimal digits.
unfoldable pub validate_manifest : String → Result (Unit {0})
validate_manifest manifest = do
  let digest = get_or (strip_prefix "sha256:" manifest) empty_text
  bail_if (not (byte_len digest == 64) || not (all_chars is_hexdigit digest))
      (field "deploy.image.manifest") Problem.syntax

abbrev pub is_image_id_char : ℕ → Bool
is_image_id_char c = is_alphanumeric c || nat_eqb c b'-'

unfoldable pub validate_image_id : String → Result (Unit {0})
validate_image_id id =
    bail_if (Text.is_empty id || not (all_chars is_image_id_char id))
      (field "deploy.image.image_id") Problem.syntax

-- Any input of a local build.
unfoldable pub has_build_inputs : BuildSpec → Bool
has_build_inputs build =
    not (Text.is_empty build.image_name)
    || not (is_empty build.packages)
    || not (is_empty build.files)
    || not (is_empty build.scripts)
    || not (is_empty build.repos)
    || option_is_some build.container
    || option_is_some build.resize
    || option_is_some build.runtime_contract
    || option_is_some build.kernel_cmdline_append
    || option_is_some build.cleanup.remove_static_libs
    || option_is_some build.variants.debug

unfoldable pub validate_published_image : BuildSpec → PublishedImageSpec → Result (Unit {0})
validate_published_image build image = do
  bail_if
      (Text.is_empty image.release
        || (not image.skip_signature_verification && Text.is_empty image.trusted_key))
      (field "deploy.image") Problem.required
  when_some validate_manifest image.manifest
  when_some validate_image_id image.image_id
  bail_if (has_build_inputs build) (field "build") Problem.conflict

-- A published image, or the name of the image to build.
unfoldable pub validate_image : AgentSpec → Result (Unit {0})
validate_image spec = elim (spec.deploy.image) [
  | some image ↦ validate_published_image spec.build image
  | none ↦ validate_id (field "build.image_name") spec.build.image_name
]

unfoldable pub validate_network : AgentSpec → Result (Unit {0})
validate_network spec = do
  validate_ports (field "service.ports") spec.service.ports
  validate_connect_ports spec.service.ports spec.service.connect
  validate_mcp_ports spec.service.ports spec.service.connect spec.service.mcp_ports

-- The loop over the repositories; `repo_names` holds the names before.
unfoldable pub validate_repos : List String → List BuildRepositorySpec → Result (Unit {0})
validate_repos repo_names [] = ok tt
validate_repos repo_names (repo ∷ repos) = do
  validate_id (field "build.repos.name") repo.name
  validate_https_url (field "build.repos.baseurl") repo.baseurl
  validate_https_url (field "build.repos.gpgkey") repo.gpgkey
  bail_if (contains repo_names repo.name) (field "build.repos.name") Problem.duplicate
  validate_repos (repo.name ∷ repo_names) repos

unfoldable pub validate_build : BuildSpec → Result (Unit {0})
validate_build build = do
  for_each validate_package 0 build.packages
  validate_repos [] build.repos
  when_some validate_build_container build.container

abbrev pub is_ohttp : ConnectPort → Bool
is_ohttp cp = elim (encryption cp) [ rats_tls ↦ false | ohttp ↦ true ]

abbrev pub is_rats_tls : ConnectPort → Bool
is_rats_tls cp = elim (encryption cp) [ rats_tls ↦ true | ohttp ↦ false ]

-- `iter().filter(p).count()`
unfoldable pub count {ℓ} : {A : Type ℓ} → (A → Bool) → List A → ℕ
count p [] = 0
count p (x ∷ xs) = if p x then suc (count p xs) else count p xs

abbrev pub slb_enabled : Option SlbSpec → Bool
slb_enabled none = false
slb_enabled (some slb) = slb.enabled

abbrev pub slb_is_alb : SlbType → Bool
slb_is_alb nlb = false
slb_is_alb alb = true

unfoldable pub validate_slb : ℕ → List ConnectPort → SlbSpec → Result (Unit {0})
validate_slb replicas connect slb = do
  when slb.enabled do
    ensure (ltb 1 replicas) (field "deploy.replicas") Problem.too_small
    ensure (not (is_empty connect)) (field "service.connect") Problem.required
  bail_if (slb.enabled && slb_is_alb slb.slb_type && any is_rats_tls connect)
      (field "deploy.slb.slb_type") Problem.conflict

unfoldable pub validate_deploy : AgentSpec → Result (Unit {0})
validate_deploy spec = do
  bail_if (Text.is_empty (trim spec.deploy.instance_type)) (field "deploy.instance_type")
      Problem.empty
  bail_if (Text.is_empty (trim spec.deploy.region)) (field "deploy.region") Problem.empty
  bail_if (Text.is_empty (trim spec.deploy.zone_id)) (field "deploy.zone_id") Problem.empty
  bail_if (spec.deploy.replicas == 0) (field "deploy.replicas") Problem.zero_value
  bail_if (ltb 1 spec.deploy.replicas && not (slb_enabled spec.deploy.slb)) (field "deploy.slb")
      Problem.required
  when (ltb 1 spec.deploy.replicas) (
      ensure (leb (count is_ohttp spec.service.connect) 1) (field "service.connect")
        Problem.unsupported)
  when_some (validate_slb spec.deploy.replicas spec.service.connect) spec.deploy.slb

unfoldable pub validate_variant : String → BuildVariantSpec → Result (Unit {0})
validate_variant name variant =
    bail_if (name == "release" && option_is_some variant.ssh_public_key)
      (field "build.variants.release.ssh_public_key") Problem.conflict

unfoldable pub validate_file : ℕ → BuildFileSpec → Result (Unit {0})
validate_file index file = do
  bail_if (Text.is_empty file.source) (Field.item "build.files" index "source") Problem.empty
  bail_if (not (starts_with b'/' file.target)) (Field.item "build.files" index "target")
      Problem.relative

unfoldable pub validate_debug : Option BuildVariantSpec → Result (Unit {0})
validate_debug none = err (bad (field "deploy.image_variant") Problem.required)
validate_debug (some debug) =
    bail_if (not debug.enabled) (field "deploy.image_variant") Problem.required

-- The match on the image's variant.
unfoldable pub validate_image_variant : AgentSpec → Result (Unit {0})
validate_image_variant spec =
    let variant = image_variant spec in
    let local = not (option_is_some spec.deploy.image) in
    if variant == "release"
    then bail_if (local && not spec.build.variants.release.enabled) (field "deploy.image_variant")
        Problem.required
    else if variant == "debug"
    then when local (validate_debug spec.build.variants.debug)
    else err (bad (field "deploy.image_variant") Problem.unsupported)

unfoldable pub validate_variants : AgentSpec → Result (Unit {0})
validate_variants spec = do
  validate_variant "release" spec.build.variants.release
  when_some (validate_variant "debug") spec.build.variants.debug
  for_each validate_file 0 spec.build.files
  validate_image_variant spec

unfoldable pub validate : AgentSpec → Result (Unit {0})
validate spec = do
  validate_service spec
  validate_image spec
  validate_network spec
  validate_build spec.build
  validate_deploy spec
  validate_variants spec
  validate_resources spec.resources
  validate_attestation spec.attestation
  when_some (validate_a2a spec.service.connect) spec.a2a
