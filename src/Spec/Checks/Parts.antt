-- ===== src/Spec/Checks/Parts.antt =====
-- What each part of `AgentSpec::validate` accepts.
use mathlib.Core.Option.{get_or}
use confidential_agent.Common.{
  ℕ, ◌<◌, ◌≤◌, String, true, false, Option, none, some, List, [], ◌∷◌, All, Distinct, map, any,
  is_empty, nat_eq, string_eq, ◌↔◌, ◌≡◌, ◌≢◌, ◌⊎◌, inl, inr, refl, arith, distinct_from,
  distinct_from-nil_iff, is_hexdigit, ok, WhenSome, when_some, when_some-eq-ok_iff,
  for_each-eq-ok_iff, Result-cases, Option-cases,
}
use confidential_agent.Common.Text
use confidential_agent.Common.Text.{
  empty_text, byte_len, trim, all_chars, strip_prefix, starts_with,
}
use confidential_agent.Spec.Types.{
  AgentSpec, BuildSpec, BuildRepositorySpec, BuildVariantSpec, BuildFileSpec, PublishedImageSpec,
  SlbSpec, alb, trustee, ConnectPort, ohttp,
}
use confidential_agent.Spec.Ports.{encryption}
use confidential_agent.Spec.Ports.Validity.{
  ArePorts, AreConnectPorts, AreMcpPorts, validate_ports_iff, validate_connect_ports_iff,
  validate_mcp_ports_iff,
}
use confidential_agent.Spec.Container.{validate_build_container}
use confidential_agent.Spec.Container.Validity.{IsContainer, validate_build_container_iff}
use confidential_agent.Spec.Disk.{deployment_disk_gb}
use confidential_agent.Spec.Urls.{validate_package}
use confidential_agent.Spec.Urls.Validity.{
  IsId, IsHttpsUrl, IsPackage, validate_id_iff, validate_https_url_iff, validate_package_iff,
}
use confidential_agent.Trustee.Validity.{IsServiceId, validate_trustee_service_id_iff}
use confidential_agent.Spec.Checks.{
  schema_version, image_variant, deploys_debug_image, field, validate_service, validate_manifest,
  is_image_id_char, validate_image_id, has_build_inputs, validate_published_image, validate_image,
  validate_network, validate_repos, validate_build, is_ohttp, is_rats_tls, count, slb_enabled,
  validate_slb, validate_deploy, validate_variant, validate_file, validate_debug,
  validate_image_variant, validate_variants,
}

-- The service's own part; its disk has a size, and SSH is for release images only.
pub record IsService (spec : AgentSpec) : Type 0 where
  pub schema : spec.schema ≡ schema_version
  pub id : IsId spec.service.id
  pub disk : (size : ℕ) × (deployment_disk_gb spec ≡ ok size)
  pub trustee : (spec.attestation.mode ≡ trustee) → IsServiceId spec.service.id
  pub app_service : WhenSome (λ s. Text.is_empty (trim s) ≡ false) spec.service.app_service
  pub ssh : (spec.service.ssh ≡ true) → image_variant spec ≢ "debug"

debug_iff : (spec : AgentSpec) → (deploys_debug_image spec ≡ true) ↔ (image_variant spec ≡ "debug")
unfolding deploys_debug_image
debug_iff spec = string_eq.beq_iff _ "debug"

pub validate_service_iff : (spec : AgentSpec) → (validate_service spec ≡ ok tt) ↔ IsService spec
unfolding validate_service
validate_service_iff spec = elim (Result-cases (deployment_disk_gb spec)) [
  | inl (size, e) ↦ (
    λ h. record {
      schema = ground (arith, string_eq.beq_iff spec.schema schema_version);
      id = ground (arith, validate_id_iff (field "service.id") spec.service.id);
      disk = (size, e);
      trustee = ground (arith, validate_trustee_service_id_iff spec.service.id);
      app_service = ground arith;
      ssh = ground (arith, debug_iff spec);
    },
    λ v. ground (
      arith,
      string_eq.beq_iff spec.schema schema_version,
      validate_id_iff (field "service.id") spec.service.id,
      validate_trustee_service_id_iff spec.service.id,
      debug_iff spec,
    ),
  )
  | inr (e, failed) ↦ (λ h. absurd (ground arith), λ v. let (size, e') = v.disk in cc)
]

pub record IsManifest (manifest : String) : Type 0 where
  pub long : byte_len (get_or (strip_prefix "sha256:" manifest) empty_text) ≡ 64
  pub hex : all_chars is_hexdigit (get_or (strip_prefix "sha256:" manifest) empty_text) ≡ true

validate_manifest_iff :
    (manifest : String) → (validate_manifest manifest ≡ ok tt) ↔ IsManifest manifest
unfolding validate_manifest
validate_manifest_iff manifest = ground arith

pub record IsImageId (id : String) : Type 0 where
  pub filled : Text.is_empty id ≡ false
  pub plain : all_chars is_image_id_char id ≡ true

validate_image_id_iff : (id : String) → (validate_image_id id ≡ ok tt) ↔ IsImageId id
unfolding validate_image_id
validate_image_id_iff id = ground arith

-- A published image comes with its signature's key or an explicit waiver, and without build inputs.
pub record IsPublished (build : BuildSpec) (image : PublishedImageSpec) : Type 0 where
  pub release : Text.is_empty image.release ≡ false
  pub key : (image.skip_signature_verification ≡ false) → Text.is_empty image.trusted_key ≡ false
  pub manifest : WhenSome IsManifest image.manifest
  pub image_id : WhenSome IsImageId image.image_id
  pub alone : has_build_inputs build ≡ false

validate_published_image_iff :
    (build : BuildSpec) (image : PublishedImageSpec)
    → (validate_published_image build image ≡ ok tt) ↔ IsPublished build image
unfolding validate_published_image
validate_published_image_iff build image = ground (
  arith,
  when_some-eq-ok_iff IsManifest validate_manifest validate_manifest_iff image.manifest,
  when_some-eq-ok_iff IsImageId validate_image_id validate_image_id_iff image.image_id,
)

abbrev pub IsImage : BuildSpec → Option PublishedImageSpec → Type 0
IsImage build none = IsId build.image_name
IsImage build (some image) = IsPublished build image

pub validate_image_iff :
    (spec : AgentSpec) → (validate_image spec ≡ ok tt) ↔ IsImage spec.build spec.deploy.image
unfolding validate_image
validate_image_iff spec = elim (Option-cases spec.deploy.image) [
  | inl e ↦ rw e (validate_id_iff (field "build.image_name") spec.build.image_name)
  | inr (image, e) ↦ rw e (validate_published_image_iff spec.build image)
]

-- The three lists of ports fit together.
pub record IsNetwork (spec : AgentSpec) : Type 0 where
  pub ports : ArePorts spec.service.ports
  pub connect : AreConnectPorts spec.service.ports spec.service.connect
  pub mcp : AreMcpPorts spec.service.ports spec.service.connect spec.service.mcp_ports

pub validate_network_iff : (spec : AgentSpec) → (validate_network spec ≡ ok tt) ↔ IsNetwork spec
unfolding validate_network
validate_network_iff spec = ground (
  arith,
  validate_ports_iff (field "service.ports") spec.service.ports,
  validate_connect_ports_iff spec.service.ports spec.service.connect,
  validate_mcp_ports_iff spec.service.ports spec.service.connect spec.service.mcp_ports,
)

pub record IsRepo (repo : BuildRepositorySpec) : Type 0 where
  pub name : IsId repo.name
  pub baseurl : IsHttpsUrl repo.baseurl
  pub gpgkey : IsHttpsUrl repo.gpgkey

abbrev pub repo_names : List BuildRepositorySpec → List String
repo_names = map (λ (r : BuildRepositorySpec). r.name)

validate_repos_iff :
    (seen : List String) (repos : List BuildRepositorySpec)
    → (validate_repos seen repos ≡ ok tt)
      ↔ (All IsRepo repos × (distinct_from seen (repo_names repos) ≡ true))
unfolding validate_repos distinct_from
validate_repos_iff seen [] = ground arith
validate_repos_iff seen (r ∷ repos) = ground (
  arith,
  validate_id_iff (field "build.repos.name") r.name,
  validate_https_url_iff (field "build.repos.baseurl") r.baseurl,
  validate_https_url_iff (field "build.repos.gpgkey") r.gpgkey,
  validate_repos_iff (r.name ∷ seen) repos,
)

pub record IsBuild (build : BuildSpec) : Type 0 where
  pub packages : All IsPackage build.packages
  pub repos : All IsRepo build.repos
  pub names : Distinct (repo_names build.repos)
  pub container : WhenSome IsContainer build.container

pub validate_build_iff : (build : BuildSpec) → (validate_build build ≡ ok tt) ↔ IsBuild build
unfolding validate_build
validate_build_iff build = ground (
  arith,
  for_each-eq-ok_iff IsPackage validate_package validate_package_iff 0 build.packages,
  validate_repos_iff [] build.repos,
  distinct_from-nil_iff (repo_names build.repos),
  when_some-eq-ok_iff IsContainer validate_build_container validate_build_container_iff
      build.container,
)

-- An enabled balancer has replicas to balance and ports to serve; the one of layer 7 serves no
-- RATS-TLS port.
pub record IsSlb (replicas : ℕ) (connect : List ConnectPort) (slb : SlbSpec) : Type 0 where
  pub replicated : (slb.enabled ≡ true) → 1 < replicas
  pub served : (slb.enabled ≡ true) → connect ≢ []
  pub layer :
      (slb.enabled ≡ true) → (slb.slb_type ≡ alb) → All (λ cp. encryption cp ≡ ohttp) connect

rats_tls_iff :
    (connect : List ConnectPort)
    → (any is_rats_tls connect ≡ false) ↔ All (λ cp. encryption cp ≡ ohttp) connect
rats_tls_iff [] = (λ h. tt, λ h. refl)
rats_tls_iff (cp ∷ connect) = ground (arith, rats_tls_iff connect)

empty_iff : (connect : List ConnectPort) → (is_empty connect ≡ true) ↔ (connect ≡ [])
empty_iff [] = (λ h. refl, λ h. refl)
empty_iff (cp ∷ connect) = (λ h. cc, λ h. cc)

validate_slb_iff :
    (replicas : ℕ) (connect : List ConnectPort) (slb : SlbSpec)
    → (validate_slb replicas connect slb ≡ ok tt) ↔ IsSlb replicas connect slb
unfolding validate_slb
validate_slb_iff replicas connect slb = ground (arith, rats_tls_iff connect, empty_iff connect)

-- The instance, its place, and its replicas: more than one wants an enabled balancer and at most one
-- OHTTP port.
pub record IsDeploy (spec : AgentSpec) : Type 0 where
  pub instance_type : Text.is_empty (trim spec.deploy.instance_type) ≡ false
  pub region : Text.is_empty (trim spec.deploy.region) ≡ false
  pub zone_id : Text.is_empty (trim spec.deploy.zone_id) ≡ false
  pub replicas : 0 < spec.deploy.replicas
  pub balanced : 1 < spec.deploy.replicas → slb_enabled spec.deploy.slb ≡ true
  pub ohttp : 1 < spec.deploy.replicas → count is_ohttp spec.service.connect ≤ 1
  pub slb : WhenSome (IsSlb spec.deploy.replicas spec.service.connect) spec.deploy.slb

pub validate_deploy_iff : (spec : AgentSpec) → (validate_deploy spec ≡ ok tt) ↔ IsDeploy spec
unfolding validate_deploy
validate_deploy_iff spec = ground (
  arith,
  when_some-eq-ok_iff (IsSlb spec.deploy.replicas spec.service.connect)
      (validate_slb spec.deploy.replicas spec.service.connect)
      (validate_slb_iff spec.deploy.replicas spec.service.connect) spec.deploy.slb,
)

pub record IsFile (file : BuildFileSpec) : Type 0 where
  pub source : Text.is_empty file.source ≡ false
  pub target : starts_with b'/' file.target ≡ true

validate_file_iff :
    (index : ℕ) (file : BuildFileSpec) → (validate_file index file ≡ ok tt) ↔ IsFile file
unfolding validate_file
validate_file_iff index file = ground arith

-- The release image has no SSH key, and the variant that is deployed is one that is built, unless
-- the image is a published one.
pub record IsVariants (spec : AgentSpec) : Type 0 where
  pub closed : spec.build.variants.release.ssh_public_key ≡ none
  pub files : All IsFile spec.build.files
  pub known : (image_variant spec ≡ "release") ⊎ (image_variant spec ≡ "debug")
  pub release :
      (image_variant spec ≡ "release")
      → (spec.deploy.image ≡ none)
      → spec.build.variants.release.enabled ≡ true
  pub debug :
      (image_variant spec ≡ "debug")
      → (spec.deploy.image ≡ none)
      → (v : BuildVariantSpec) × (spec.build.variants.debug ≡ some v) × (v.enabled ≡ true)

closed_iff :
    (v : BuildVariantSpec) → (validate_variant "release" v ≡ ok tt) ↔ (v.ssh_public_key ≡ none)
unfolding validate_variant
closed_iff v = ground arith

debug_variant_passes :
    (o : Option BuildVariantSpec) → when_some (validate_variant "debug") o ≡ ok tt
unfolding validate_variant
debug_variant_passes none = refl
debug_variant_passes (some v) = refl

abbrev IsEnabled : Option BuildVariantSpec → Type 0
IsEnabled o = (v : BuildVariantSpec) × (o ≡ some v) × (v.enabled ≡ true)

debug-IsEnabled_iff : (o : Option BuildVariantSpec) → (validate_debug o ≡ ok tt) ↔ IsEnabled o
unfolding validate_debug
debug-IsEnabled_iff none = (λ h. cc, λ (v, e, _). cc)
debug-IsEnabled_iff (some d) = (λ h. (d, refl, ground arith), λ (v, e, on). ground arith)

validate_image_variant_iff :
    (spec : AgentSpec)
    → (validate_image_variant spec ≡ ok tt) ↔ (
        ((image_variant spec ≡ "release") ⊎ (image_variant spec ≡ "debug"))
        × ((image_variant spec ≡ "release")
            → (spec.deploy.image ≡ none)
            → spec.build.variants.release.enabled ≡ true)
        × ((image_variant spec ≡ "debug")
            → (spec.deploy.image ≡ none)
            → IsEnabled spec.build.variants.debug))
unfolding validate_image_variant
validate_image_variant_iff spec = ground (
  arith,
  string_eq.beq_iff (image_variant spec) "release",
  string_eq.beq_iff (image_variant spec) "debug",
  string_eq.beq_iff "release" "debug",
  debug-IsEnabled_iff spec.build.variants.debug,
)

pub validate_variants_iff : (spec : AgentSpec) → (validate_variants spec ≡ ok tt) ↔ IsVariants spec
unfolding validate_variants
validate_variants_iff spec = ground (
  arith,
  closed_iff spec.build.variants.release,
  debug_variant_passes spec.build.variants.debug,
  for_each-eq-ok_iff IsFile validate_file validate_file_iff 0 spec.build.files,
  validate_image_variant_iff spec,
)
