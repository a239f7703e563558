-- ===== src/Spec/Resolve.antt =====
-- core/src/spec.rs: `resolve_paths_against`, which makes the paths of a spec absolute.
pub mod Absolute
use mathlib.Core.Option
use confidential_agent.Common.{String, Bool, Option, none, some, List, map, if◌then◌else◌, [], ◌∷◌}
use confidential_agent.Common.Text.{is_empty}
use confidential_agent.Common.BTree.{BTreeMap}
use confidential_agent.Spec.Types.{
  PathBuf, AgentSpec, BuildSpec, BuildFileSpec, BuildContainerSpec, BuildVariantsSpec,
  BuildVariantSpec, DeploySpec, PublishedImageSpec, AttestationSpec, RekorSpec, SecretsSpec,
  ResourceSpec,
}
use confidential_agent.Spec.Paths.{resolve_pathbuf}

module _ (base_dir : PathBuf) where
  -- `if !path.is_empty() { resolve_pathbuf(…) }`
  unfoldable pub resolve_filled : PathBuf → PathBuf
  resolve_filled p = if is_empty p then p else resolve_pathbuf base_dir p

  abbrev pub resolve_image : PublishedImageSpec → PublishedImageSpec
  resolve_image image = record image {
    release = resolve_filled image.release;
    trusted_key = resolve_filled image.trusted_key;
  }

  abbrev pub resolve_file : BuildFileSpec → BuildFileSpec
  resolve_file file = record file { source = resolve_pathbuf base_dir file.source }

  abbrev pub resolve_container : BuildContainerSpec → BuildContainerSpec
  resolve_container c = record c { archive = Option.map (resolve_pathbuf base_dir) c.archive }

  abbrev pub resolve_variant : BuildVariantSpec → BuildVariantSpec
  resolve_variant v = record v {
    ssh_public_key = Option.map (resolve_pathbuf base_dir) v.ssh_public_key;
  }

  abbrev pub resolve_resource : String × ResourceSpec → String × ResourceSpec
  resolve_resource (k, r) = (k, record r { source = resolve_pathbuf base_dir r.source })

  abbrev pub resolve_rekor : RekorSpec → RekorSpec
  resolve_rekor r = record r {
    cosign_key = Option.map (resolve_pathbuf base_dir) r.cosign_key;
    slsa_generator = resolve_pathbuf base_dir r.slsa_generator;
  }

  abbrev pub resolve_build : BuildSpec → BuildSpec
  resolve_build b = record b {
    runtime_contract = Option.map (resolve_pathbuf base_dir) b.runtime_contract;
    scripts = map (resolve_pathbuf base_dir) b.scripts;
    files = map resolve_file b.files;
    container = Option.map resolve_container b.container;
    variants = record b.variants { debug = Option.map resolve_variant b.variants.debug };
  }

  unfoldable pub resolve_paths_against : AgentSpec → AgentSpec
  resolve_paths_against spec = record spec {
    build = resolve_build spec.build;
    deploy = record spec.deploy { image = Option.map resolve_image spec.deploy.image };
    secrets = record spec.secrets {
      disk_passphrase = Option.map (resolve_pathbuf base_dir) spec.secrets.disk_passphrase;
    };
    resources = map resolve_resource spec.resources;
    attestation = record spec.attestation {
      rekor = Option.map resolve_rekor spec.attestation.rekor;
    };
  }
