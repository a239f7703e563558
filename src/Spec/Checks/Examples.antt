-- ===== src/Spec/Checks/Examples.antt =====
-- A spec of a service with an RATS-TLS port, an MCP port and an agent card.
use confidential_agent.Common.{
  ℕ, ◌≤◌, Option, WhenSome, String, true, false, none, some, [], ◌∷◌, All, ◌≡◌, ◌↔◌, refl, Result,
  ok, for_each, contains, is_id_char, is_alphanumeric, is_digit, is_whitespace,
}
use confidential_agent.Common.Text.{
  trim, trim_start, keep, trim_end_matches, is_empty, all_chars, split, split_once, starts_with,
  span, lower_eq, parse_unsigned, decimal_from,
}
use confidential_agent.Spec.Types.{
  AgentSpec, PathBuf, A2aSpec, A2aInterfaceSpec, config, rats_tls, aliyun, tdx, challenge, sample,
}
use confidential_agent.Spec.Ports.{
  validate_ports_from, validate_ports, validate_connect_from, validate_connect_ports,
  validate_mcp_from, validate_mcp_ports,
}
use confidential_agent.Spec.Ports.Validity.{Member}
use confidential_agent.Spec.Disk.Sizes.{Holds, deployment_disk_gb_lem}
use confidential_agent.Spec.Disk.{
  default_deploy_disk_gb, configured_image_disk_gb, unit_multiplier, parts_of_number, size_bytes,
  ceil_gib, image_minimum, choose_disk_gb, deployment_disk_gb,
}
use confidential_agent.Spec.Paths.{
  is_absolute, tail_components, head_components, components, normalize_step, normalize_from,
  render_parts, normalize_path, join, resolve_pathbuf,
}
use confidential_agent.Spec.Resolve.{resolve_filled, resolve_paths_against}
use confidential_agent.Spec.Resolve.Absolute.{
  ArePathsResolved, resolve_paths_against-ArePathsResolved,
}
use confidential_agent.Spec.Urls.{
  validate_id, validate_https_url, validate_package, alinux_package_substitution,
}
use confidential_agent.Spec.Resources.{validate_resources, validate_attestation}
use confidential_agent.Spec.AgentToAgent.{
  validate_a2a, validate_interface, validate_signing, validate_skill, validate_tag,
  validate_required_signing,
}
use confidential_agent.Spec.Checks.{
  schema_version, image_variant, deploys_debug_image, validate_service, validate_image,
  validate_network, validate_repos, validate_build, validate_deploy, validate_variant,
  validate_file, validate_debug, validate_image_variant, validate_variants, validate,
}
use confidential_agent.Spec.Checks.Validity.{IsValid, validate_spec_iff, interfaces-apart}
use confidential_agent.Spec.Checks.Loading.{from_yaml, from_yaml-IsValid}

abbrev card : A2aSpec
card = record {
  enabled = true;
  id = "web-agent";
  name = "Web agent";
  version = none;
  description = none;
  provider = none;
  cache_ttl_sec = 300;
  interfaces = record { protocol_binding = "JSONRPC"; port = 8443; path = "/a2a" } ∷ [];
  signing = record {
    mode = none;
    required = false;
    expected_issuer = none;
    expected_subject = none;
    oidc_issuer = none;
  };
  skills = [];
}

-- The spec at the path of its one script.
abbrev spec_at : PathBuf → AgentSpec
spec_at script = record {
  schema = "confidential-agent/v1";
  service = record {
    id = "web";
    ports = 8443 ∷ 9000 ∷ [];
    connect = config 8443 rats_tls ∷ [];
    mcp_ports = 9000 ∷ [];
    app_service = none;
    ssh = false;
  };
  build = record {
    image_name = "web-image";
    runtime_contract = none;
    kernel_cmdline_append = none;
    resize = some "40G";
    container = none;
    packages = "curl" ∷ [];
    repos = [];
    files = [];
    scripts = script ∷ [];
    variants = record { release = record { enabled = true; ssh_public_key = none }; debug = none };
    cleanup = record { remove_static_libs = none };
  };
  deploy = record {
    provider = aliyun;
    image = none;
    instance_type = "ecs.g8i.xlarge";
    image_variant = none;
    disk_gb = none;
    private_ip = none;
    region = "cn-beijing";
    zone_id = "cn-beijing-l";
    vpc_id = none;
    vswitch_id = none;
    security_group_id = none;
    replicas = 1;
    slb = none;
  };
  attestation = record { tee = tdx; mode = challenge; reference_values = sample; rekor = none };
  secrets = record { disk_passphrase = none };
  resources = [];
  a2a = some card;
}

abbrev reads : String → Result AgentSpec
reads content = ok (spec_at "./install.sh")

runs : Unit {0}
unfolding for_each alinux_package_substitution is_id_char is_alphanumeric is_digit is_whitespace
    contains trim trim_start keep trim_end_matches is_empty all_chars split split_once starts_with
    span lower_eq parse_unsigned decimal_from validate_ports_from validate_ports
    validate_connect_from validate_connect_ports validate_mcp_from validate_mcp_ports
    configured_image_disk_gb unit_multiplier parts_of_number size_bytes ceil_gib image_minimum
    choose_disk_gb deployment_disk_gb is_absolute tail_components head_components components
    normalize_step normalize_from render_parts normalize_path join resolve_pathbuf resolve_filled
    resolve_paths_against validate_id validate_https_url validate_package validate_resources
    validate_attestation validate_a2a validate_interface validate_signing validate_required_signing
    validate_skill validate_tag schema_version image_variant deploys_debug_image validate_service
    validate_image validate_network validate_repos validate_build validate_deploy validate_variant
    validate_file validate_debug validate_image_variant validate_variants validate from_yaml
runs = tt

accepted : validate (spec_at "/project/install.sh") ≡ ok tt
unfolding runs
accepted = refl

loaded : from_yaml reads "" "/project" ≡ ok (spec_at "/project/install.sh")
unfolding runs
loaded = refl

absolute_project : is_absolute "/project" ≡ true
unfolding runs
absolute_project = refl

from_yaml-IsValid_example :
    ((read : AgentSpec) × (reads "" ≡ ok read)
      × (resolve_paths_against "/project" read ≡ spec_at "/project/install.sh"))
    × IsValid (spec_at "/project/install.sh")
    × ArePathsResolved (spec_at "/project/install.sh")
from_yaml-IsValid_example =
    from_yaml-IsValid reads "" "/project" (spec_at "/project/install.sh") absolute_project loaded

validate_spec_iff_example :
    (validate (spec_at "/install.sh") ≡ ok tt) ↔ IsValid (spec_at "/install.sh")
validate_spec_iff_example = validate_spec_iff (spec_at "/install.sh")

interfaces-apart_example :
    All (λ (i : A2aInterfaceSpec). ¬ Member (9000 ∷ []) i.port) card.interfaces
interfaces-apart_example = interfaces-apart (spec_at "/project/install.sh") card accepted refl

resolve_paths_against-ArePathsResolved_example :
    ArePathsResolved (resolve_paths_against "/project" (spec_at "./install.sh"))
resolve_paths_against-ArePathsResolved_example =
    resolve_paths_against-ArePathsResolved "/project" absolute_project (spec_at "./install.sh")

thirty_eight : deployment_disk_gb (spec_at "/install.sh") ≡ ok 38
unfolding runs
thirty_eight = refl

deployment_disk_gb_lem_example :
    Holds 38 (some "40G")
    × (20 ≤ 38)
    × WhenSome (λ (d : ℕ). 38 ≡ d) none
    × ((◌≡◌ {A = Option ℕ} none none) → default_deploy_disk_gb ≤ 38)
deployment_disk_gb_lem_example = deployment_disk_gb_lem (spec_at "/install.sh") 38 thirty_eight
