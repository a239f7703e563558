-- ===== src/Trustee/Examples.antt =====
-- A Trustee deployment of one service, and a resource of it.
use confidential_agent.Common.{
  String, some, [], ◌∷◌, ◌≡◌, ◌≢◌, ◌↔◌, refl, ok, is_id_char, is_alphanumeric,
}
use confidential_agent.Common.Text.{
  trim, trim_start, keep, trim_end_matches, is_empty, all_chars, split, starts_with,
}
use confidential_agent.Trustee.{
  TrusteeRuntimeConfig, challenge_resource_repository, local_resource_type,
  validate_trustee_service_id, validate, resource_tag, logical_to_physical_resource_path,
}
use confidential_agent.Trustee.Validity.{IsValid, validate_runtime_iff}
use confidential_agent.Trustee.Isolation.{physical_path_injective, physical_path_repository}

abbrev config : TrusteeRuntimeConfig
config = record {
  kbs_ca_cert = some "-----BEGIN CERTIFICATE-----";
  kbs_url = "https://trustee.example:8080/api";
  schema = "confidential-agent/trustee-runtime/v1";
  service_id = "web";
}

abbrev web : String
web = "web"

abbrev logical : String
logical = "default/local-resources/model-key"

abbrev physical : String
physical = "web/local-resources/model-key"

runs : Unit {0}
unfolding is_id_char is_alphanumeric trim trim_start keep trim_end_matches is_empty all_chars split
    starts_with challenge_resource_repository local_resource_type validate_trustee_service_id
    resource_tag logical_to_physical_resource_path
runs = tt

stored : logical_to_physical_resource_path "web" logical ≡ ok physical
unfolding runs
stored = refl

validate_runtime_iff_example : (validate config ≡ ok tt) ↔ IsValid config
validate_runtime_iff_example = validate_runtime_iff config

physical_path_injective_example : (web ≡ web) × (logical ≡ logical)
physical_path_injective_example =
    physical_path_injective web web logical logical physical stored stored

physical_path_repository_example :
    (tag : String) × (split b'/' physical ≡ web ∷ local_resource_type ∷ tag ∷ [])
    × (split b'/' logical ≡ challenge_resource_repository ∷ local_resource_type ∷ tag ∷ [])
    × (web ≢ challenge_resource_repository)
physical_path_repository_example = physical_path_repository web logical physical stored
