-- ===== src/Trustee.antt =====
-- core/src/trustee.rs: the runtime configuration of a Trustee deployment, and where its resources
-- stand in the key broker. JSON and the digest of the configuration are not modelled.
pub mod Validity
pub mod Isolation
mod Examples
use Prim.Native.String
use confidential_agent.Common.{
  ℕ, String, Bool, true, false, not, ◌&&◌, ◌||◌, Option, none, some, List, [], ◌∷◌, ltb, nat_eqb,
  ◌==◌, string_eq, if◌then◌else◌, is_whitespace, is_alphanumeric, is_id_char, Field, Problem,
  Result, ok, err, bad, ◌>>=◌, ◌>>◌, bail_if, ensure, context,
}
use confidential_agent.Common.Text.{
  empty_text, byte_len, is_empty, all_chars, any_char, trim, trim_end_matches, split, strip_prefix,
  starts_with, contains_char,
}

pub record TrusteeRuntimeConfig : Type 0 where
  pub kbs_ca_cert : Option String
  pub kbs_url : String
  pub schema : String
  pub service_id : String

unfoldable pub trustee_runtime_schema_version : String
trustee_runtime_schema_version = "confidential-agent/trustee-runtime/v1"

unfoldable pub challenge_resource_repository : String
challenge_resource_repository = "default"

unfoldable pub local_resource_type : String
local_resource_type = "local-resources"

abbrev pub id_field : Field
id_field = Field.name "service.id"

unfoldable pub validate_trustee_service_id : String → Result (Unit {0})
validate_trustee_service_id service_id = do
  let value = trim service_id
  bail_if (is_empty value) id_field Problem.empty
  bail_if (ltb 64 (byte_len value)) id_field Problem.too_long
  bail_if (value == challenge_resource_repository) id_field Problem.reserved
  bail_if (not (all_chars is_id_char value)) id_field Problem.charset

abbrev pub url_field : Field
url_field = Field.name "kbs_url"

-- `a.or_else(|| b)`
abbrev pub or_else {ℓ} : {A : Type ℓ} → Option A → Option A → Option A
or_else none b = b
or_else (some a) b = some a

-- `rest.split('/').next().unwrap_or_default()`
abbrev pub first_part : List String → String
first_part [] = empty_text
first_part (s ∷ parts) = s

unfoldable pub validate_kbs_url : String → Result (Unit {0})
validate_kbs_url url = do
  let value = trim url
  bail_if (is_empty value || not (value == trim_end_matches (λ c. nat_eqb c b'/') value)) url_field
      Problem.syntax
  bail_if (any_char is_whitespace value) url_field Problem.charset
  rest ←
      context (or_else (strip_prefix "https://" value) (strip_prefix "http://" value)) url_field
        Problem.unsupported
  let authority = first_part (split b'/' rest)
  bail_if (is_empty authority || contains_char b'@' authority) url_field Problem.required
  bail_if (contains_char b'?' value || contains_char b'#' value) url_field Problem.conflict

abbrev pub has_prefix : String → String → Bool
has_prefix p s = elim (strip_prefix p s) [ none ↦ false | some rest ↦ true ]

abbrev pub cert_is_set : Option String → Bool
cert_is_set none = false
cert_is_set (some s) = true

abbrev pub cert_is_blank : Option String → Bool
cert_is_blank none = false
cert_is_blank (some s) = is_empty (trim s)

unfoldable pub validate : TrusteeRuntimeConfig → Result (Unit {0})
validate config = do
  bail_if (not (config.schema == trustee_runtime_schema_version)) (Field.name "schema")
      Problem.version
  validate_trustee_service_id config.service_id
  validate_kbs_url config.kbs_url
  bail_if (has_prefix "http://" config.kbs_url && cert_is_set config.kbs_ca_cert)
      (Field.name "kbs_ca_cert") Problem.conflict
  bail_if (cert_is_blank config.kbs_ca_cert) (Field.name "kbs_ca_cert") Problem.empty

-- `TrusteeRuntimeConfig::new`
unfoldable pub new : String → String → Option String → Result TrusteeRuntimeConfig
new kbs_url service_id kbs_ca_cert =
    let config : TrusteeRuntimeConfig = record {
      kbs_ca_cert = kbs_ca_cert;
      kbs_url = kbs_url;
      schema = trustee_runtime_schema_version;
      service_id = service_id;
    } in
    validate config >> ok config

abbrev pub path_field : Field
path_field = Field.name "resource path"

abbrev pub is_tag_char : ℕ → Bool
is_tag_char c = is_alphanumeric c || nat_eqb c b'_' || nat_eqb c b'-' || nat_eqb c b'.'

-- The three cells of a logical path, checked; the third is the tag.
unfoldable pub resource_tag : List String → Result String
resource_tag (repository ∷ type ∷ tag ∷ []) = do
  bail_if
      (not (repository == challenge_resource_repository)
        || not (type == local_resource_type)
        || is_empty tag)
      path_field Problem.syntax
  bail_if (not (all_chars is_tag_char tag) || starts_with b'.' tag) path_field Problem.charset
  ok tag
resource_tag _ = err (bad path_field Problem.syntax)

-- The slash between two cells.
abbrev pub cell : String → String → String
cell s t = String.◌++◌ s (String.◌++◌ "/" t)

unfoldable pub logical_to_physical_resource_path : String → String → Result String
logical_to_physical_resource_path service_id logical_path = do
  validate_trustee_service_id service_id
  tag ← resource_tag (split b'/' logical_path)
  ok (cell (cell service_id local_resource_type) tag)
