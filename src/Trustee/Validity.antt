-- ===== src/Trustee/Validity.antt =====
-- What the checks of a Trustee configuration accept.
use confidential_agent.Common.{
  ◌≤◌, String, true, false, none, some, nat_eqb, ◌==◌, string_eq, ◌↔◌, ◌≡◌, ◌≢◌, arith,
  is_whitespace, is_id_char, ok, Option-cases, inl, inr, WhenSome, sym,
}
use confidential_agent.Common.Text.{
  byte_len, is_empty, all_chars, any_char, trim, trim_end_matches, split, strip_prefix,
  contains_char,
}
use confidential_agent.Trustee.{
  TrusteeRuntimeConfig, trustee_runtime_schema_version, challenge_resource_repository,
  validate_trustee_service_id, or_else, first_part, validate_kbs_url, has_prefix, validate,
}

-- Around the white space at its ends: 1 to 64 letters, digits, '_' and '-', and not "default".
pub record IsServiceId (service_id : String) : Type 0 where
  pub filled : is_empty (trim service_id) ≡ false
  pub short : byte_len (trim service_id) ≤ 64
  pub free : trim service_id ≢ challenge_resource_repository
  pub plain : all_chars is_id_char (trim service_id) ≡ true

pub validate_trustee_service_id_iff :
    (service_id : String)
    → (validate_trustee_service_id service_id ≡ ok tt) ↔ IsServiceId service_id
unfolding validate_trustee_service_id
validate_trustee_service_id_iff service_id = (
  λ h. record {
    filled = ground arith;
    short = ground arith;
    free = λ e. ground (arith, string_eq.beq_iff (trim service_id) challenge_resource_repository);
    plain = ground arith;
  },
  λ v. ground (arith, v.free, string_eq.beq_iff (trim service_id) challenge_resource_repository),
)

-- An http or https URL of a plain host, with no white space, query, fragment or final slash.
pub record IsKbsUrl (url : String) : Type 0 where
  pub rest : String
  pub filled : is_empty (trim url) ≡ false
  pub open_end : trim_end_matches (λ c. nat_eqb c b'/') (trim url) ≡ trim url
  pub solid : any_char is_whitespace (trim url) ≡ false
  pub scheme :
      or_else (strip_prefix "https://" (trim url)) (strip_prefix "http://" (trim url)) ≡ some rest
  pub host : is_empty (first_part (split b'/' rest)) ≡ false
  pub no_user : contains_char b'@' (first_part (split b'/' rest)) ≡ false
  pub no_query : contains_char b'?' (trim url) ≡ false
  pub no_fragment : contains_char b'#' (trim url) ≡ false

open_end_iff :
    (url : String)
    → ((trim url == trim_end_matches (λ c. nat_eqb c b'/') (trim url)) ≡ true)
      ↔ (trim_end_matches (λ c. nat_eqb c b'/') (trim url) ≡ trim url)
open_end_iff url =
    let (to, from) =
      string_eq.beq_iff (trim url) (trim_end_matches (λ c. nat_eqb c b'/') (trim url)) in
    (λ h. sym (to h), λ e. from (sym e))

-- A broker URL is accepted exactly if it is an http or https URL with an authority, without blanks,
-- credentials, query or fragment, and without a slash at its end.
pub validate_kbs_url_iff : (url : String) → (validate_kbs_url url ≡ ok tt) ↔ IsKbsUrl url
unfolding validate_kbs_url
validate_kbs_url_iff url = (
  λ h.
      elim (Option-cases
        (or_else (strip_prefix "https://" (trim url)) (strip_prefix "http://" (trim url)))) [
          | inl missed ↦ absurd (ground arith)
          | inr (rest, scheme) ↦ record {
            rest = rest;
            filled = ground arith;
            open_end = ground (arith, open_end_iff url);
            solid = ground arith;
            scheme = scheme;
            host = ground arith;
            no_user = ground arith;
            no_query = ground arith;
            no_fragment = ground arith;
          }
        ],
  λ v. ground (arith, open_end_iff url),
)

-- The schema is the current one, the id and the URL are well formed, and a certificate is not blank
-- and is left out where the URL as it stands, blanks included, starts with http://.
pub record IsValid (config : TrusteeRuntimeConfig) : Type 0 where
  pub schema : config.schema ≡ trustee_runtime_schema_version
  pub service_id : IsServiceId config.service_id
  pub kbs_url : IsKbsUrl config.kbs_url
  pub secure : (has_prefix "http://" config.kbs_url ≡ true) → config.kbs_ca_cert ≡ none
  pub cert : WhenSome (λ s. is_empty (trim s) ≡ false) config.kbs_ca_cert

-- A configuration is accepted exactly if it has the schema's version, a usable service id and a
-- usable broker URL, no certificate where the URL, blanks before it included, starts with http://, and
-- no blank certificate.
pub validate_runtime_iff :
    (config : TrusteeRuntimeConfig) → (validate config ≡ ok tt) ↔ IsValid config
unfolding validate
validate_runtime_iff config = ground (
  arith,
  string_eq.beq_iff config.schema trustee_runtime_schema_version,
  validate_trustee_service_id_iff config.service_id,
  validate_kbs_url_iff config.kbs_url,
)
