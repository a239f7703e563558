-- ===== src/Spec/Urls/Validity.antt =====
-- What the checks of ids, https URLs and packages accept.
use confidential_agent.Common.{
  ℕ, String, true, false, none, some, Option-cases, inl, inr, ◌↔◌, ◌≡◌, arith, is_whitespace,
  is_id_char, Field, ok,
}
use confidential_agent.Common.Text.{
  is_empty, all_chars, any_char, trim, strip_prefix, contains_char,
}
use confidential_agent.Spec.Urls.{
  validate_id, authority_of, validate_https_url, alinux_package_substitution, validate_package,
}

pub record IsId (value : String) : Type 0 where
  pub filled : is_empty (trim value) ≡ false
  pub plain : all_chars is_id_char (trim value) ≡ true

pub validate_id_iff :
    (field : Field) (value : String) → (validate_id field value ≡ ok tt) ↔ IsId value
unfolding validate_id
validate_id_iff field value = ground arith

-- Around the white space at its ends, an https URL of a plain host: no white space, no user, no query
-- and no fragment.
pub record IsHttpsUrl (value : String) : Type 0 where
  pub rest : String
  pub filled : is_empty (trim value) ≡ false
  pub solid : any_char is_whitespace (trim value) ≡ false
  pub scheme : strip_prefix "https://" (trim value) ≡ some rest
  pub host : is_empty (authority_of rest) ≡ false
  pub no_user : contains_char b'@' (authority_of rest) ≡ false
  pub no_query : contains_char b'?' (trim value) ≡ false
  pub no_fragment : contains_char b'#' (trim value) ≡ false

-- A URL is accepted exactly if it is an https URL with an authority, without blanks, credentials,
-- query or fragment.
pub validate_https_url_iff :
    (field : Field) (value : String) → (validate_https_url field value ≡ ok tt) ↔ IsHttpsUrl value
unfolding validate_https_url
validate_https_url_iff field value = (
  λ h. elim (Option-cases (strip_prefix "https://" (trim value))) [
    | inl missed ↦ absurd (ground arith)
    | inr (rest, scheme) ↦ record {
      rest = rest;
      filled = ground arith;
      solid = ground arith;
      scheme = scheme;
      host = ground arith;
      no_user = ground arith;
      no_query = ground arith;
      no_fragment = ground arith;
    }
  ],
  λ v. ground arith,
)

-- A package that has a name, and not one that the check knows for a Debian name.
pub record IsPackage (pkg : String) : Type 0 where
  pub filled : is_empty (trim pkg) ≡ false
  pub native : alinux_package_substitution (trim pkg) ≡ none

pub validate_package_iff :
    (index : ℕ) (pkg : String) → (validate_package index pkg ≡ ok tt) ↔ IsPackage pkg
unfolding validate_package
validate_package_iff index pkg = ground arith
