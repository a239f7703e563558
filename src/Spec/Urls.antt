-- ===== src/Spec/Urls.antt =====
-- core/src/spec.rs: https URLs, ids and the packages of a build.
pub mod Validity
use confidential_agent.Common.{
  ℕ, String, Bool, true, false, not, ◌||◌, Option, none, some, ◌==◌, string_eq, if◌then◌else◌,
  is_whitespace, is_id_char, Field, Problem, Result, ok, ◌>>=◌, ◌>>◌, bail_if, ensure, context,
}
use confidential_agent.Common.Text.{
  is_empty, all_chars, any_char, trim, strip_prefix, split_once, contains_char,
}

unfoldable pub validate_id : Field → String → Result (Unit {0})
validate_id field value = do
  let value = trim value
  bail_if (is_empty value) field Problem.empty
  ensure (all_chars is_id_char value) field Problem.charset

-- `rest.split_once('/').map(|(authority, _)| authority).unwrap_or(rest)`
abbrev pub authority_of : String → String
authority_of rest = elim (split_once b'/' rest) [ none ↦ rest | some (authority, path) ↦ authority ]

unfoldable pub validate_https_url : Field → String → Result (Unit {0})
validate_https_url field value = do
  let value = trim value
  bail_if (is_empty value) field Problem.empty
  bail_if (any_char is_whitespace value) field Problem.charset
  rest ← context (strip_prefix "https://" value) field Problem.unsupported
  bail_if (is_empty (authority_of rest) || contains_char b'@' (authority_of rest)) field
      Problem.required
  bail_if (contains_char b'?' value || contains_char b'#' value) field Problem.conflict

-- The Debian names that the check refuses, with what to use instead.
unfoldable pub alinux_package_substitution : String → Option String
alinux_package_substitution pkg =
    if pkg == "build-essential"
    then some "'gcc', 'gcc-c++', and 'make'"
    else if pkg == "python3-dev"
    then some "'python3-devel' or a versioned devel package such as 'python3.11-devel'"
    else if pkg == "python3-venv"
    then some
        "the matching Alinux Python runtime package; remove this package unless a custom repository provides it"
    else if pkg == "python-dev"
    then some "'python3-devel' or a versioned devel package such as 'python3.11-devel'"
    else if pkg == "python-dev-is-python3"
    then some "'python3-devel' or a versioned devel package such as 'python3.11-devel'"
    else if pkg == "libc-dev"
    then some "'glibc-devel'"
    else if pkg == "libc6-dev"
    then some "'glibc-devel'"
    else if pkg == "libffi-dev"
    then some "'libffi-devel'"
    else if pkg == "libssl-dev"
    then some "'openssl-devel'"
    else if pkg == "openssh-client"
    then some "'openssh-clients'"
    else if pkg == "procps"
    then some "'procps-ng'"
    else if pkg == "xz-utils"
    then some "'xz'"
    else if pkg == "docker-cli"
    then some
        "'podman' only if the workload actually needs a container runtime; otherwise remove it"
    else if pkg == "docker.io"
    then some
        "'podman' only if the workload actually needs a container runtime; otherwise remove it"
    else if pkg == "ffmpeg"
    then some "a repository that provides ffmpeg; otherwise remove it from build.packages"
    else none

abbrev pub is_substituted : String → Bool
is_substituted pkg = elim (alinux_package_substitution pkg) [ none ↦ false | some instead ↦ true ]

-- One round of `validate_build_packages`.
unfoldable pub validate_package : ℕ → String → Result (Unit {0})
validate_package index pkg = do
  let pkg = trim pkg
  bail_if (is_empty pkg) (Field.item "build.packages" index "") Problem.empty
  bail_if (is_substituted pkg) (Field.item "build.packages" index "") Problem.unsupported
