-- ===== src/Pep/Attestation.antt =====
-- cai-pep/src/main.rs: the command lines of the program, and which shell commands are its helper's.
pub mod Options
use confidential_agent.Common.{
  ℕ, String, Bool, true, false, not, ◌&&◌, ◌||◌, Option, none, some, List, [], ◌∷◌, if◌then◌else◌,
  ◌==◌, string_eq,
}
use confidential_agent.Common.Text.{concat, contains_text, ends_with}
use confidential_agent.Common.Json.{Json}
use confidential_agent.Spec.Paths.{join}
use confidential_agent.Pep.{
  Outcome, fail, success, panics, map_err, ok_or, ◌>>=◌, ◌>>◌, PepError, policy_deny,
  AttestationRequest,
}
use confidential_agent.Pep.Host.{Host}
use confidential_agent.Pep.Policy.{summarize_command, json_field}

-- What a flag of a command line does to what was read before it.
pub data Flag (S : Type 0) : Type 0 where
  takes : (put : String → S → S) → Flag S
  sets : (set : S → S) → Flag S
  unknown : Flag S

-- The loop over a command line's arguments; `label` begins the message on an unknown one.
module _ {S : Type 0} (flag_of : String → Flag S) (label : String) where
  unfoldable pub parse_flags : S → List String → Outcome String S
  parse_flags s [] = success s
  parse_flags s (flag ∷ []) = elim (flag_of flag) [
    | takes put ↦ fail (concat (flag ∷ " requires a value" ∷ []))
    | sets set ↦ success (set s)
    | unknown ↦ fail (concat (label ∷ flag ∷ []))
  ]
  parse_flags s (flag ∷ value ∷ args) = elim (flag_of flag) [
    | takes put ↦ parse_flags (put value s) args
    | sets set ↦ parse_flags (set s) (value ∷ args)
    | unknown ↦ fail (concat (label ∷ flag ∷ []))
  ]

-- The request before its arguments are read.
abbrev pub default_request : AttestationRequest
default_request = record {
  aa_url = "http://localhost:8006";
  tee = "tdx";
  policy = "default";
  claims = false;
}

unfoldable pub attest_flag : String → Flag AttestationRequest
attest_flag flag =
    if flag == "--aa-url"
    then takes (λ value request. record request { aa_url = value })
    else if flag == "--tee"
    then takes (λ value request. record request { tee = value })
    else if flag == "--policy"
    then takes (λ value request. record request { policy = value })
    else if flag == "--claims"
    then sets (λ request. record request { claims = true })
    else unknown

unfoldable pub parse_attestation_args : List String → Outcome String AttestationRequest
parse_attestation_args [] = fail "attest requires a subcommand"
parse_attestation_args (subcommand ∷ args) =
    if not (subcommand == "collect-and-verify")
    then fail (concat ("unsupported attest subcommand: " ∷ subcommand ∷ []))
    else parse_flags attest_flag "unknown attest argument: " default_request args

abbrev is_helper : String → Bool
is_helper binary = binary == "cai-pep" || ends_with "/cai-pep" binary

-- The words of a command that names the helper.
unfoldable pub attestation_words :
    String → String → List String → Outcome PepError (Option AttestationRequest)
attestation_words command audit_id (binary ∷ word ∷ args) =
    if not (is_helper binary) || not (word == "attest")
    then success none
    else elim (parse_attestation_args args) [
      | success request ↦ success (some request)
      | fail message ↦ summarize_command command >>= λ summary. fail (
          policy_deny "command.attest_invalid" message (json_field "command" (Json.str summary))
            audit_id)
      | panics ↦ panics
    ]
attestation_words command audit_id _ = success none

module _ (host : Host) where
  unfoldable pub try_parse_attestation_shell_command :
      String → String → Outcome PepError (Option AttestationRequest)
  try_parse_attestation_shell_command command audit_id =
      if not (contains_text "cai-pep attest" command)
        && not (contains_text "/cai-pep attest" command)
      then success none
      else elim (host.shell_split command) [
        | some parts ↦ attestation_words command audit_id parts
        | none ↦ summarize_command command >>= λ summary. fail (
            policy_deny "command.attest_parse" "failed to parse cai-pep attest command"
              (json_field "command" (Json.str summary)) audit_id)
      ]

  -- `attestation_work_dir`
  unfoldable pub attestation_work_dir : String
  attestation_work_dir = elim host.work_dir [ some dir ↦ dir | none ↦ "/var/lib/attestation" ]

  unfoldable pub ensure_attestation_policy : String → String → Outcome String (Unit {0})
  ensure_attestation_policy source work_dir =
      let parent = join work_dir "token/ear/policies/opa" in
      map_err (λ e. concat ("read '" ∷ source ∷ "': " ∷ e ∷ [])) (host.read_bytes source)
      >>= λ policy.
          map_err (λ e. concat ("create '" ∷ parent ∷ "': " ∷ e ∷ [])) (host.create_dir_all parent)
          >> map_err (λ e. concat ("write '" ∷ join parent "default.rego" ∷ "': " ∷ e ∷ []))
              (host.write_file (join parent "default.rego") policy)
