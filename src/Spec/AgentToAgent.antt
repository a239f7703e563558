-- ===== src/Spec/AgentToAgent.antt =====
-- core/src/spec.rs: the agent-to-agent part of a spec, its interfaces, signing and skills.
pub mod Validity
mod Examples
use mathlib.Core.Option.{get_or}
use confidential_agent.Common.{
  ℕ, String, Bool, true, false, not, Option, none, some, List, [], ◌∷◌, any, ◌==◌, nat_eq,
  string_eq, Field, Problem, Result, ok, ◌>>=◌, ◌>>◌, bail_if, when_some, for_each,
}
use confidential_agent.Common.Text.{is_empty, trim, starts_with}
use confidential_agent.Spec.Types.{
  A2aSpec, A2aInterfaceSpec, A2aSigningSpec, A2aSkillSpec, ConnectPort,
}
use confidential_agent.Spec.Ports.{port}
use confidential_agent.Spec.Urls.{validate_id, validate_https_url}

abbrev pub interface_field : ℕ → String → Field
interface_field idx part = Field.item "a2a.interfaces" idx part

abbrev pub serves : ℕ → ConnectPort → Bool
serves p cp = port cp == p

-- One round of the loop over the interfaces.
unfoldable pub validate_interface : List ConnectPort → ℕ → A2aInterfaceSpec → Result (Unit {0})
validate_interface connect idx interface = do
  bail_if (is_empty (trim interface.protocol_binding)) (interface_field idx "protocol_binding")
      Problem.empty
  bail_if (interface.port == 0) (interface_field idx "port") Problem.zero_value
  bail_if (not (any (serves interface.port) connect)) (interface_field idx "port") Problem.unlisted
  bail_if (not (starts_with b'/' interface.path)) (interface_field idx "path") Problem.relative

-- `value.map(str::trim).unwrap_or("").is_empty()`
abbrev pub is_unset : Option String → Bool
is_unset none = true
is_unset (some s) = is_empty (trim s)

abbrev pub is_keyless : Option String → Bool
is_keyless none = false
is_keyless (some s) = s == "sigstore-keyless"

unfoldable pub validate_required_signing : A2aSigningSpec → Result (Unit {0})
validate_required_signing signing = do
  bail_if (not (is_keyless signing.mode)) (Field.name "a2a.signing.mode") Problem.unsupported
  bail_if (is_unset signing.expected_issuer) (Field.name "a2a.signing.expected_issuer")
      Problem.required
  bail_if (is_unset signing.expected_subject) (Field.name "a2a.signing.expected_subject")
      Problem.required

abbrev when : Bool → Result (Unit {0}) → Result (Unit {0})
when true check = check
when false check = ok tt

unfoldable pub validate_signing : A2aSigningSpec → Result (Unit {0})
validate_signing signing = do
  when_some (validate_https_url (Field.name "a2a.signing.expected_issuer")) signing.expected_issuer
  when_some (validate_https_url (Field.name "a2a.signing.oidc_issuer")) signing.oidc_issuer
  when signing.required (validate_required_signing signing)

unfoldable pub validate_tag : ℕ → ℕ → String → Result (Unit {0})
validate_tag idx tag_idx tag =
    bail_if (is_empty (trim tag)) (Field.item_item "a2a.skills" idx "tags" tag_idx) Problem.empty

unfoldable pub validate_skill : ℕ → A2aSkillSpec → Result (Unit {0})
validate_skill idx skill = do
  validate_id (Field.item "a2a.skills" idx "id") skill.id
  bail_if (is_empty (trim skill.name)) (Field.item "a2a.skills" idx "name") Problem.empty
  for_each (validate_tag idx) 0 skill.tags

unfoldable pub validate_a2a : List ConnectPort → A2aSpec → Result (Unit {0})
validate_a2a connect a2a = do
  validate_id (Field.name "a2a.id") a2a.id
  bail_if (is_empty (trim a2a.name)) (Field.name "a2a.name") Problem.empty
  bail_if (a2a.cache_ttl_sec == 0) (Field.name "a2a.cacheTtlSec") Problem.zero_value
  for_each (validate_interface connect) 0 a2a.interfaces
  validate_signing a2a.signing
  for_each validate_skill 0 a2a.skills
