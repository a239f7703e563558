-- ===== src/Spec/AgentToAgent/Validity.antt =====
-- What the agent-to-agent checks accept.
use confidential_agent.Common.{
  ℕ, ◌<◌, String, true, false, Option, none, some, List, [], ◌∷◌, All, Any, any, nat_eq, string_eq,
  ◌↔◌, ◌≡◌, arith, Field, ok, WhenSome, when_some-eq-ok_iff, for_each-eq-ok_iff,
}
use confidential_agent.Common.Text.{is_empty, trim, starts_with}
use confidential_agent.Spec.Types.{
  A2aSpec, A2aInterfaceSpec, A2aSigningSpec, A2aSkillSpec, ConnectPort,
}
use confidential_agent.Spec.Ports.{connect_ports}
use confidential_agent.Spec.Urls.{validate_https_url}
use confidential_agent.Spec.Urls.Validity.{
  IsId, IsHttpsUrl, validate_id_iff, validate_https_url_iff,
}
use confidential_agent.Spec.AgentToAgent.{
  serves, validate_interface, is_unset, is_keyless, validate_required_signing, validate_signing,
  validate_tag, validate_skill, validate_a2a,
}

serves_iff :
    (p : ℕ) (connect : List ConnectPort)
    → (any (serves p) connect ≡ true) ↔ Any (λ q. q ≡ p) (connect_ports connect)
serves_iff p [] = (λ h. cc, λ h. absurd h)
serves_iff p (cp ∷ connect) = ground (arith, serves_iff p connect)

-- An interface stands on a connect port of the service, at an absolute path.
pub record IsInterface (connect : List ConnectPort) (i : A2aInterfaceSpec) : Type 0 where
  pub binding : is_empty (trim i.protocol_binding) ≡ false
  pub positive : 0 < i.port
  pub served : Any (λ q. q ≡ i.port) (connect_ports connect)
  pub path : starts_with b'/' i.path ≡ true

validate_interface_iff :
    (connect : List ConnectPort) (idx : ℕ) (i : A2aInterfaceSpec)
    → (validate_interface connect idx i ≡ ok tt) ↔ IsInterface connect i
unfolding validate_interface
validate_interface_iff connect idx i = ground (arith, serves_iff i.port connect)

-- Keyless signing with an issuer and a subject to expect.
pub record IsKeyless (s : A2aSigningSpec) : Type 0 where
  pub mode : s.mode ≡ some "sigstore-keyless"
  pub issuer : is_unset s.expected_issuer ≡ false
  pub subject : is_unset s.expected_subject ≡ false

keyless_iff : (o : Option String) → (is_keyless o ≡ true) ↔ (o ≡ some "sigstore-keyless")
keyless_iff none = (λ h. cc, λ h. cc)
keyless_iff (some s) = ground (arith, string_eq.beq_iff s "sigstore-keyless")

validate_required_signing_iff :
    (s : A2aSigningSpec) → (validate_required_signing s ≡ ok tt) ↔ IsKeyless s
unfolding validate_required_signing
validate_required_signing_iff s = ground (arith, keyless_iff s.mode)

-- Issuers are https URLs, and signing that is required is keyless with a pinned signer.
pub record IsSigning (s : A2aSigningSpec) : Type 0 where
  pub expected_issuer : WhenSome IsHttpsUrl s.expected_issuer
  pub oidc_issuer : WhenSome IsHttpsUrl s.oidc_issuer
  pub pinned : (s.required ≡ true) → IsKeyless s

validate_signing_iff : (s : A2aSigningSpec) → (validate_signing s ≡ ok tt) ↔ IsSigning s
unfolding validate_signing
validate_signing_iff s = ground (
  arith,
  when_some-eq-ok_iff IsHttpsUrl (validate_https_url (Field.name "a2a.signing.expected_issuer"))
      (validate_https_url_iff (Field.name "a2a.signing.expected_issuer")) s.expected_issuer,
  when_some-eq-ok_iff IsHttpsUrl (validate_https_url (Field.name "a2a.signing.oidc_issuer"))
      (validate_https_url_iff (Field.name "a2a.signing.oidc_issuer")) s.oidc_issuer,
  validate_required_signing_iff s,
)

abbrev pub IsFilled : String → Type 0
IsFilled s = is_empty (trim s) ≡ false

pub record IsSkill (s : A2aSkillSpec) : Type 0 where
  pub id : IsId s.id
  pub name : IsFilled s.name
  pub tags : All IsFilled s.tags

tag_iff : (idx tag_idx : ℕ) (tag : String) → (validate_tag idx tag_idx tag ≡ ok tt) ↔ IsFilled tag
unfolding validate_tag
tag_iff idx tag_idx tag = ground arith

validate_skill_iff : (idx : ℕ) (s : A2aSkillSpec) → (validate_skill idx s ≡ ok tt) ↔ IsSkill s
unfolding validate_skill
validate_skill_iff idx s = ground (
  arith,
  validate_id_iff (Field.item "a2a.skills" idx "id") s.id,
  for_each-eq-ok_iff IsFilled (validate_tag idx) (tag_iff idx) 0 s.tags,
)

pub record IsA2a (connect : List ConnectPort) (a : A2aSpec) : Type 0 where
  pub id : IsId a.id
  pub name : IsFilled a.name
  pub ttl : 0 < a.cache_ttl_sec
  pub interfaces : All (IsInterface connect) a.interfaces
  pub signing : IsSigning a.signing
  pub skills : All IsSkill a.skills

-- The agent-to-agent part is accepted exactly if its id is well formed, its name is not blank and its
-- lifetime is positive; each interface has a protocol binding that is not blank, a positive port that
-- is a connect port and a path that starts with '/'; both issuers of the signing, where they are set,
-- are https URLs, and signing that is required is keyless with an issuer and a subject; and each skill
-- has a well-formed id, a name that is not blank and no blank tag.
pub validate_a2a_iff :
    (connect : List ConnectPort) (a : A2aSpec) → (validate_a2a connect a ≡ ok tt) ↔ IsA2a connect a
unfolding validate_a2a
validate_a2a_iff connect a = ground (
  arith,
  validate_id_iff (Field.name "a2a.id") a.id,
  for_each-eq-ok_iff (IsInterface connect) (validate_interface connect)
      (validate_interface_iff connect) 0 a.interfaces,
  validate_signing_iff a.signing,
  for_each-eq-ok_iff IsSkill validate_skill validate_skill_iff 0 a.skills,
)
