-- ===== src/A2a/Validity.antt =====
-- What a valid state file and a valid bundle are, and what the checks accept.
use confidential_agent.Common.{
  String, true, false, Option, none, some, List, [], ◌∷◌, map, All, Distinct, nat_eq, nat_eqb_iff,
  string_eq, ◌↔◌, ◌≡◌, arith, contains, distinct_from, distinct_from-nil_iff, is_id_char, Field,
  Problem, ok, bail_if-eq-ok_iff, ensure-eq-ok_iff, WhenSome, when_some, when_some-eq-ok_iff,
}
use confidential_agent.Common.Text.{is_empty, all_chars, trim}
use confidential_agent.A2a.{
  A2aSignerPin, A2aStatePeer, A2aStateFile, A2aBundlePeer, A2aBundle, validate_id,
  validate_signer_pin, validate_scoped, validate_alias, note_alias, validate_state_peers,
  validate_state, validate_bundle_peers, validate_bundle,
}

-- Around the white space at its ends, an id is not empty and holds letters, digits, '_' and '-'.
pub record IsId (value : String) : Type 0 where
  pub filled : is_empty (trim value) ≡ false
  pub plain : all_chars is_id_char (trim value) ≡ true

pub record IsPin (pin : A2aSignerPin) : Type 0 where
  pub issuer : is_empty (trim pin.issuer) ≡ false
  pub subject : is_empty (trim pin.subject) ≡ false

pub validate_id_iff :
    (field : Field) (value : String) → (validate_id field value ≡ ok tt) ↔ IsId value
unfolding validate_id
validate_id_iff field value = ground (
  arith,
  bail_if-eq-ok_iff (is_empty (trim value)) field Problem.empty,
  ensure-eq-ok_iff (all_chars is_id_char (trim value)) field Problem.charset,
)

validate_signer_pin_iff : (pin : A2aSignerPin) → (validate_signer_pin pin ≡ ok tt) ↔ IsPin pin
unfolding validate_signer_pin
validate_signer_pin_iff pin = ground (
  arith,
  bail_if-eq-ok_iff (is_empty (trim pin.issuer)) (Field.name "issuer") Problem.empty,
  bail_if-eq-ok_iff (is_empty (trim pin.subject)) (Field.name "subject") Problem.empty,
)

signer_iff :
    (signer : Option A2aSignerPin)
    → (when_some validate_signer_pin signer ≡ ok tt) ↔ WhenSome IsPin signer
signer_iff = when_some-eq-ok_iff IsPin validate_signer_pin validate_signer_pin_iff

-- Services that are ids and differ.
abbrev pub AreServices : List String → Type 0
AreServices services = All IsId services × Distinct services

validate_scoped_iff :
    (seen services : List String)
    → (validate_scoped seen services ≡ ok tt)
      ↔ (All IsId services × (distinct_from seen services ≡ true))
unfolding validate_scoped distinct_from
validate_scoped_iff seen [] = ground arith
validate_scoped_iff seen (s ∷ services) = ground (
  arith,
  validate_id_iff (Field.name "scoped service") s,
  validate_scoped_iff (s ∷ seen) services,
)

scoped_iff : (services : List String) → (validate_scoped [] services ≡ ok tt) ↔ AreServices services
scoped_iff services =
    ground (arith, validate_scoped_iff [] services, distinct_from-nil_iff services)

-- The aliases that are set.
abbrev pub aliases_of {ℓ} : {A : Type ℓ} → (A → Option String) → List A → List String
aliases_of alias [] = []
aliases_of alias (x ∷ xs) = note_alias (alias x) (aliases_of alias xs)

alias_iff :
    (seen : List String) (alias : Option String)
    → (validate_alias seen alias ≡ ok tt)
      ↔ (WhenSome IsId alias × WhenSome (λ a. contains seen a ≡ false) alias)
unfolding validate_alias
alias_iff seen none = ground arith
alias_iff seen (some a) = ground (arith, validate_id_iff (Field.name "alias") a)

pub record IsStatePeer (peer : A2aStatePeer) : Type 0 where
  pub alias : WhenSome IsId peer.alias
  pub signer : WhenSome IsPin peer.signer
  pub services : AreServices peer.scoped_services

abbrev pub state_aliases : List A2aStatePeer → List String
state_aliases = aliases_of (λ (p : A2aStatePeer). p.alias)

abbrev pub state_urls : List A2aStatePeer → List String
state_urls = map (λ (p : A2aStatePeer). p.url)

-- The version is 2; no alias and no URL is used twice; each peer is well formed.
pub record IsValidState (file : A2aStateFile) : Type 0 where
  pub version : file.version ≡ 2
  pub aliases : Distinct (state_aliases file.peers)
  pub urls : Distinct (state_urls file.peers)
  pub peers : All IsStatePeer file.peers

state_peers_iff :
    (aliases urls : List String) (ps : List A2aStatePeer)
    → (validate_state_peers aliases urls ps ≡ ok tt) ↔ (
        All IsStatePeer ps
        × (distinct_from aliases (state_aliases ps) ≡ true)
        × (distinct_from urls (state_urls ps) ≡ true))
unfolding validate_state_peers distinct_from
state_peers_iff aliases urls [] = ground arith
state_peers_iff aliases urls (p ∷ ps) = ground (
  arith,
  alias_iff aliases p.alias,
  signer_iff p.signer,
  scoped_iff p.scoped_services,
  state_peers_iff (note_alias p.alias aliases) (p.url ∷ urls) ps,
)

-- The check of a state file accepts it exactly if it has version 2, no alias and no URL occurs
-- twice, and each peer has a plain alias if any, a signer with an issuer and a subject if any, and
-- plain services that differ.
pub validate_state_iff : (file : A2aStateFile) → (validate_state file ≡ ok tt) ↔ IsValidState file
unfolding validate_state
validate_state_iff file = ground (
  arith,
  nat_eqb_iff file.version 2,
  state_peers_iff [] [] file.peers,
  distinct_from-nil_iff (state_aliases file.peers),
  distinct_from-nil_iff (state_urls file.peers),
)

pub record IsBundlePeer (peer : A2aBundlePeer) : Type 0 where
  pub alias : WhenSome IsId peer.alias
  pub url : is_empty (trim peer.url) ≡ false
  pub fingerprint : is_empty (trim peer.fingerprint) ≡ false
  pub signer : WhenSome IsPin peer.signer
  pub services : AreServices peer.scoped_services

abbrev pub bundle_aliases : List A2aBundlePeer → List String
bundle_aliases = aliases_of (λ (p : A2aBundlePeer). p.alias)

abbrev pub bundle_urls : List A2aBundlePeer → List String
bundle_urls = map (λ (p : A2aBundlePeer). p.url)

pub record IsValidBundle (bundle : A2aBundle) : Type 0 where
  pub version : bundle.version ≡ 2
  pub aliases : Distinct (bundle_aliases bundle.peers)
  pub urls : Distinct (bundle_urls bundle.peers)
  pub peers : All IsBundlePeer bundle.peers

bundle_peers_iff :
    (aliases urls : List String) (ps : List A2aBundlePeer)
    → (validate_bundle_peers aliases urls ps ≡ ok tt) ↔ (
        All IsBundlePeer ps
        × (distinct_from aliases (bundle_aliases ps) ≡ true)
        × (distinct_from urls (bundle_urls ps) ≡ true))
unfolding validate_bundle_peers distinct_from
bundle_peers_iff aliases urls [] = ground arith
bundle_peers_iff aliases urls (p ∷ ps) = ground (
  arith,
  alias_iff aliases p.alias,
  signer_iff p.signer,
  scoped_iff p.scoped_services,
  bundle_peers_iff (note_alias p.alias aliases) (p.url ∷ urls) ps,
)

-- The check of a bundle accepts it exactly if it has version 2, no alias and no URL occurs twice,
-- and each peer has a URL, a fingerprint, a plain alias if any, a signer with an issuer and a
-- subject if any, and plain services that differ.
pub validate_bundle_iff :
    (bundle : A2aBundle) → (validate_bundle bundle ≡ ok tt) ↔ IsValidBundle bundle
unfolding validate_bundle
validate_bundle_iff bundle = ground (
  arith,
  nat_eqb_iff bundle.version 2,
  bundle_peers_iff [] [] bundle.peers,
  distinct_from-nil_iff (bundle_aliases bundle.peers),
  distinct_from-nil_iff (bundle_urls bundle.peers),
)
