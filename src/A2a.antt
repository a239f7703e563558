-- ===== src/A2a.antt =====
-- core/src/a2a.rs: the peers of an agent, as the CLI keeps them in a2a.json and as a bundle carries
-- them to the guest. Reading and parsing a file are a parameter; the checks are here.
pub mod Validity
pub mod Loading
mod Examples
use confidential_agent.Common.{
  ℕ, suc, String, Bool, true, false, Option, none, some, List, [], ◌∷◌, ◌==◌, nat_eq, string_eq,
  if◌then◌else◌, contains, is_id_char, Field, Problem, Error, Result, ok, err, ◌>>=◌, ◌>>◌, bail_if,
  ensure, when_some, for_each,
}
use confidential_agent.Common.Text.{is_empty, all_chars, trim, byte_len}

pub record A2aSignerPin : Type 0 where
  pub issuer : String
  pub subject : String

pub record A2aCardSummary : Type 0 where
  pub id : String
  pub public_ip : String
  pub ports : List ℕ
  pub signed : Bool

pub record A2aCliLint : Type 0 where
  pub schema_ok : Bool
  pub public_ip_matches_host : Bool
  pub rekor_url_trusted : Bool
  pub rekor_fields_complete : Bool

pub record A2aCliPreview : Type 0 where
  pub fetched_at : String
  pub card_summary : A2aCardSummary
  pub verified : Bool
  pub lint : Option A2aCliLint

pub record A2aCliPreviewError : Type 0 where
  pub checked_at : String
  pub kind : String
  pub message : String

pub record A2aStatePeer : Type 0 where
  pub alias : Option String
  pub url : String
  pub scoped_services : List String
  pub signer : Option A2aSignerPin
  pub added_at : String
  pub cli_preview : Option A2aCliPreview
  pub cli_preview_error : Option A2aCliPreviewError

pub record A2aStateFile : Type 0 where
  pub version : ℕ
  pub peers : List A2aStatePeer

pub record A2aBundlePeer : Type 0 where
  pub alias : Option String
  pub url : String
  pub scoped_services : List String
  pub signer : Option A2aSignerPin
  pub fingerprint : String

pub record A2aBundle : Type 0 where
  pub version : ℕ
  pub peers : List A2aBundlePeer

abbrev pub empty_state : A2aStateFile
empty_state = record { version = 2; peers = [] }

abbrev pub empty_bundle : A2aBundle
empty_bundle = record { version = 2; peers = [] }

unfoldable pub validate_id : Field → String → Result (Unit {0})
validate_id field value = do
  let value = trim value
  bail_if (is_empty value) field Problem.empty
  ensure (all_chars is_id_char value) field Problem.charset

unfoldable pub validate_signer_pin : A2aSignerPin → Result (Unit {0})
validate_signer_pin pin = do
  bail_if (is_empty (trim pin.issuer)) (Field.name "issuer") Problem.empty
  bail_if (is_empty (trim pin.subject)) (Field.name "subject") Problem.empty

-- The innermost loop of both `validate`s; `scoped` holds the services before.
unfoldable pub validate_scoped : List String → List String → Result (Unit {0})
validate_scoped scoped [] = ok tt
validate_scoped scoped (service ∷ rest) = do
  validate_id (Field.name "scoped service") service
  bail_if (contains scoped service) (Field.name "scoped service") Problem.duplicate
  validate_scoped (service ∷ scoped) rest

-- The check of an alias, if there is one, against those before.
unfoldable pub validate_alias : List String → Option String → Result (Unit {0})
validate_alias aliases none = ok tt
validate_alias aliases (some alias) = do
  validate_id (Field.name "alias") alias
  bail_if (contains aliases alias) (Field.name "alias") Problem.duplicate

-- `aliases.insert(alias)`, if there is one.
abbrev pub note_alias : Option String → List String → List String
note_alias none aliases = aliases
note_alias (some alias) aliases = alias ∷ aliases

-- The loop of `A2aStateFile::validate`.
unfoldable pub validate_state_peers :
    List String → List String → List A2aStatePeer → Result (Unit {0})
validate_state_peers aliases urls [] = ok tt
validate_state_peers aliases urls (peer ∷ rest) = do
  validate_alias aliases peer.alias
  bail_if (contains urls peer.url) (Field.name "url") Problem.duplicate
  when_some validate_signer_pin peer.signer
  validate_scoped [] peer.scoped_services
  validate_state_peers (note_alias peer.alias aliases) (peer.url ∷ urls) rest

unfoldable pub validate_state : A2aStateFile → Result (Unit {0})
validate_state file = do
  ensure (file.version == 2) (Field.name "version") Problem.version
  validate_state_peers [] [] file.peers

-- The loop of `A2aBundle::validate`.
unfoldable pub validate_bundle_peers :
    List String → List String → List A2aBundlePeer → Result (Unit {0})
validate_bundle_peers aliases urls [] = ok tt
validate_bundle_peers aliases urls (peer ∷ rest) = do
  validate_alias aliases peer.alias
  bail_if (is_empty (trim peer.url)) (Field.name "url") Problem.empty
  bail_if (contains urls peer.url) (Field.name "url") Problem.duplicate
  bail_if (is_empty (trim peer.fingerprint)) (Field.name "fingerprint") Problem.empty
  when_some validate_signer_pin peer.signer
  validate_scoped [] peer.scoped_services
  validate_bundle_peers (note_alias peer.alias aliases) (peer.url ∷ urls) rest

unfoldable pub validate_bundle : A2aBundle → Result (Unit {0})
validate_bundle bundle = do
  ensure (bundle.version == 2) (Field.name "version") Problem.version
  validate_bundle_peers [] [] bundle.peers

-- What the file system answers for a path.
pub data OnDisk : Type 0 where
  missing : OnDisk
  unreadable : Error → OnDisk
  content : String → OnDisk

-- `A2aStateFile::from_path`; serde's parser is a parameter.
module _ (parse : String → Result A2aStateFile) where
  unfoldable pub from_path : OnDisk → Result A2aStateFile
  from_path missing = ok empty_state
  from_path (unreadable e) = err e
  from_path (content s) =
      if byte_len s == 0
      then ok empty_state
      else (parse s >>= λ state. validate_state state >> ok state)
