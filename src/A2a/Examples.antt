-- ===== src/A2a/Examples.antt =====
-- Peers of an agent: one with an alias and a pinned signer, one by its URL alone.
use confidential_agent.Common.{
  String, none, some, [], ◌∷◌, ◌≡◌, ◌↔◌, refl, Result, ok, contains, is_id_char,
}
use confidential_agent.Common.Text.{trim, trim_start, keep, trim_end_matches, is_empty, all_chars}
use confidential_agent.A2a.{
  A2aSignerPin, A2aStatePeer, A2aStateFile, A2aBundle, validate_id, validate_signer_pin,
  validate_scoped, validate_alias, validate_state_peers, validate_state, validate_bundle, content,
  from_path,
}
use confidential_agent.A2a.Validity.{
  IsValidState, IsValidBundle, validate_state_iff, validate_bundle_iff,
}
use confidential_agent.A2a.Loading.{from_path-IsValidState}

abbrev pin : A2aSignerPin
pin = record { issuer = "https://issuer.example"; subject = "ops@example" }

abbrev known : A2aStatePeer
known = record {
  alias = some "billing";
  url = "http://198.51.100.7:8089/";
  scoped_services = "web" ∷ "worker" ∷ [];
  signer = some pin;
  added_at = "2025-01-01T00:00:00Z";
  cli_preview = none;
  cli_preview_error = none;
}

abbrev other : A2aStatePeer
other = record known { alias = none; url = "http://203.0.113.9:8089/"; signer = none }

abbrev two_peers : A2aStateFile
two_peers = record { version = 2; peers = known ∷ other ∷ [] }

abbrev bundle : A2aBundle
bundle = record {
  version = 2;
  peers =
      record {
        alias = some "billing";
        url = "http://198.51.100.7:8089/";
        scoped_services = [];
        signer = some pin;
        fingerprint = "sha256:00";
      }
      ∷ [];
}

-- A parser that reads every text as the two peers.
abbrev reads_two_peers : String → Result A2aStateFile
reads_two_peers s = ok two_peers

runs : Unit {0}
unfolding is_id_char trim trim_start keep trim_end_matches is_empty all_chars contains validate_id
    validate_signer_pin validate_scoped validate_alias validate_state_peers validate_state from_path
runs = tt

two_peers_loaded : from_path reads_two_peers (content "{}") ≡ ok two_peers
unfolding runs
two_peers_loaded = refl

validate_state_iff_example : (validate_state two_peers ≡ ok tt) ↔ IsValidState two_peers
validate_state_iff_example = validate_state_iff two_peers

validate_bundle_iff_example : (validate_bundle bundle ≡ ok tt) ↔ IsValidBundle bundle
validate_bundle_iff_example = validate_bundle_iff bundle

from_path-IsValidState_example : IsValidState two_peers
from_path-IsValidState_example =
    from_path-IsValidState reads_two_peers (content "{}") two_peers two_peers_loaded
