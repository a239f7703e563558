-- ===== src/Spec/AgentToAgent/Examples.antt =====
-- The agent-to-agent part of a spec that signs its cards.
use confidential_agent.Common.{List, [], ◌∷◌, true, none, some, ◌≡◌, ◌↔◌, ok}
use confidential_agent.Spec.Types.{A2aSpec, ConnectPort, plain}
use confidential_agent.Spec.AgentToAgent.{validate_a2a}
use confidential_agent.Spec.AgentToAgent.Validity.{IsA2a, validate_a2a_iff}

abbrev connect : List ConnectPort
connect = plain 8443 ∷ []

abbrev signed : A2aSpec
signed = record {
  enabled = true;
  id = "web-agent";
  name = "Web agent";
  version = some "1.0";
  description = none;
  provider = none;
  cache_ttl_sec = 300;
  interfaces = record { protocol_binding = "JSONRPC"; port = 8443; path = "/a2a" } ∷ [];
  signing = record {
    mode = some "sigstore-keyless";
    required = true;
    expected_issuer = some "https://issuer.example";
    expected_subject = some "ops@example";
    oidc_issuer = none;
  };
  skills = [];
}

validate_a2a_iff_example : (validate_a2a connect signed ≡ ok tt) ↔ IsA2a connect signed
validate_a2a_iff_example = validate_a2a_iff connect signed
