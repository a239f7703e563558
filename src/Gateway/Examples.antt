-- ===== src/Gateway/Examples.antt =====
-- A token of a trusted service, used twice; the crates answer by the code points of their texts.
use Prim.Native.Char.{code}
use confidential_agent.Common.{
  ℕ, String, some, none, [], ◌∷◌, ◌≡◌, ◌≢◌, refl, arith, length, nat_eqb, if◌then◌else◌, ok, err,
  bad, Problem,
}
use confidential_agent.Common.Text.{split}
use confidential_agent.Common.BTree.{BTreeMap, insert, get, contains_key}
use confidential_agent.Gateway.{
  Bytes, Crates, TokenHeader, ServiceClaims, VerifiedCaller, GatewayTrustedService, jti_field,
  retain, cache_insert, decode_key32, check_claims, check_signature, token_claims, admit,
  verify_service_token,
}
use confidential_agent.Common.{is_whitespace, contains, ◌↔◌}
use confidential_agent.Common.Text
use confidential_agent.Common.Text.{trim, trim_start, keep, trim_end_matches}
use confidential_agent.Gateway.Config.{
  GatewayConfig, gateway_config_schema, validate, validate_identity, check_key,
  validate_client_routes, validate_server_routes, validate_trusted,
}
use confidential_agent.Gateway.Config.Validity.{IsValid, validate_gateway_iff}
use confidential_agent.Gateway.Accepted.{IsToken, token_claims-IsToken}
use confidential_agent.Gateway.Replay.{
  Request, serve, verify_service_token-replayed, verify_service_token-once,
}

code_points : String → Bytes
code_points String.[] = []
code_points (String.◌∷◌ c s) = code c ∷ code_points s

abbrev header : TokenHeader
header = record { alg = "EdDSA"; typ = "JWT" }

abbrev claims : ServiceClaims
claims = record {
  iss = "web";
  sub = "web";
  aud = "cai-gateway:api:8443";
  iat = 1_000;
  exp = 1_060;
  jti = "id-1";
  mesh_generation = 3;
}

-- A header has one byte, claims two, and a signature is as long as its key.
abbrev crates : Crates
crates = record {
  VerifyingKey = Bytes;
  Signature = Bytes;
  base64 = λ s. some (code_points s);
  read_header = λ bytes. if nat_eqb (length bytes) 1 then some header else none;
  read_claims = λ bytes. if nat_eqb (length bytes) 2 then some claims else none;
  key_of = λ bytes. some bytes;
  signature_of = λ bytes. some bytes;
  verify = λ key message signature. nat_eqb (length signature) (length key);
}

abbrev trusted : BTreeMap GatewayTrustedService
trusted = ("web", record { public_key = "0123456789abcdef0123456789abcdef" }) ∷ []

abbrev token : String
token = "h.cc.fedcba9876543210fedcba9876543210"

abbrev first_use : Request
first_use = record { audience = "cai-gateway:api:8443"; now = 1_010; token = token }

abbrev second_use : Request
second_use = record { audience = "cai-gateway:api:8443"; now = 1_020; token = token }

abbrev caller : VerifiedCaller
caller = record { service_id = "web"; jti = "id-1" }

runs : Unit {0}
unfolding code_points split insert get contains_key retain cache_insert decode_key32 check_claims
    check_signature token_claims admit verify_service_token serve
runs = tt

read_claims :
    token_claims crates trusted first_use.audience first_use.now (split b'.' token) ≡ ok claims
unfolding runs
read_claims = refl

accepted :
    (verify_service_token crates trusted first_use.audience first_use.now token []).1 ≡ ok caller
unfolding runs
accepted = refl

abbrev after : BTreeMap ℕ
after = (verify_service_token crates trusted first_use.audience first_use.now token []).0

refused :
    (verify_service_token crates trusted second_use.audience second_use.now token after).1
    ≡ err (bad jti_field Problem.duplicate)
unfolding runs
refused = refl

token_claims-IsToken_example :
    IsToken crates trusted "cai-gateway:api:8443" 1_010 (split b'.' token) claims
token_claims-IsToken_example =
    token_claims-IsToken crates trusted "cai-gateway:api:8443" 1_010 (split b'.' token) claims
      read_claims

verify_service_token-replayed_example :
    (verify_service_token crates trusted second_use.audience second_use.now token
      (serve crates trusted (second_use ∷ []) after)).1
    ≢ ok caller
verify_service_token-replayed_example =
    verify_service_token-replayed crates trusted first_use second_use (second_use ∷ []) [] claims
      caller caller read_claims accepted (omega arith, tt) (omega arith) refl

verify_service_token-once_example :
    (verify_service_token crates trusted second_use.audience second_use.now token
      (serve crates trusted (second_use ∷ []) after)).1
    ≢ ok caller
verify_service_token-once_example =
    verify_service_token-once crates trusted first_use second_use (second_use ∷ []) [] claims caller
      caller read_claims accepted (omega arith) (omega arith, tt) refl

abbrev gateway : GatewayConfig
gateway = record {
  schema = "confidential-agent/gateway-config/v1";
  service_id = "web";
  identity = some (record {
    public_key = "0123456789abcdef0123456789abcdef";
    private_key = "fedcba9876543210fedcba9876543210";
  });
  mesh_generation = 3;
  token_ttl_sec = none;
  so_mark = none;
  trusted_services = trusted;
  client_routes =
      record {
        listen_host = "127.0.0.1";
        listen_port = 9_000;
        tng_host = "127.0.0.1";
        tng_port = 9_100;
        target_service = "api";
        target_port = 8_443;
      }
      ∷ [];
  server_routes = [];
}

gateway_accepted : validate crates gateway ≡ ok tt
unfolding runs validate validate_identity check_key validate_client_routes validate_server_routes
    validate_trusted gateway_config_schema trim trim_start keep trim_end_matches is_whitespace
    contains Text.is_empty
gateway_accepted = refl

validate_gateway_iff_example : (validate crates gateway ≡ ok tt) ↔ IsValid crates gateway
validate_gateway_iff_example = validate_gateway_iff crates gateway
