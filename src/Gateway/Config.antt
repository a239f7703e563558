-- ===== src/Gateway/Config.antt =====
-- gateway/src/lib.rs: the gateway's configuration and its check.
pub mod Validity
use confidential_agent.Common.{
  ℕ, String, Bool, true, false, not, ◌||◌, Option, none, some, List, [], ◌∷◌, is_empty, ◌==◌,
  nat_eq, string_eq, contains, Field, Problem, Error, Result, ok, err, ◌>>=◌, ◌>>◌, bail_if, ensure,
}
use confidential_agent.Common.Text
use confidential_agent.Common.Text.{trim}
use confidential_agent.Common.BTree.{BTreeMap}
use confidential_agent.Spec.Types.{PathBuf}
use confidential_agent.Gateway.{Bytes, Crates, GatewayTrustedService, decode_key32}

pub record GatewayIdentity : Type 0 where
  pub public_key : String
  pub private_key : String

pub record ClientRoute : Type 0 where
  pub listen_host : String
  pub listen_port : ℕ
  pub tng_host : String
  pub tng_port : ℕ
  pub target_service : String
  pub target_port : ℕ

pub record ServerRoute : Type 0 where
  pub listen_host : String
  pub listen_port : ℕ
  pub upstream_host : String
  pub upstream_port : ℕ
  pub protocol : String
  pub audit_path : Option PathBuf

pub record GatewayConfig : Type 0 where
  pub schema : String
  pub service_id : String
  pub identity : Option GatewayIdentity
  pub mesh_generation : ℕ
  pub token_ttl_sec : Option ℕ
  pub so_mark : Option ℕ
  pub trusted_services : BTreeMap GatewayTrustedService
  pub client_routes : List ClientRoute
  pub server_routes : List ServerRoute

unfoldable pub gateway_config_schema : String
gateway_config_schema = "confidential-agent/gateway-config/v1"

abbrev field : String → Field
field = Field.name

-- The loop over the client routes. The set of listening ports is kept per kind, as its pairs are.
unfoldable pub validate_client_routes : List ℕ → List ClientRoute → Result (Unit {0})
validate_client_routes listen_ports [] = ok tt
validate_client_routes listen_ports (route ∷ routes) = do
  bail_if (contains listen_ports route.listen_port) (field "client_routes") Problem.duplicate
  bail_if (route.listen_port == route.tng_port) (field "client_routes") Problem.conflict
  bail_if (Text.is_empty (trim route.target_service)) (field "target_service") Problem.empty
  validate_client_routes (route.listen_port ∷ listen_ports) routes

unfoldable pub validate_server_routes : List ℕ → List ServerRoute → Result (Unit {0})
validate_server_routes listen_ports [] = ok tt
validate_server_routes listen_ports (route ∷ routes) = do
  bail_if (contains listen_ports route.listen_port) (field "server_routes") Problem.duplicate
  bail_if (route.listen_port == route.upstream_port) (field "server_routes") Problem.conflict
  ensure (route.protocol == "raw" || route.protocol == "mcp") (field "protocol") Problem.unsupported
  validate_server_routes (route.listen_port ∷ listen_ports) routes

module _ (crates : Crates) where
  -- `decode_key32(…)?;`
  unfoldable pub check_key : String → Result (Unit {0})
  check_key value = do bytes ← decode_key32 crates value; ok tt

  unfoldable pub validate_identity : Option GatewayIdentity → List ClientRoute → Result (Unit {0})
  validate_identity none routes =
      bail_if (not (is_empty routes)) (field "identity") Problem.required
  validate_identity (some identity) routes = do
    check_key identity.private_key
    check_key identity.public_key

  unfoldable pub validate_trusted : BTreeMap GatewayTrustedService → Result (Unit {0})
  validate_trusted [] = ok tt
  validate_trusted ((id, trusted) ∷ services) = do
    bail_if (Text.is_empty (trim id)) (field "trusted_services") Problem.empty
    check_key trusted.public_key
    validate_trusted services

  unfoldable pub validate : GatewayConfig → Result (Unit {0})
  validate config = do
    bail_if (not (config.schema == gateway_config_schema)) (field "schema") Problem.version
    bail_if (Text.is_empty (trim config.service_id)) (field "service_id") Problem.empty
    validate_identity config.identity config.client_routes
    validate_client_routes [] config.client_routes
    validate_server_routes [] config.server_routes
    validate_trusted config.trusted_services
