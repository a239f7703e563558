-- ===== src/Gateway/Config/Validity.antt =====
-- What the check of a gateway's configuration accepts.
use confidential_agent.Common.{
  ℕ, String, true, false, Option, none, some, List, [], ◌∷◌, All, Distinct, map, is_empty, length,
  nat_eq, string_eq, ◌↔◌, ◌≡◌, ◌≢◌, ◌⊎◌, inl, inr, refl, arith, distinct_from,
  distinct_from-nil_iff, ok, Option-cases,
}
use confidential_agent.Common.Text
use confidential_agent.Common.Text.{trim}
use confidential_agent.Common.BTree.{BTreeMap}
use confidential_agent.Gateway.{Bytes, Crates, GatewayTrustedService, decode_key32}
use confidential_agent.Gateway.Config.{
  GatewayIdentity, ClientRoute, ServerRoute, GatewayConfig, gateway_config_schema,
  validate_client_routes, validate_server_routes, check_key, validate_identity, validate_trusted,
  validate,
}

pub record IsClientRoute (route : ClientRoute) : Type 0 where
  pub apart : route.listen_port ≢ route.tng_port
  pub target : Text.is_empty (trim route.target_service) ≡ false

pub record IsServerRoute (route : ServerRoute) : Type 0 where
  pub apart : route.listen_port ≢ route.upstream_port
  pub protocol : (route.protocol ≡ "raw") ⊎ (route.protocol ≡ "mcp")

abbrev pub client_ports : List ClientRoute → List ℕ
client_ports = map (λ (r : ClientRoute). r.listen_port)

abbrev pub server_ports : List ServerRoute → List ℕ
server_ports = map (λ (r : ServerRoute). r.listen_port)

validate_client_routes_iff :
    (seen : List ℕ) (routes : List ClientRoute)
    → (validate_client_routes seen routes ≡ ok tt)
      ↔ (All IsClientRoute routes × (distinct_from seen (client_ports routes) ≡ true))
unfolding validate_client_routes distinct_from
validate_client_routes_iff seen [] = ground arith
validate_client_routes_iff seen (route ∷ routes) =
    ground (arith, validate_client_routes_iff (route.listen_port ∷ seen) routes)

validate_server_routes_iff :
    (seen : List ℕ) (routes : List ServerRoute)
    → (validate_server_routes seen routes ≡ ok tt)
      ↔ (All IsServerRoute routes × (distinct_from seen (server_ports routes) ≡ true))
unfolding validate_server_routes distinct_from
validate_server_routes_iff seen [] = ground arith
validate_server_routes_iff seen (route ∷ routes) = ground (
  arith,
  validate_server_routes_iff (route.listen_port ∷ seen) routes,
  string_eq.beq_iff route.protocol "raw",
  string_eq.beq_iff route.protocol "mcp",
)

empty_iff : (routes : List ClientRoute) → (is_empty routes ≡ true) ↔ (routes ≡ [])
empty_iff [] = (λ h. refl, λ h. refl)
empty_iff (route ∷ routes) = (λ h. cc, λ h. cc)

module _ (crates : Crates) where
  -- A key in base64 of 32 bytes.
  abbrev pub IsKey32 : String → Type 0
  IsKey32 value = (bytes : Bytes) × (crates.base64 value ≡ some bytes) × (length bytes ≡ 32)

  check_key_iff : (value : String) → (check_key crates value ≡ ok tt) ↔ IsKey32 value
  unfolding check_key decode_key32
  check_key_iff value = elim (Option-cases (crates.base64 value)) [
    | inl e ↦ (λ h. let failed = rw e at h in cc, λ (bytes, e', n). cc)
    | inr (bytes, e) ↦ (
      λ h. (bytes, e, let sized = rw e at h in ground arith),
      λ (other, e', n). let same : bytes ≡ other = cc in rw e (ground (arith, same, n)),
    )
  ]

  abbrev pub IsIdentity : Option GatewayIdentity → List ClientRoute → Type 0
  IsIdentity none routes = routes ≡ []
  IsIdentity (some identity) routes = IsKey32 identity.private_key × IsKey32 identity.public_key

  validate_identity_iff :
      (o : Option GatewayIdentity) (routes : List ClientRoute)
      → (validate_identity crates o routes ≡ ok tt) ↔ IsIdentity o routes
  unfolding validate_identity
  validate_identity_iff none routes = ground (arith, empty_iff routes)
  validate_identity_iff (some identity) routes =
      ground (arith, check_key_iff identity.private_key, check_key_iff identity.public_key)

  abbrev pub IsTrusted : String × GatewayTrustedService → Type 0
  IsTrusted (id, trusted) = (Text.is_empty (trim id) ≡ false) × IsKey32 trusted.public_key

  validate_trusted_iff :
      (services : BTreeMap GatewayTrustedService)
      → (validate_trusted crates services ≡ ok tt) ↔ All IsTrusted services
  unfolding validate_trusted
  validate_trusted_iff [] = (λ h. tt, λ h. refl)
  validate_trusted_iff ((id, trusted) ∷ services) =
      ground (arith, check_key_iff trusted.public_key, validate_trusted_iff services)

  pub record IsValid (config : GatewayConfig) : Type 0 where
    pub schema : config.schema ≡ gateway_config_schema
    pub service_id : Text.is_empty (trim config.service_id) ≡ false
    pub identity : IsIdentity config.identity config.client_routes
    pub clients : All IsClientRoute config.client_routes
    pub client_distinct : Distinct (client_ports config.client_routes)
    pub servers : All IsServerRoute config.server_routes
    pub server_distinct : Distinct (server_ports config.server_routes)
    pub trusted : All IsTrusted config.trusted_services

  -- A gateway's configuration is accepted exactly if it has the schema's version and a service id that
  -- is not blank, the keys of its identity and of the trusted services are base64 of 32 bytes, no
  -- trusted service's id is blank, an identity is there for client routes, the listening ports of each
  -- kind of route differ, a route's listening port is not its own hidden or upstream port, client
  -- routes name a target that is not blank, and server routes are raw or MCP.
  pub validate_gateway_iff :
      (config : GatewayConfig) → (validate crates config ≡ ok tt) ↔ IsValid config
  unfolding validate
  validate_gateway_iff config = ground (
    arith,
    string_eq.beq_iff config.schema gateway_config_schema,
    validate_identity_iff config.identity config.client_routes,
    validate_client_routes_iff [] config.client_routes,
    distinct_from-nil_iff (client_ports config.client_routes),
    validate_server_routes_iff [] config.server_routes,
    distinct_from-nil_iff (server_ports config.server_routes),
    validate_trusted_iff config.trusted_services,
  )
