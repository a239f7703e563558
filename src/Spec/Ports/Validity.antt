-- ===== src/Spec/Ports/Validity.antt =====
-- What the port checks accept.
use confidential_agent.Common.{
  ℕ, ◌<◌, true, List, [], ◌∷◌, All, Any, Distinct, nat_eq, ◌↔◌, ◌≡◌, arith, contains_iff,
  distinct_from, distinct_from-nil_iff, Field, ok,
}
use confidential_agent.Spec.Types.{ConnectPort}
use confidential_agent.Spec.Ports.{
  port, connect_ports, validate_ports_from, validate_ports, validate_connect_from,
  validate_connect_ports, validate_mcp_from, validate_mcp_ports,
}

abbrev pub IsPositive : ℕ → Type 0
IsPositive p = 0 < p

abbrev pub Member : List ℕ → ℕ → Type 0
Member ports p = Any (λ q. q ≡ p) ports

ports_from_iff :
    (field : Field) (seen ports : List ℕ)
    → (validate_ports_from field seen ports ≡ ok tt)
      ↔ (All IsPositive ports × (distinct_from seen ports ≡ true))
unfolding validate_ports_from distinct_from
ports_from_iff field seen [] = ground arith
ports_from_iff field seen (p ∷ ports) = ground (arith, ports_from_iff field (p ∷ seen) ports)

-- The ports are positive and differ.
pub record ArePorts (ports : List ℕ) : Type 0 where
  pub positive : All IsPositive ports
  pub distinct : Distinct ports

-- Ports are accepted exactly if they are positive and differ.
pub validate_ports_iff :
    (field : Field) (ports : List ℕ) → (validate_ports field ports ≡ ok tt) ↔ ArePorts ports
unfolding validate_ports
validate_ports_iff field ports =
    ground (arith, ports_from_iff field [] ports, distinct_from-nil_iff ports)

connect_from_iff :
    (allowed seen : List ℕ) (connect : List ConnectPort)
    → (validate_connect_from allowed seen connect ≡ ok tt) ↔ (
        All IsPositive (connect_ports connect)
        × All (Member allowed) (connect_ports connect)
        × (distinct_from seen (connect_ports connect) ≡ true))
unfolding validate_connect_from distinct_from
connect_from_iff allowed seen [] = ground arith
connect_from_iff allowed seen (cp ∷ connect) =
    ground
      (arith, contains_iff allowed (port cp), connect_from_iff allowed (port cp ∷ seen) connect)

-- The connect ports are positive, differ, and are ports of the service.
pub record AreConnectPorts (ports : List ℕ) (connect : List ConnectPort) : Type 0 where
  pub positive : All IsPositive (connect_ports connect)
  pub distinct : Distinct (connect_ports connect)
  pub listed : All (Member ports) (connect_ports connect)

-- Connect ports are accepted exactly if they are positive, differ, and are ports of the service.
pub validate_connect_ports_iff :
    (ports : List ℕ) (connect : List ConnectPort)
    → (validate_connect_ports ports connect ≡ ok tt) ↔ AreConnectPorts ports connect
unfolding validate_connect_ports
validate_connect_ports_iff ports connect =
    ground (arith, connect_from_iff ports [] connect, distinct_from-nil_iff (connect_ports connect))

mcp_from_iff :
    (allowed connect seen mcp_ports : List ℕ)
    → (validate_mcp_from allowed connect seen mcp_ports ≡ ok tt) ↔ (
        All IsPositive mcp_ports
        × All (Member allowed) mcp_ports
        × All (λ p. Member connect p → ⊥) mcp_ports
        × (distinct_from seen mcp_ports ≡ true))
unfolding validate_mcp_from distinct_from
mcp_from_iff allowed connect seen [] = ground arith
mcp_from_iff allowed connect seen (p ∷ mcp_ports) = ground (
  arith,
  contains_iff allowed p,
  contains_iff connect p,
  mcp_from_iff allowed connect (p ∷ seen) mcp_ports,
)

-- The MCP ports are positive, differ, are ports of the service, and none is a connect port.
pub record AreMcpPorts (ports : List ℕ) (connect : List ConnectPort) (mcp_ports : List ℕ)
    : Type 0 where
  pub positive : All IsPositive mcp_ports
  pub distinct : Distinct mcp_ports
  pub listed : All (Member ports) mcp_ports
  pub disjoint : All (λ p. ¬ Member (connect_ports connect) p) mcp_ports

-- MCP ports are accepted exactly if they are positive, differ, and are ports of the service that are no
-- connect ports.
pub validate_mcp_ports_iff :
    (ports : List ℕ) (connect : List ConnectPort) (mcp_ports : List ℕ)
    → (validate_mcp_ports ports connect mcp_ports ≡ ok tt) ↔ AreMcpPorts ports connect mcp_ports
unfolding validate_mcp_ports
validate_mcp_ports_iff ports connect mcp_ports = ground (
  arith,
  mcp_from_iff ports (connect_ports connect) [] mcp_ports,
  distinct_from-nil_iff mcp_ports,
)
