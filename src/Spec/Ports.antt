-- ===== src/Spec/Ports.antt =====
-- core/src/spec.rs: a service's ports, which of them are connect ports, and which serve MCP.
pub mod Validity
use confidential_agent.Common.{
  ℕ, Bool, List, [], ◌∷◌, map, ◌==◌, nat_eq, not, contains, Field, Problem, Result, ok, ◌>>=◌, ◌>>◌,
  bail_if, nat_eqb, Eq, ◌↔◌, ◌≡◌, true, arith,
}
use confidential_agent.Spec.Types.{EncryptionMode, rats_tls, ohttp, ConnectPort, plain, config}

-- `ConnectPort::port`
abbrev pub port : ConnectPort → ℕ
port (plain p) = p
port (config p e) = p

-- `ConnectPort::encryption`
abbrev pub encryption : ConnectPort → EncryptionMode
encryption (plain p) = rats_tls
encryption (config p e) = e

-- `BTreeSet::from_iter(connect.iter().map(port))`, which is asked for its members.
abbrev pub connect_ports : List ConnectPort → List ℕ
connect_ports = map port

unfoldable pub validate_ports_from : Field → List ℕ → List ℕ → Result (Unit {0})
validate_ports_from field seen [] = ok tt
validate_ports_from field seen (p ∷ ports) = do
  bail_if (p == 0) field Problem.zero_value
  bail_if (contains seen p) field Problem.duplicate
  validate_ports_from field (p ∷ seen) ports

unfoldable pub validate_ports : Field → List ℕ → Result (Unit {0})
validate_ports field ports = validate_ports_from field [] ports

abbrev pub connect_field : Field
connect_field = Field.name "service.connect"

unfoldable pub validate_connect_from : List ℕ → List ℕ → List ConnectPort → Result (Unit {0})
validate_connect_from allowed seen [] = ok tt
validate_connect_from allowed seen (cp ∷ connect) = do
  bail_if (port cp == 0) connect_field Problem.zero_value
  bail_if (not (contains allowed (port cp))) connect_field Problem.unlisted
  bail_if (contains seen (port cp)) connect_field Problem.duplicate
  validate_connect_from allowed (port cp ∷ seen) connect

unfoldable pub validate_connect_ports : List ℕ → List ConnectPort → Result (Unit {0})
validate_connect_ports ports connect = validate_connect_from ports [] connect

abbrev pub mcp_field : Field
mcp_field = Field.name "service.mcp_ports"

unfoldable pub validate_mcp_from : List ℕ → List ℕ → List ℕ → List ℕ → Result (Unit {0})
validate_mcp_from allowed connect seen [] = ok tt
validate_mcp_from allowed connect seen (p ∷ mcp_ports) = do
  bail_if (p == 0) mcp_field Problem.zero_value
  bail_if (not (contains allowed p)) mcp_field Problem.unlisted
  bail_if (contains connect p) mcp_field Problem.conflict
  bail_if (contains seen p) mcp_field Problem.duplicate
  validate_mcp_from allowed connect (p ∷ seen) mcp_ports

unfoldable pub validate_mcp_ports : List ℕ → List ConnectPort → List ℕ → Result (Unit {0})
validate_mcp_ports ports connect mcp_ports =
    validate_mcp_from ports (connect_ports connect) [] mcp_ports
