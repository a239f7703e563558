-- ===== src/Peerings.antt =====
-- core/src/peerings.rs: the operators and peers that may reach a service, by CIDR block and scope.
-- The file of peerings is read and written by serde; the checks that follow the reading are here.
pub mod Validity
pub mod Access
mod Examples
use confidential_agent.Common.{
  ℕ, suc, String, Bool, true, false, not, ◌&&◌, Option, none, List, [], ◌∷◌, map, any, is_empty,
  ◌==◌, nat_eq, string_eq, Eq, ◌↔◌, ◌≡◌, arith, if◌then◌else◌, contains, is_id_char, Field, Problem,
  Error, Result, ok, ◌>>=◌, ◌>>◌, bail_if, ensure, nat_eqb,
}
use confidential_agent.Common.Text
use confidential_agent.Common.Text.{trim}
use confidential_agent.Common.BTree.{BTreeSet, set_of, keys}
use confidential_agent.Net.{Ipv4Addr, validate_ipv4_cidr, ipv4_cidr_contains}

pub data PeeringRole : Type 0 where
  operator peer : PeeringRole

pub data PeeringScope : Type 0 where
  control status ssh agent_card connect mesh : PeeringScope

pub record PeeringEntry : Type 0 where
  pub label : String
  pub role : PeeringRole
  pub cidr : String
  pub scope : List PeeringScope
  pub note : Option String
  pub added_at : Option String
  pub added_by : Option String

pub record PeeringsFile : Type 0 where
  pub version : ℕ
  pub peerings : List PeeringEntry

-- The derived equality of the two enumerations.
abbrev role_rank : PeeringRole → ℕ
role_rank operator = 0
role_rank peer = 1

abbrev scope_rank : PeeringScope → ℕ
scope_rank control = 0
scope_rank status = 1
scope_rank ssh = 2
scope_rank agent_card = 3
scope_rank connect = 4
scope_rank mesh = 5

abbrev pub role_eqb : PeeringRole → PeeringRole → Bool
role_eqb a b = nat_eqb (role_rank a) (role_rank b)

abbrev pub scope_eqb : PeeringScope → PeeringScope → Bool
scope_eqb a b = nat_eqb (scope_rank a) (scope_rank b)

pub role_eqb_iff : (a b : PeeringRole) → (role_eqb a b ≡ true) ↔ (a ≡ b)
role_eqb_iff a b = ground arith

pub scope_eqb_iff : (a b : PeeringScope) → (scope_eqb a b ≡ true) ↔ (a ≡ b)
scope_eqb_iff a b = ground arith

instance abbrev pub role_eq : Eq PeeringRole
role_eq = record { beq = role_eqb; beq_iff = role_eqb_iff }

instance abbrev pub scope_eq : Eq PeeringScope
scope_eq = record { beq = scope_eqb; beq_iff = scope_eqb_iff }

abbrev pub default_scope : PeeringRole → List PeeringScope
default_scope operator = control ∷ status ∷ ssh ∷ agent_card ∷ connect ∷ []
default_scope peer = agent_card ∷ connect ∷ []

-- The set is asked for its members only.
unfoldable pub effective_scope : PeeringEntry → List PeeringScope
effective_scope e = if not (is_empty e.scope) then e.scope else default_scope e.role

unfoldable pub has_scope : PeeringEntry → PeeringScope → Bool
has_scope e s = contains (effective_scope e) s

unfoldable pub validate_label : Field → String → Result (Unit {0})
validate_label field value = do
  let value = trim value
  bail_if (Text.is_empty value) field Problem.empty
  ensure (Text.all_chars is_id_char value) field Problem.charset

abbrev pub entry_field : ℕ → String → Field
entry_field idx part = Field.item "peerings" idx part

-- The inner loop of `validate`.
unfoldable pub validate_scopes : ℕ → List PeeringScope → List PeeringScope → Result (Unit {0})
validate_scopes idx scopes [] = ok tt
validate_scopes idx scopes (scope ∷ rest) = do
  bail_if (contains scopes scope) (entry_field idx "scope") Problem.duplicate
  validate_scopes idx (scope ∷ scopes) rest

-- The outer loop of `validate`; `labels` holds the labels of the entries before.
unfoldable pub validate_entries : ℕ → List String → List PeeringEntry → Result (Unit {0})
validate_entries idx labels [] = ok tt
validate_entries idx labels (entry ∷ rest) = do
  validate_label (entry_field idx "label") entry.label
  bail_if (contains labels entry.label) (Field.name "label") Problem.duplicate
  validate_ipv4_cidr (entry_field idx "cidr") entry.cidr
  if is_empty entry.scope then ok tt else validate_scopes idx [] entry.scope
  validate_entries (suc idx) (entry.label ∷ labels) rest

unfoldable pub validate : PeeringsFile → Result (Unit {0})
validate file = do
  ensure (file.version == 1) (Field.name "version") Problem.version
  validate_entries 0 [] file.peerings

-- `PeeringsFile::empty`
abbrev pub empty : PeeringsFile
empty = record { version = 1; peerings = [] }

unfoldable pub scoped_cidrs : PeeringScope → List PeeringEntry → List String
scoped_cidrs scope [] = []
scoped_cidrs scope (entry ∷ rest) =
    if has_scope entry scope then entry.cidr ∷ scoped_cidrs scope rest else scoped_cidrs scope rest

unfoldable pub cidrs_for_scope : PeeringsFile → PeeringScope → List String
cidrs_for_scope file scope = keys (set_of (scoped_cidrs scope file.peerings))

abbrev pub controls_status : PeeringEntry → Bool
controls_status entry = entry.role == operator && has_scope entry control && has_scope entry status

unfoldable pub has_operator_control_status : PeeringsFile → Bool
has_operator_control_status file = any controls_status file.peerings

-- The loop of `control_cidrs_contain`: an entry that does not grant control is not read.
unfoldable pub control_entries_contain : Ipv4Addr → List PeeringEntry → Result Bool
control_entries_contain ip [] = ok false
control_entries_contain ip (entry ∷ rest) =
    let next = control_entries_contain ip rest in
    if entry.role == operator && has_scope entry control
    then (ipv4_cidr_contains entry.cidr ip >>= λ inside. if inside then ok true else next)
    else next

unfoldable pub control_cidrs_contain : PeeringsFile → Ipv4Addr → Result Bool
control_cidrs_contain file ip = control_entries_contain ip file.peerings
