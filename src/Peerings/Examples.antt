-- ===== src/Peerings/Examples.antt =====
-- Peerings of the repository's own tests: an operator by the defaults, and a peer of the mesh.
use confidential_agent.Common.{
  String, true, none, [], ◌∷◌, Any, ◌≡◌, ◌↔◌, refl, inl, inr, Bool, ok, arith, contains, is_id_char,
}
use confidential_agent.Common.Text.{
  trim, trim_start, keep, trim_end_matches, is_empty, all_chars, split, split_once, starts_with,
  decimal_from, parse_unsigned,
}
use confidential_agent.Common.BTree.{insert, keys, set_of}
use confidential_agent.Common.BTree.Laws.{IsAscending}
use confidential_agent.Net.{
  Ipv4Addr, parse_octet, parse_ipv4, validate_ipv4_cidr, prefix_mask, to_u32, ipv4_cidr_contains,
}
use confidential_agent.Net.Blocks.{IsAddr}
use confidential_agent.Peerings.{
  PeeringEntry, PeeringsFile, operator, peer, control, mesh, agent_card, effective_scope, has_scope,
  validate_label, validate_scopes, validate_entries, validate, scoped_cidrs, cidrs_for_scope,
  control_entries_contain, control_cidrs_contain,
}
use confidential_agent.Peerings.Validity.{IsValid, validate_peerings_iff}
use confidential_agent.Peerings.Access.{
  Admits, cidrs_for_scope_lem, has_scope-IsPrivileged_iff, control_cidrs_contain-IsValid,
}

abbrev office : PeeringEntry
office = record {
  label = "office-vpn";
  role = operator;
  cidr = "203.0.113.0/24";
  scope = [];
  note = none;
  added_at = none;
  added_by = none;
}

abbrev partner : PeeringEntry
partner = record {
  label = "partner";
  role = peer;
  cidr = "198.51.100.7/32";
  scope = mesh ∷ agent_card ∷ [];
  note = none;
  added_at = none;
  added_by = none;
}

abbrev two_entries : PeeringsFile
two_entries = record { version = 1; peerings = office ∷ partner ∷ [] }

abbrev visitor : Ipv4Addr
visitor = record { o1 = 203; o2 = 0; o3 = 113; o4 = 9 }

runs : Unit {0}
unfolding is_id_char trim trim_start keep trim_end_matches is_empty all_chars split split_once
    starts_with decimal_from parse_unsigned insert keys set_of parse_octet parse_ipv4
    validate_ipv4_cidr prefix_mask to_u32 ipv4_cidr_contains contains effective_scope has_scope
    validate_label validate_scopes validate_entries validate scoped_cidrs cidrs_for_scope
    control_entries_contain control_cidrs_contain
runs = tt

two_entries_accepted : validate two_entries ≡ ok tt
unfolding runs
two_entries_accepted = refl

blocks :
    (cidrs_for_scope two_entries agent_card ≡ "198.51.100.7/32" ∷ "203.0.113.0/24" ∷ [])
    × (control_cidrs_contain two_entries visitor ≡ ok true)
unfolding runs
blocks = (refl, refl)

visitor-IsAddr : IsAddr visitor
visitor-IsAddr = record { b1 = omega arith; b2 = omega arith; b3 = omega arith; b4 = omega arith }

validate_peerings_iff_example : (validate two_entries ≡ ok tt) ↔ IsValid two_entries
validate_peerings_iff_example = validate_peerings_iff two_entries

cidrs_for_scope_lem_example :
    IsAscending (cidrs_for_scope two_entries agent_card)
    × ((cidr : String)
        → Any (λ c. c ≡ cidr) (cidrs_for_scope two_entries agent_card)
          ↔ Any
              (λ (e : PeeringEntry). (has_scope e agent_card ≡ true) × (e.cidr ≡ cidr))
              (office ∷ partner ∷ []))
cidrs_for_scope_lem_example = cidrs_for_scope_lem two_entries agent_card

has_scope-IsPrivileged_iff_example :
    (has_scope partner control ≡ true) ↔ Any (λ t. t ≡ control) (mesh ∷ agent_card ∷ [])
has_scope-IsPrivileged_iff_example = has_scope-IsPrivileged_iff partner control (inr (inl refl))

control_cidrs_contain-IsValid_example :
    (b : Bool) × (control_cidrs_contain two_entries visitor ≡ ok b)
    × ((b ≡ true) ↔ Any (Admits visitor) (office ∷ partner ∷ []))
control_cidrs_contain-IsValid_example =
    control_cidrs_contain-IsValid two_entries visitor visitor-IsAddr two_entries_accepted
