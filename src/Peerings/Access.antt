-- ===== src/Peerings/Access.antt =====
-- What the peerings grant: the blocks of a scope, and who may reach the control plane.
use confidential_agent.Common.{
  ℕ, ◌-◌, ◌/◌, ◌^◌, String, Bool, true, false, ◌&&◌, ◌⊎◌, List, [], ◌∷◌, All, Any, ◌==◌, nat_eq,
  nat_eqb_iff, ◌↔◌, ◌≡◌, refl, arith, contains, contains_iff, ok, if◌then◌else◌,
}
use confidential_agent.Common.BTree.Laws.{IsAscending, set_of-IsSorted, mem-set_of_iff}
use confidential_agent.Net.{Ipv4Addr, to_u32, ipv4_cidr_contains}
use confidential_agent.Net.Blocks.{IsAddr, IsBlock, ipv4_cidr_contains-IsBlock}
use confidential_agent.Peerings.{
  PeeringRole, PeeringScope, operator, peer, control, status, mesh, ssh, role_eq, role_eqb_iff,
  scope_eq, PeeringEntry, PeeringsFile, effective_scope, has_scope, scoped_cidrs, cidrs_for_scope,
  control_entries_contain, control_cidrs_contain, validate,
}
use confidential_agent.Peerings.Validity.{IsEntry, validate_peerings_iff}

mem-scoped_cidrs_iff :
    (scope : PeeringScope) (cidr : String) (es : List PeeringEntry)
    → Any (λ c. c ≡ cidr) (scoped_cidrs scope es)
      ↔ Any (λ (e : PeeringEntry). (has_scope e scope ≡ true) × (e.cidr ≡ cidr)) es
unfolding scoped_cidrs
mem-scoped_cidrs_iff scope cidr [] = (λ h. h, λ h. h)
mem-scoped_cidrs_iff scope cidr (e ∷ es) = ground (arith, mem-scoped_cidrs_iff scope cidr es)

-- The blocks of a scope are those of the entries that have the scope, each once, in ascending order.
pub cidrs_for_scope_lem :
    (file : PeeringsFile) (scope : PeeringScope)
    → IsAscending (cidrs_for_scope file scope)
      × ((cidr : String)
          → Any (λ c. c ≡ cidr) (cidrs_for_scope file scope)
            ↔ Any
                (λ (e : PeeringEntry). (has_scope e scope ≡ true) × (e.cidr ≡ cidr))
                file.peerings)
unfolding cidrs_for_scope
cidrs_for_scope_lem file scope = (
  set_of-IsSorted (scoped_cidrs scope file.peerings),
  λ cidr.
      let (to, from) = mem-set_of_iff cidr (scoped_cidrs scope file.peerings) in
      let (there, back) = mem-scoped_cidrs_iff scope cidr file.peerings in
      (λ h. there (to h), λ h. from (back h)),
)

-- A scope that only an explicit list grants: `mesh` to anyone, and to a peer also `control`,
-- `status` and `ssh`.
abbrev pub IsPrivileged : PeeringRole → PeeringScope → Type 0
IsPrivileged operator scope = scope ≡ mesh
IsPrivileged peer scope = (scope ≡ mesh) ⊎ (scope ≡ control) ⊎ (scope ≡ status) ⊎ (scope ≡ ssh)

privileged_default :
    (e : PeeringEntry)
    → (s : PeeringScope) → IsPrivileged e.role s
    → has_scope e s ≡ contains e.scope s
unfolding has_scope effective_scope contains
privileged_default e s h = ground arith

-- An entry has the scope mesh, and a peer the scopes control, status and ssh, exactly if it lists
-- it: no default grants it.
pub has_scope-IsPrivileged_iff :
    (e : PeeringEntry) (s : PeeringScope)
    → IsPrivileged e.role s
    → (has_scope e s ≡ true) ↔ Any (λ t. t ≡ s) e.scope
has_scope-IsPrivileged_iff e s h = ground (arith, privileged_default e s h, contains_iff e.scope s)

-- The block that the text denotes shares its prefix with the address.
abbrev pub Covers : String → Ipv4Addr → Type 0
Covers cidr ip =
    (network : Ipv4Addr) × (prefix : ℕ) × IsBlock cidr network prefix
    × (to_u32 network / 2 ^ (32 - prefix) ≡ to_u32 ip / 2 ^ (32 - prefix))

ipv4_cidr_contains-Covers :
    (cidr : String) (ip : Ipv4Addr)
    → IsAddr ip
    → ((network : Ipv4Addr) × (prefix : ℕ) × IsBlock cidr network prefix)
    → (b : Bool) × (ipv4_cidr_contains cidr ip ≡ ok b) × ((b ≡ true) ↔ Covers cidr ip)
ipv4_cidr_contains-Covers cidr ip known (network, prefix, block) =
    let ran = ipv4_cidr_contains-IsBlock cidr network ip prefix block known in
    (
      to_u32 network / 2 ^ (32 - prefix) == to_u32 ip / 2 ^ (32 - prefix),
      ran,
      (
        λ h. (network, prefix, block, (nat_eqb_iff _ _).0 h),
        λ (network', prefix', block', e).
            let ran' = ipv4_cidr_contains-IsBlock cidr network' ip prefix' block' known in
            ground (
              arith,
              (nat_eqb_iff (to_u32 network' / 2 ^ (32 - prefix'))
                    (to_u32 ip / 2 ^ (32 - prefix'))).1
                  e,
            ),
      ),
    )

-- The entry is an operator's, has the control scope, and its block holds the address.
abbrev pub Admits : Ipv4Addr → PeeringEntry → Type 0
Admits ip e = (e.role ≡ operator) × (has_scope e control ≡ true) × Covers e.cidr ip

control_entries_contain_lem :
    (ip : Ipv4Addr) (es : List PeeringEntry)
    → IsAddr ip
    → All IsEntry es
    → (b : Bool) × (control_entries_contain ip es ≡ ok b) × ((b ≡ true) ↔ Any (Admits ip) es)
unfolding control_entries_contain
control_entries_contain_lem ip [] known h = (false, refl, (λ p. cc, λ p. absurd p))
control_entries_contain_lem ip (e ∷ es) known (entry, h) =
    let (inside, ran, meant) = ipv4_cidr_contains-Covers e.cidr ip known entry.block in
    let (later, ran', meant') = control_entries_contain_lem ip es known h in
    (
      if e.role == operator && has_scope e control then (if inside then true else later) else later,
      ground arith,
      ground (arith, role_eqb_iff e.role operator),
    )

-- For an address of four bytes, the control test on a file that is accepted gives an answer, and
-- it is yes exactly if some operator's entry with the control scope has a block that holds the
-- address.
pub control_cidrs_contain-IsValid :
    (file : PeeringsFile) (ip : Ipv4Addr)
    → IsAddr ip
    → validate file ≡ ok tt
    → (b : Bool) × (control_cidrs_contain file ip ≡ ok b)
      × ((b ≡ true) ↔ Any (Admits ip) file.peerings)
unfolding control_cidrs_contain
control_cidrs_contain-IsValid file ip known accepted =
    control_entries_contain_lem ip file.peerings known
      ((validate_peerings_iff file).0 accepted).entries
