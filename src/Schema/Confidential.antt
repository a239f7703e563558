-- ===== src/Schema/Confidential.antt =====
-- The ports that a service keeps to the mesh.
use confidential_agent.Common.{
  ℕ, ◌<◌, ◌≤◌, List, [], ◌∷◌, All, Any, ◌≡◌, ◌⊎◌, ◌↔◌, arith, nat_eq, contains_iff,
}
use confidential_agent.Spec.Types.{ConnectPort}
use confidential_agent.Spec.Ports.{connect_ports}
use confidential_agent.Schema.{without, insert_port, sort, dedup_after, dedup, confidential_ports}

abbrev Member : List ℕ → ℕ → Type 0
Member ports p = Any (λ q. q ≡ p) ports

mem-without_iff :
    (p : ℕ) (connect ports : List ℕ)
    → Member (without connect ports) p ↔ (Member ports p × ¬ Member connect p)
unfolding without
mem-without_iff p connect [] = (λ h. absurd h, λ (h, _). h)
mem-without_iff p connect (q ∷ ports) =
    ground (arith, contains_iff connect q, mem-without_iff p connect ports)

mem-insert_port_iff :
    (p q : ℕ) (ports : List ℕ) → Member (insert_port q ports) p ↔ ((q ≡ p) ⊎ Member ports p)
unfolding insert_port
mem-insert_port_iff p q [] = (λ h. h, λ h. h)
mem-insert_port_iff p q (r ∷ ports) = ground (arith, mem-insert_port_iff p q ports)

mem-sort_iff : (p : ℕ) (ports : List ℕ) → Member (sort ports) p ↔ Member ports p
unfolding sort
mem-sort_iff p [] = (λ h. h, λ h. h)
mem-sort_iff p (q ∷ ports) =
    ground (arith, mem-sort_iff p ports, mem-insert_port_iff p q (sort ports))

-- In order, with repetitions.
abbrev IsSorted : List ℕ → Type 0
IsSorted [] = Unit
IsSorted (p ∷ ports) = All (λ q. p ≤ q) ports × IsSorted ports

All-insert_port :
    (r p : ℕ) (ports : List ℕ)
    → r ≤ p
    → All (λ q. r ≤ q) ports
    → All (λ q. r ≤ q) (insert_port p ports)
unfolding insert_port
All-insert_port r p [] h k = (h, tt)
All-insert_port r p (q ∷ ports) h (k, g) = ground (arith, All-insert_port r p ports h g)

All-le : (p q : ℕ) (ports : List ℕ) → p ≤ q → All (λ r. q ≤ r) ports → All (λ r. p ≤ r) ports
All-le p q [] h k = tt
All-le p q (r ∷ ports) h (k, g) = (omega arith, All-le p q ports h g)

insert_port-IsSorted : (p : ℕ) (ports : List ℕ) → IsSorted ports → IsSorted (insert_port p ports)
unfolding insert_port
insert_port-IsSorted p [] h = (tt, tt)
insert_port-IsSorted p (q ∷ ports) (b, h) =
    ground (arith, insert_port-IsSorted p ports h, All-le p q ports, All-insert_port q p ports)

sort-IsSorted : (ports : List ℕ) → IsSorted (sort ports)
unfolding sort
sort-IsSorted [] = tt
sort-IsSorted (p ∷ ports) = insert_port-IsSorted p (sort ports) (sort-IsSorted ports)

-- Each port is less than those after it.
abbrev pub IsIncreasing : List ℕ → Type 0
IsIncreasing [] = Unit
IsIncreasing (p ∷ ports) = All (λ q. p < q) ports × IsIncreasing ports

mem-dedup_after_iff :
    (q p : ℕ) (ports : List ℕ)
    → ((p ≡ q) ⊎ Member (dedup_after p ports) q) ↔ ((p ≡ q) ⊎ Member ports q)
unfolding dedup_after
mem-dedup_after_iff q p [] = (λ h. h, λ h. h)
mem-dedup_after_iff q p (r ∷ ports) =
    ground (arith, mem-dedup_after_iff q p ports, mem-dedup_after_iff q r ports)

All-lt : (p q : ℕ) (ports : List ℕ) → p < q → All (λ r. q < r) ports → All (λ r. p < r) ports
All-lt p q [] h k = tt
All-lt p q (r ∷ ports) h (k, g) = (omega arith, All-lt p q ports h g)

dedup_after-IsIncreasing :
    (p : ℕ) (ports : List ℕ)
    → All (λ q. p ≤ q) ports
    → IsSorted ports
    → All (λ q. p < q) (dedup_after p ports) × IsIncreasing (dedup_after p ports)
unfolding dedup_after
dedup_after-IsIncreasing p [] h k = (tt, tt)
dedup_after-IsIncreasing p (q ∷ ports) (h, g) (b, k) = ground (
  arith,
  dedup_after-IsIncreasing p ports,
  dedup_after-IsIncreasing q ports b k,
  All-lt p q (dedup_after q ports),
)

dedup-IsIncreasing : (ports : List ℕ) → IsSorted ports → IsIncreasing (dedup ports)
unfolding dedup
dedup-IsIncreasing [] h = tt
dedup-IsIncreasing (p ∷ ports) (b, h) = dedup_after-IsIncreasing p ports b h

mem-dedup_iff : (q : ℕ) (ports : List ℕ) → Member (dedup ports) q ↔ Member ports q
unfolding dedup
mem-dedup_iff q [] = (λ h. h, λ h. h)
mem-dedup_iff q (p ∷ ports) = mem-dedup_after_iff q p ports

-- The confidential ports are the ports that are no connect ports, each once, in increasing order.
pub confidential_ports_lem :
    (ports : List ℕ) (connect : List ConnectPort)
    → IsIncreasing (confidential_ports ports connect)
      × ((p : ℕ)
          → Member (confidential_ports ports connect) p
            ↔ (Member ports p × ¬ Member (connect_ports connect) p))
unfolding confidential_ports
confidential_ports_lem ports connect =
    let kept = without (connect_ports connect) ports in
    (
      dedup-IsIncreasing (sort kept) (sort-IsSorted kept),
      λ p. ground (
        arith,
        mem-dedup_iff p (sort kept),
        mem-sort_iff p kept,
        mem-without_iff p (connect_ports connect) ports,
      ),
    )
