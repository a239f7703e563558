-- ===== src/Net/Blocks.antt =====
-- What an IPv4 CIDR block is, and that the two functions on blocks agree with it.
use Prim.Native.Nat.{bit_and}
use mathlib.Core.Option
use confidential_agent.Common.{
  ℕ, zero, suc, ◌+◌, ◌-◌, ◌/◌, ◌^◌, ◌≤◌, ◌<◌, ◌≡◌, refl, ap, ◌↔◌, String, Bool, true, false, ◌&&◌,
  Option, none, some, List, [], ◌∷◌, arith, if◌then◌else◌, ltb, leb, ◌||◌, inl, inr, Bool-cases,
  ◌==◌, nat_eq, Field, Problem, ok, context, WhenSome, context-bind, bail_if-eq-ok_iff,
}
use confidential_agent.Common.Text.{
  byte_len, is_empty, starts_with, split, split_once, trim, parse_unsigned, at_most, decimal_from,
}
use confidential_agent.Net.{
  Ipv4Addr, u32_mod, to_u32, parse_octet, octets, parse_ipv4, validate_ipv4_cidr, prefix_mask,
  ipv4_cidr_contains,
}
use confidential_agent.Net.Bits.{high_mask, eq_high_bits_iff}

-- Each octet is a byte.
pub record IsAddr (ip : Ipv4Addr) : Type 0 where
  pub b1 : ip.o1 ≤ 255
  pub b2 : ip.o2 ≤ 255
  pub b3 : ip.o3 ≤ 255
  pub b4 : ip.o4 ≤ 255

pub to_u32-lt : (ip : Ipv4Addr) → IsAddr ip → to_u32 ip < u32_mod
unfolding to_u32
to_u32-lt ip h = omega arith

at_most-le : (max : ℕ) (o : Option ℕ) → WhenSome (λ n. n ≤ max) (Option.bind o (at_most max))
unfolding Option.bind
at_most-le max none = tt
at_most-le max (some n) = elim (Bool-cases (leb n max)) [
  | inl h ↦ rw (h, at_most) (ground arith)
  | inr h ↦ rw (h, at_most) tt
]

parse_octet-le : (s : String) → WhenSome (λ n. n ≤ 255) (parse_octet s)
unfolding parse_octet
parse_octet-le s =
    elim (Bool-cases
      (is_empty s || ltb 3 (byte_len s) || (starts_with b'0' s && ltb 1 (byte_len s)))) [
        | inl h ↦ rw h tt
        | inr h ↦ rw h (at_most-le 255 (decimal_from 0 s))
      ]

-- Reading four octets is reading each.
octets-IsAddr : (parts : List String) (ip : Ipv4Addr) → octets parts ≡ some ip → IsAddr ip
unfolding Option.bind
octets-IsAddr (a ∷ b ∷ c ∷ d ∷ []) ip h =
    ground (arith, parse_octet-le a, parse_octet-le b, parse_octet-le c, parse_octet-le d)
octets-IsAddr _ ip h = cc

pub parse_ipv4-IsAddr : (s : String) (ip : Ipv4Addr) → parse_ipv4 s ≡ some ip → IsAddr ip
unfolding parse_ipv4
parse_ipv4-IsAddr s ip h = octets-IsAddr (split b'.' s) ip h

-- `value` denotes the block of addresses that share their first `prefix` bits with `network`.
pub record IsBlock (value : String) (network : Ipv4Addr) (prefix : ℕ) : Type 0 where
  pub addr : String
  pub digits : String
  pub parted : split_once b'/' (trim value) ≡ some (addr, digits)
  pub parsed : parse_ipv4 addr ≡ some network
  pub counted : parse_unsigned 255 digits ≡ some prefix
  pub within : prefix ≤ 32

-- A test that holds of each number below a bound.
passes : ℕ → (ℕ → Bool) → Bool
passes zero test = true
passes (suc bound) test = if test bound then passes bound test else false

passes_below :
    (bound k : ℕ) (test : ℕ → Bool) → k < bound → passes bound test ≡ true → test k ≡ true
unfolding passes
passes_below zero k test below all = absurd (omega arith)
passes_below (suc bound) k test below all = ground (arith, passes_below bound k test)

mask_table : passes 33 (λ p. prefix_mask p == high_mask (32 - p) p) ≡ true
unfolding passes prefix_mask high_mask
mask_table = refl

-- The shifted mask of the code is the mask of the first `prefix` bits.
pub prefix_mask-eq : (p : ℕ) → p ≤ 32 → prefix_mask p ≡ high_mask (32 - p) p
prefix_mask-eq p h = (nat_eq.beq_iff _ _).0 (passes_below 33 p _ (omega arith) mask_table)

masked_eq :
    (p x y : ℕ)
    → p ≤ 32
    → x < 2 ^ 32
    → y < 2 ^ 32
    → (bit_and x (prefix_mask p) == bit_and y (prefix_mask p))
      ≡ (x / 2 ^ (32 - p) == y / 2 ^ (32 - p))
masked_eq p x y h hx hy =
    let bits : 32 ≡ 32 - p + p = omega arith in
    let width : 2 ^ 32 ≡ 2 ^ (32 - p + p) = ap (λ n. 2 ^ n) bits in
    let (to, from) = eq_high_bits_iff (32 - p) p x y (rw width at hx) (rw width at hy) in
    rw (prefix_mask-eq p h) (ground (arith, to, from))

-- On a text that denotes a block, and an address of four bytes, the test answers whether the
-- network and the address agree on the first bits, as many as the prefix says.
pub ipv4_cidr_contains-IsBlock :
    (cidr : String) (network ip : Ipv4Addr) (prefix : ℕ)
    → IsBlock cidr network prefix
    → IsAddr ip
    → ipv4_cidr_contains cidr ip
      ≡ ok (to_u32 network / 2 ^ (32 - prefix) == to_u32 ip / 2 ^ (32 - prefix))
unfolding ipv4_cidr_contains
ipv4_cidr_contains-IsBlock cidr network ip prefix b h =
    rw (b.parted, context)
      (rw (b.parsed, context)
        (rw (b.counted, context)
          (rw inside
            (ap ok (masked_eq prefix _ _ b.within (to_u32-lt network known) (to_u32-lt ip h))))))
  where
    known : IsAddr network
    known = parse_ipv4-IsAddr b.addr network b.parsed

    inside : ltb 32 prefix ≡ false
    inside = let w = b.within in ground arith

-- A value is accepted exactly if it denotes a block: an IPv4 address, a slash and a prefix of at
-- most 32.
pub validate_ipv4_cidr_iff :
    (field : Field) (value : String)
    → (validate_ipv4_cidr field value ≡ ok tt)
      ↔ ((network : Ipv4Addr) × (prefix : ℕ) × IsBlock value network prefix)
unfolding validate_ipv4_cidr
validate_ipv4_cidr_iff field value = (
  λ h.
      let ((addr, digits), parted, h₁) = context-bind (split_once b'/' (trim value)) _ _ _ h in
      let (network, parsed, h₂) = context-bind (parse_ipv4 addr) _ _ _ h₁ in
      let (prefix, counted, h₃) = context-bind (parse_unsigned 255 digits) _ _ _ h₂ in
      (
        network,
        prefix,
        record {
          addr = addr;
          digits = digits;
          parted = parted;
          parsed = parsed;
          counted = counted;
          within = ground (arith, bail_if-eq-ok_iff (ltb 32 prefix) field Problem.too_large);
        },
      ),
  λ (network, prefix, b).
      let inside : ltb 32 prefix ≡ false = let w = b.within in ground arith in
      rw (b.parted, context) (rw (b.parsed, context) (rw (b.counted, context) (rw inside))),
)
