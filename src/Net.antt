-- ===== src/Net.antt =====
-- core/src/peerings.rs, the part on addresses: `Ipv4Addr` with its `parse` and `u32::from`, and
-- the two functions on IPv4 CIDR blocks. An address is its four octets.
pub mod Bits
pub mod Blocks
mod Examples
use Prim.Native.Nat.{bit_and}
use mathlib.Core.Option
use confidential_agent.Common.{
  ℕ, ◌+◌, ◌-◌, ◌*◌, ◌%◌, ◌^◌, String, Bool, true, false, ◌&&◌, ◌||◌, Option, none, some, List, [],
  ◌∷◌, ltb, leb, ◌==◌, nat_eq, if◌then◌else◌, Field, Problem, Error, bad, Result, ok, err, ◌>>=◌,
  ◌>>◌, bail_if, context,
}
use confidential_agent.Common.Text
use confidential_agent.Common.Text.{
  is_empty, split, split_once, trim, starts_with, decimal_from, at_most, parse_unsigned,
}

pub record Ipv4Addr : Type 0 where
  pub o1 : ℕ
  pub o2 : ℕ
  pub o3 : ℕ
  pub o4 : ℕ

abbrev pub u32_mod : ℕ
u32_mod = 2 ^ 32

-- `u32::from(ip)`
unfoldable pub to_u32 : Ipv4Addr → ℕ
to_u32 ip = ((ip.o1 * 256 + ip.o2) * 256 + ip.o3) * 256 + ip.o4

-- One octet of `Ipv4Addr::parse`: one to three digits, no leading zero, at most 255.
unfoldable pub parse_octet : String → Option ℕ
parse_octet s =
    if is_empty s || ltb 3 (Text.byte_len s) || (starts_with b'0' s && ltb 1 (Text.byte_len s))
    then none
    else Option.bind (decimal_from 0 s) (at_most 255)

abbrev octets : List String → Option Ipv4Addr
octets (a ∷ b ∷ c ∷ d ∷ []) = Option.bind (parse_octet a) λ o1. Option.bind (parse_octet b) λ o2.
    Option.bind (parse_octet c)
      λ o3. Option.map (λ o4. record { o1 = o1; o2 = o2; o3 = o3; o4 = o4 }) (parse_octet d)
octets _ = none

-- `addr.parse::<Ipv4Addr>()`: four octets between dots.
unfoldable pub parse_ipv4 : String → Option Ipv4Addr
parse_ipv4 s = octets (split b'.' s)

unfoldable pub validate_ipv4_cidr : Field → String → Result (Unit {0})
validate_ipv4_cidr field value = do
  (addr, digits) ← context (split_once b'/' (trim value)) field Problem.syntax
  parsed ← context (parse_ipv4 addr) field Problem.syntax
  prefix ← context (parse_unsigned 255 digits) field Problem.syntax
  bail_if (ltb 32 prefix) field Problem.too_large

-- `u32::MAX << (32 - prefix)`, in 32 bits.
unfoldable pub prefix_mask : ℕ → ℕ
prefix_mask prefix = if prefix == 0 then 0 else ((u32_mod - 1) * 2 ^ (32 - prefix)) % u32_mod

abbrev pub cidr_field : Field
cidr_field = Field.name "CIDR"

unfoldable pub ipv4_cidr_contains : String → Ipv4Addr → Result Bool
ipv4_cidr_contains cidr ip = do
  (addr, digits) ← context (split_once b'/' (trim cidr)) cidr_field Problem.syntax
  network ← context (parse_ipv4 addr) cidr_field Problem.syntax
  prefix ← context (parse_unsigned 255 digits) cidr_field Problem.syntax
  bail_if (ltb 32 prefix) cidr_field Problem.too_large
  let mask = prefix_mask prefix
  ok (bit_and (to_u32 network) mask == bit_and (to_u32 ip) mask)
