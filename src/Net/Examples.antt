-- ===== src/Net/Examples.antt =====
-- Blocks and addresses.
use confidential_agent.Common.{◌-◌, ◌/◌, ◌^◌, ◌≡◌, refl, ok, arith, ◌==◌, nat_eq}
use confidential_agent.Common.Text.{
  trim, trim_start, keep, trim_end_matches, is_empty, split, split_once, starts_with, decimal_from,
  parse_unsigned,
}
use confidential_agent.Net.{Ipv4Addr, to_u32, parse_octet, parse_ipv4, ipv4_cidr_contains}
use confidential_agent.Net.Blocks.{IsAddr, IsBlock, ipv4_cidr_contains-IsBlock}

abbrev network : Ipv4Addr
network = record { o1 = 203; o2 = 0; o3 = 113; o4 = 0 }

abbrev host : Ipv4Addr
host = record { o1 = 203; o2 = 0; o3 = 113; o4 = 9 }

runs : Unit {0}
unfolding trim trim_start keep trim_end_matches is_empty split split_once starts_with decimal_from
    parse_unsigned parse_octet parse_ipv4
runs = tt

block : IsBlock "203.0.113.0/24" network 24
unfolding runs
block = record {
  addr = "203.0.113.0";
  digits = "24";
  parted = refl;
  parsed = refl;
  counted = refl;
  within = omega arith;
}

host-IsAddr : IsAddr host
host-IsAddr = record { b1 = omega arith; b2 = omega arith; b3 = omega arith; b4 = omega arith }

ipv4_cidr_contains-IsBlock_example :
    ipv4_cidr_contains "203.0.113.0/24" host
    ≡ ok (to_u32 network / 2 ^ (32 - 24) == to_u32 host / 2 ^ (32 - 24))
ipv4_cidr_contains-IsBlock_example =
    ipv4_cidr_contains-IsBlock "203.0.113.0/24" network host 24 block host-IsAddr
