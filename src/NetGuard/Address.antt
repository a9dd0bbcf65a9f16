-- ===== src/NetGuard/Address.antt =====
-- Addresses and the test of net_guard.rs on them. The predicates of `std::net` are written out as
-- the standard library documents them.
use wa_rs.Common.{
  ℕ, ◌-◌, ◌^◌, ◌%◌, ◌/◌, Bool, true, false, ◌&&◌, ◌||◌, Option, none, some, nat_eq, leb,
  if◌then◌else◌,
}

-- The four octets.
pub record Ipv4Addr : Type 0 where
  pub a : ℕ
  pub b : ℕ
  pub c : ℕ
  pub d : ℕ

-- The eight segments of 16 bits.
pub record Ipv6Addr : Type 0 where
  pub s0 : ℕ
  pub s1 : ℕ
  pub s2 : ℕ
  pub s3 : ℕ
  pub s4 : ℕ
  pub s5 : ℕ
  pub s6 : ℕ
  pub s7 : ℕ

pub data IpAddr : Type 0 where
  v4 : Ipv4Addr → IpAddr
  v6 : Ipv6Addr → IpAddr

-- `x & mask`, for a mask of the width of `x` whose low `k` bits are 0 and whose others are 1.
abbrev pub clear_low : ℕ → ℕ → ℕ
clear_low k x = x - x % 2 ^ k

abbrev pub is_private : Ipv4Addr → Bool
is_private ip =
    nat_eq ip.a 10
    || nat_eq ip.a 172 && leb 16 ip.b && leb ip.b 31
    || nat_eq ip.a 192 && nat_eq ip.b 168

abbrev pub is_loopback : Ipv4Addr → Bool
is_loopback ip = nat_eq ip.a 127

abbrev pub is_link_local : Ipv4Addr → Bool
is_link_local ip = nat_eq ip.a 169 && nat_eq ip.b 254

abbrev pub is_multicast : Ipv4Addr → Bool
is_multicast ip = leb 224 ip.a && leb ip.a 239

abbrev pub is_broadcast : Ipv4Addr → Bool
is_broadcast ip = nat_eq ip.a 255 && nat_eq ip.b 255 && nat_eq ip.c 255 && nat_eq ip.d 255

abbrev pub is_documentation : Ipv4Addr → Bool
is_documentation ip =
    nat_eq ip.a 192 && nat_eq ip.b 0 && nat_eq ip.c 2
    || nat_eq ip.a 198 && nat_eq ip.b 51 && nat_eq ip.c 100
    || nat_eq ip.a 203 && nat_eq ip.b 0 && nat_eq ip.c 113

abbrev pub is_unspecified : Ipv4Addr → Bool
is_unspecified ip = nat_eq ip.a 0 && nat_eq ip.b 0 && nat_eq ip.c 0 && nat_eq ip.d 0

unfoldable pub is_globally_routable_v4 : Ipv4Addr → Bool
is_globally_routable_v4 ip =
    if is_private ip
      || is_loopback ip
      || is_link_local ip
      || is_multicast ip
      || is_broadcast ip
      || is_documentation ip
      || is_unspecified ip
    then false
    else if nat_eq ip.a 0
    then false
    else if nat_eq ip.a 100 && nat_eq (clear_low 6 ip.b) 64
    then false
    else true

abbrev pub is_loopback_v6 : Ipv6Addr → Bool
is_loopback_v6 ip =
    nat_eq ip.s0 0
    && nat_eq ip.s1 0
    && nat_eq ip.s2 0
    && nat_eq ip.s3 0
    && nat_eq ip.s4 0
    && nat_eq ip.s5 0
    && nat_eq ip.s6 0
    && nat_eq ip.s7 1

abbrev pub is_unspecified_v6 : Ipv6Addr → Bool
is_unspecified_v6 ip =
    nat_eq ip.s0 0
    && nat_eq ip.s1 0
    && nat_eq ip.s2 0
    && nat_eq ip.s3 0
    && nat_eq ip.s4 0
    && nat_eq ip.s5 0
    && nat_eq ip.s6 0
    && nat_eq ip.s7 0

-- `(segments[0] & 0xff00) == 0xff00`.
abbrev pub is_multicast_v6 : Ipv6Addr → Bool
is_multicast_v6 ip = nat_eq (clear_low 8 ip.s0) 65280

-- `0xfc00` is 64512, and `0xfe80` is 65152.
unfoldable pub is_globally_routable_v6 : Ipv6Addr → Bool
is_globally_routable_v6 ip =
    if is_loopback_v6 ip || is_unspecified_v6 ip || is_multicast_v6 ip
    then false
    else if nat_eq (clear_low 9 ip.s0) 64512
    then false
    else if nat_eq (clear_low 6 ip.s0) 65152
    then false
    else true

-- `::ffff:a.b.c.d`.
abbrev pub to_ipv4_mapped : Ipv6Addr → Option Ipv4Addr
to_ipv4_mapped ip =
    if nat_eq ip.s0 0
      && nat_eq ip.s1 0
      && nat_eq ip.s2 0
      && nat_eq ip.s3 0
      && nat_eq ip.s4 0
      && nat_eq ip.s5 65535
    then some (record { a = ip.s6 / 256; b = ip.s6 % 256; c = ip.s7 / 256; d = ip.s7 % 256 })
    else none

unfoldable pub is_globally_routable : IpAddr → Bool
unfolding is_globally_routable_v4 is_globally_routable_v6
is_globally_routable (v4 ip) = is_globally_routable_v4 ip
is_globally_routable (v6 ip) = elim (to_ipv4_mapped ip) [
  | some mapped ↦ is_globally_routable_v4 mapped
  | none ↦ is_globally_routable_v6 ip
]
