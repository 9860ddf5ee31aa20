-- ===== src/Redirect/Ip.antt =====
-- The addresses that a redirect to another host may not name. `is_private` and the other tests of
-- `Ipv4Addr` and `Ipv6Addr` are the standard library's, on octets and on 16-bit segments.
use foia_search_mcp.Prelude.{ℕ, ◌-◌, ◌%◌, ◌^◌, Bool, ◌&&◌, ◌||◌, leb, ◌==◌}

pub record Ipv4Addr : Type 0 where
  pub a : ℕ
  pub b : ℕ
  pub c : ℕ
  pub d : ℕ

-- The first segment and the others, in order.
pub record Ipv6Addr : Type 0 where
  pub s0 : ℕ
  pub s1 : ℕ
  pub s2 : ℕ
  pub s3 : ℕ
  pub s4 : ℕ
  pub s5 : ℕ
  pub s6 : ℕ
  pub s7 : ℕ

pub data IpAddr : Type 0 where
  v4 : Ipv4Addr → IpAddr
  v6 : Ipv6Addr → IpAddr

abbrev pub is_private : Ipv4Addr → Bool
is_private ip =
    ip.a == 10 || (ip.a == 172 && (leb 16 ip.b && leb ip.b 31)) || (ip.a == 192 && ip.b == 168)

abbrev pub is_loopback : Ipv4Addr → Bool
is_loopback ip = ip.a == 127

abbrev pub is_link_local : Ipv4Addr → Bool
is_link_local ip = ip.a == 169 && ip.b == 254

abbrev pub is_multicast : Ipv4Addr → Bool
is_multicast ip = leb 224 ip.a && leb ip.a 239

abbrev pub is_octets : Ipv4Addr → ℕ → ℕ → ℕ → ℕ → Bool
is_octets ip a b c d = ip.a == a && (ip.b == b && (ip.c == c && ip.d == d))

unfoldable pub is_unsafe_ipv4 : Ipv4Addr → Bool
is_unsafe_ipv4 ip =
    is_private ip
    || is_loopback ip
    || is_link_local ip
    || is_multicast ip
    || is_octets ip 255 255 255 255
    || is_octets ip 0 0 0 0
    || ip.a == 0
    || is_octets ip 169 254 169 254

-- `x & m` for the mask `m` of 16 bits whose last `n` bits alone are 0.
abbrev pub clear_low : ℕ → ℕ → ℕ
clear_low n x = x - x % 2 ^ n

abbrev pub is_ipv6_unique_local : Ipv6Addr → Bool
is_ipv6_unique_local ip = clear_low 9 ip.s0 == 0xfc00

abbrev pub is_ipv6_unicast_link_local : Ipv6Addr → Bool
is_ipv6_unicast_link_local ip = clear_low 6 ip.s0 == 0xfe80

-- The segments before the last are 0, and the last is `n`: `::1` and `::`.
abbrev pub is_last_segment : Ipv6Addr → ℕ → Bool
is_last_segment ip n =
    ip.s0 == 0
    && ip.s1 == 0
    && ip.s2 == 0
    && ip.s3 == 0
    && ip.s4 == 0
    && ip.s5 == 0
    && ip.s6 == 0
    && ip.s7 == n

-- A multicast address starts with the byte 0xff.
unfoldable pub is_unsafe_ipv6 : Ipv6Addr → Bool
is_unsafe_ipv6 ip =
    is_last_segment ip 1
    || is_last_segment ip 0
    || clear_low 8 ip.s0 == 0xff00
    || is_ipv6_unique_local ip
    || is_ipv6_unicast_link_local ip

unfoldable pub is_unsafe_ip : IpAddr → Bool
is_unsafe_ip (v4 ip) = is_unsafe_ipv4 ip
is_unsafe_ip (v6 ip) = is_unsafe_ipv6 ip
