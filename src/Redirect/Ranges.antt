-- ===== src/Redirect/Ranges.antt =====
-- The refused IPv4 addresses as ranges of 32-bit numbers, and what IPv6 lets through.
use foia_search_mcp.Prelude.{
  ℕ, ◌+◌, ◌*◌, ◌≤◌, ◌<◌, true, false, ◌≡◌, ◌↔◌, ◌⊎◌, arith, refl, Chars, some, ok,
}
use foia_search_mcp.Redirect.Ip.{
  Ipv4Addr, Ipv6Addr, v6, is_unsafe_ip, is_unsafe_ipv4, is_unsafe_ipv6,
}
use foia_search_mcp.Redirect.Url.{UrlApi}
use foia_search_mcp.Redirect.Validate.{is_blocked_hostname, ip_host, validate_safe_host}

abbrev pub value : Ipv4Addr → ℕ
value ip = ip.a * 16777216 + ip.b * 65536 + ip.c * 256 + ip.d

abbrev pub IsBetween : ℕ → ℕ → ℕ → Type 0
IsBetween low high n = (low ≤ n) × (n < high)

-- 0/8, 10/8, 127/8, 169.254/16, 172.16/12, 192.168/16, 224/4 and 255.255.255.255.
abbrev pub IsReserved : ℕ → Type 0
IsReserved n =
    (n < 16777216)
    ⊎ IsBetween 167772160 184549376 n
    ⊎ IsBetween 2130706432 2147483648 n
    ⊎ IsBetween 2851995648 2852061184 n
    ⊎ IsBetween 2886729728 2887778304 n
    ⊎ IsBetween 3232235520 3232301056 n
    ⊎ IsBetween 3758096384 4026531840 n
    ⊎ (n ≡ 4294967295)

abbrev pub IsOctets : Ipv4Addr → Type 0
IsOctets ip = (ip.a < 256) × (ip.b < 256) × (ip.c < 256) × (ip.d < 256)

-- An IPv4 address, given by four octets, is refused exactly if the 32-bit number it stands for is
-- in one of the reserved ranges: 0/8, 10/8, 127/8, 169.254/16, 172.16/12, 192.168/16, 224/4 or the
-- broadcast address.
pub unsafe_ipv4-IsReserved :
    (ip : Ipv4Addr) → IsOctets ip → (is_unsafe_ipv4 ip ≡ true) ↔ IsReserved (value ip)
unfolding is_unsafe_ipv4
unsafe_ipv4-IsReserved ip h = ground arith

-- `::ffff:a.b.c.d`, whose last two segments hold the four octets.
abbrev pub mapped : Ipv4Addr → Ipv6Addr
mapped ip = record {
  s0 = 0;
  s1 = 0;
  s2 = 0;
  s3 = 0;
  s4 = 0;
  s5 = 0xffff;
  s6 = ip.a * 256 + ip.b;
  s7 = ip.c * 256 + ip.d;
}

-- A host that is the literal of an IPv4-mapped IPv6 address passes the check of safe hosts, whatever
-- the four octets: so does a mapped loopback or private address.
pub mapped_accepted :
    {Url : Type 0} (api : UrlApi Url) (url : Url) (host : Chars) (ip : Ipv4Addr)
    → api.host_str url ≡ some host
    → is_blocked_hostname host ≡ false
    → api.parse_ip (ip_host host) ≡ some (v6 (mapped ip))
    → validate_safe_host api url ≡ ok tt
unfolding validate_safe_host is_unsafe_ip is_unsafe_ipv6
mapped_accepted api url host ip present name literal = rw (present, name, literal) refl
