-- ===== src/Redirect/Examples.antt =====
-- A server that redirects twice, and one that redirects to a loopback address. A URL here is a host
-- under https, and a `Location` names a host.
use foia_search_mcp.Prelude.{
  ℕ, zero, suc, true, false, Option, none, some, List, [], ◌∷◌, ◌≡◌, ◌↔◌, refl, arith, Chars, codes,
  chars_eq, if◌then◌else◌, Result, ok, err, trim_start, trim_end,
}
use foia_search_mcp.Redirect.Ip.{IpAddr, v4, v6, Ipv4Addr, is_unsafe_ip, is_unsafe_ipv4}
use foia_search_mcp.Redirect.Url.{UrlApi, Headers, Response, Request}
use foia_search_mcp.Redirect.Validate.{
  is_blocked_hostname, ip_host, same_host_policy, cross_host_policy, validate_redirect_location,
  validate_http_url, validate_no_credentials, validate_safe_host, same_host, host_label,
}
use foia_search_mcp.Redirect.Follow.{Run, send_with_redirects, hop_loop, build_request, unsafe}
use foia_search_mcp.Redirect.Ranges.{
  value, IsReserved, mapped, unsafe_ipv4-IsReserved, mapped_accepted,
}
use foia_search_mcp.Redirect.Accept.{IsFollowable, validate-IsFollowable}
use foia_search_mcp.Redirect.Bounds.{send-IsAnswered, IsAnswered}
use foia_search_mcp.Redirect.Safety.{IsChain, send-IsChain}

abbrev loopback : Ipv4Addr
loopback = record { a = 127; b = 0; c = 0; d = 1 }

abbrev parse_literal : Chars → Option IpAddr
parse_literal s =
    if chars_eq s (codes "127.0.0.1")
    then some (v4 loopback)
    else if chars_eq s (codes "::ffff:7f00:1")
    then some (v6 (mapped loopback))
    else none

abbrev hosts : UrlApi Chars
hosts = record {
  parse = λ s. ok s;
  join = λ u location. ok location;
  as_str = λ u. u;
  scheme = λ u. codes "https";
  username = λ u. [];
  password = λ u. none;
  host_str = λ u. some u;
  parse_ip = parse_literal;
}

abbrev headers : Option Chars → Headers
headers l = record {
  location = l;
  etag = none;
  last_modified = none;
  content_type = none;
  cache_control = none;
  json = ok (codes "{}");
}

abbrev response : ℕ → Option Chars → Response
response s l = record { status = s; headers = headers l; content_length = none; body = [] }

abbrev home : Chars
home = codes "example.test"

abbrev home_again : Chars
home_again = codes "EXAMPLE.test."

abbrev agent : Chars
agent = codes "foia-search-mcp/0.1"

-- The first request is redirected to the same host, spelled otherwise; the second is answered.
abbrev once : ℕ → Request Chars → Result Chars Response
once zero r = ok (response 302 (some home_again))
once (suc n) r = ok (response 200 none)

abbrev to_loopback : ℕ → Request Chars → Result Chars Response
to_loopback n r = ok (response 302 (some (codes "127.0.0.1")))

abbrev run_once : Run hosts
run_once = send_with_redirects hosts once home none (same_host_policy 3) agent

run_once_result : run_once.1 ≡ ok (response 200 none, home_again)
unfolding send_with_redirects hop_loop validate_redirect_location validate_http_url
    validate_no_credentials validate_safe_host same_host host_label trim_end
run_once_result = refl

to_loopback_result :
    (send_with_redirects hosts to_loopback home none (cross_host_policy 3) agent).1
    ≡ err (unsafe home (codes "127.0.0.1") (codes "redirect target host 127.0.0.1 is blocked"))
unfolding send_with_redirects hop_loop validate_redirect_location validate_http_url
    validate_no_credentials validate_safe_host same_host host_label trim_end trim_start is_unsafe_ip
    is_unsafe_ipv4
to_loopback_result = refl

send-IsAnswered_example :
    (rest : List (Request Chars)) × (run_once.0 ≡ build_request hosts none agent 0 home ∷ rest)
    × IsAnswered hosts once 0
        (build_request hosts none agent 0 home)
        rest
        (response 200 none, home_again)
send-IsAnswered_example =
    send-IsAnswered hosts once home none (same_host_policy 3) agent (response 200 none) home_again
      run_once_result

send-IsChain_example :
    (rest : List (Request Chars)) × (run_once.0 ≡ build_request hosts none agent 0 home ∷ rest)
    × IsChain hosts once
        (same_host_policy 3)
        home
        agent
        0
        (build_request hosts none agent 0 home)
        rest
send-IsChain_example = send-IsChain hosts once home none (same_host_policy 3) agent

validate-IsFollowable_example :
    (validate_redirect_location hosts (same_host_policy 3) home home home_again ≡ ok home_again)
    ↔ (hosts.join home home_again ≡ ok home_again)
      × IsFollowable hosts (same_host_policy 3) home home_again
validate-IsFollowable_example =
    validate-IsFollowable hosts (same_host_policy 3) home home home_again home_again

unsafe_ipv4-IsReserved_example : (is_unsafe_ipv4 loopback ≡ true) ↔ IsReserved (value loopback)
unsafe_ipv4-IsReserved_example =
    unsafe_ipv4-IsReserved loopback (omega arith, omega arith, omega arith, omega arith)

abbrev bracketed : Chars
bracketed = codes "[::ffff:7f00:1]"

bracketed_name : is_blocked_hostname bracketed ≡ false
unfolding trim_end
bracketed_name = refl

bracketed_literal : parse_literal (ip_host bracketed) ≡ some (v6 (mapped loopback))
unfolding trim_end trim_start
bracketed_literal = refl

mapped_accepted_example : validate_safe_host hosts bracketed ≡ ok tt
mapped_accepted_example =
    mapped_accepted hosts bracketed bracketed loopback refl bracketed_name bracketed_literal
