-- ===== src/Redirect/Validate.antt =====
-- `validate_redirect_location` and its guards.
use foia_search_mcp.Prelude.{
  ℕ, Bool, true, false, not, ◌&&◌, ◌||◌, Option, none, some, [], ◌==◌, if◌then◌else◌, is_empty,
  Chars, codes, chars_eq, trim_start, trim_end, to_ascii_lowercase, eq_ignore_ascii_case, Result,
  ok, err, ◌>>=◌, map_err,
}
use foia_search_mcp.Redirect.Ip.{IpAddr, is_unsafe_ip}
use foia_search_mcp.Redirect.Url.{UrlApi}

pub record RedirectFollowPolicy : Type 0 where
  pub max_hops : ℕ
  pub allow_cross_host : Bool

pub data RedirectPolicy : Type 0 where
  deny : RedirectPolicy
  follow : RedirectFollowPolicy → RedirectPolicy

abbrev pub same_host_policy : ℕ → RedirectPolicy
same_host_policy n = follow (record { max_hops = n; allow_cross_host = false })

abbrev pub cross_host_policy : ℕ → RedirectPolicy
cross_host_policy n = follow (record { max_hops = n; allow_cross_host = true })

pub data RedirectValidationError : Type 0 where
  denied : RedirectValidationError
  malformed_location : Chars → RedirectValidationError
  unsupported_scheme : Chars → RedirectValidationError
  credentials_not_allowed : RedirectValidationError
  cross_host_denied : (original_host redirect_host : Chars) → RedirectValidationError
  unsafe_host : Chars → RedirectValidationError

-- A character that is a given one, for `trim_start_matches` and `trim_end_matches`.
abbrev pub is_char : ℕ → ℕ → Bool
is_char c d = d == c

abbrev pub is_blocked_hostname : Chars → Bool
unfolding trim_end
is_blocked_hostname host =
    let normalized = to_ascii_lowercase (trim_end (is_char b'.') host) in
    chars_eq normalized (codes "localhost")
    || chars_eq normalized (codes "localhost.localdomain")
    || chars_eq normalized (codes "metadata.google.internal")

abbrev pub ip_host : Chars → Chars
unfolding trim_start trim_end
ip_host host = trim_end (is_char b']') (trim_start (is_char b'[') host)

abbrev pub is_unsafe_literal : Option IpAddr → Bool
is_unsafe_literal none = false
is_unsafe_literal (some ip) = is_unsafe_ip ip

module _ {Url : Type 0} (api : UrlApi Url) where
  unfoldable pub validate_http_url : Url → Result RedirectValidationError (Unit {0})
  validate_http_url url =
      if chars_eq (api.scheme url) (codes "http") || chars_eq (api.scheme url) (codes "https")
      then ok tt
      else err (unsupported_scheme (api.scheme url))

  abbrev pub is_none : Option Chars → Bool
  is_none none = true
  is_none (some p) = false

  unfoldable pub validate_no_credentials : Url → Result RedirectValidationError (Unit {0})
  validate_no_credentials url =
      if is_empty (api.username url) && is_none (api.password url)
      then ok tt
      else err credentials_not_allowed

  abbrev pub validate_host : Option Chars → Result RedirectValidationError (Unit {0})
  validate_host none = err (unsafe_host (codes "missing host"))
  validate_host (some host) =
      if is_blocked_hostname host
      then err (unsafe_host host)
      else if is_unsafe_literal (api.parse_ip (ip_host host))
      then err (unsafe_host host)
      else ok tt

  unfoldable pub validate_safe_host : Url → Result RedirectValidationError (Unit {0})
  validate_safe_host url = validate_host (api.host_str url)

  abbrev pub host_or_empty : Option Chars → Chars
  host_or_empty none = []
  host_or_empty (some host) = host

  unfoldable pub host_label : Url → Chars
  unfolding trim_end
  host_label url = trim_end (is_char b'.') (host_or_empty (api.host_str url))

  unfoldable pub same_host : Url → Url → Bool
  unfolding host_label
  same_host left right = eq_ignore_ascii_case (host_label left) (host_label right)

  -- The checks on the resolved URL, in their order.
  abbrev pub validate_next : Bool → Url → Url → Result RedirectValidationError Url
  unfolding validate_http_url validate_no_credentials validate_safe_host same_host
  validate_next allow_cross_host original next = validate_http_url next >>= λ _.
      validate_no_credentials next >>= λ _.
      (if not (same_host original next) then validate_safe_host next else ok tt) >>= λ _.
      if not allow_cross_host && not (same_host original next)
      then err (cross_host_denied (host_label original) (host_label next))
      else ok next

  unfoldable pub validate_redirect_location :
      RedirectPolicy → Url → Url → Chars → Result RedirectValidationError Url
  validate_redirect_location deny original current location = err denied
  validate_redirect_location (follow policy) original current location =
      map_err malformed_location (api.join current location) >>= λ next.
      validate_next policy.allow_cross_host original next
