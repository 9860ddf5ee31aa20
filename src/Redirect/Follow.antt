-- ===== src/Redirect/Follow.antt =====
-- `send_with_redirects`, its loop as a recursion on the hops that are left.
use foia_search_mcp.Prelude.{
  ℕ, zero, suc, Bool, ◌||◌, Option, none, some, List, [], ◌∷◌, ◌++◌, leb, ◌==◌, if◌then◌else◌,
  Chars, codes, Result, ok, err,
}
use foia_search_mcp.Cache.{CacheEntry}
use foia_search_mcp.Redirect.Url.{UrlApi, Response, Request}
use foia_search_mcp.Redirect.Validate.{
  RedirectPolicy, deny, follow, RedirectValidationError, malformed_location, unsupported_scheme,
  credentials_not_allowed, cross_host_denied, unsafe_host, validate_redirect_location,
}

-- `Request` carries the text of the HTTP library's own error.
pub data RedirectFollowError : Type 0 where
  request : Chars → RedirectFollowError
  denied : (url : Chars) (location : Option Chars) (message : Chars) → RedirectFollowError
  unsafe : (url location message : Chars) → RedirectFollowError
  too_many : (url : Chars) (max_hops : ℕ) → RedirectFollowError

abbrev pub is_follow_redirect_status : ℕ → Bool
is_follow_redirect_status s = s == 301 || s == 302 || s == 303 || s == 307 || s == 308

abbrev pub deny_message : Chars
deny_message = codes "source redirect policy is deny"

abbrev pub redirect_validation_error : Chars → Chars → RedirectValidationError → RedirectFollowError
redirect_validation_error url location RedirectValidationError.denied =
    RedirectFollowError.denied url (some location) deny_message
redirect_validation_error url location (malformed_location m) =
    unsafe url location (codes "malformed Location header: " ++ m)
redirect_validation_error url location (unsupported_scheme s) =
    unsafe url location
      (codes "unsupported redirect scheme " ++ (s ++ codes "; only http and https are allowed"))
redirect_validation_error url location credentials_not_allowed =
    unsafe url location (codes "redirect target includes credentials")
redirect_validation_error url location (cross_host_denied o r) = unsafe url location (
    codes "cross-host redirect from "
    ++ (o ++ (codes " to " ++ (r ++ codes " is not allowed by policy"))))
redirect_validation_error url location (unsafe_host h) =
    unsafe url location (codes "redirect target host " ++ (h ++ codes " is blocked"))

abbrev pub max_hops_of : RedirectPolicy → ℕ
max_hops_of deny = 0
max_hops_of (follow policy) = policy.max_hops

-- What one pass of the loop comes to: a result, or the URL of the next pass.
pub data Hop (Url : Type 0) : Type 0 where
  stop : Result RedirectFollowError (Response × Url) → Hop Url
  onward : Url → Hop Url

module _ {Url : Type 0} (api : UrlApi Url) where
  abbrev pub validated : Chars → Chars → Result RedirectValidationError Url → Hop Url
  validated url location (ok next) = onward next
  validated url location (err e) = stop (err (redirect_validation_error url location e))

  -- A response that redirects: its `Location`, the number of the hop, the target.
  abbrev pub redirected : RedirectPolicy → Url → ℕ → Url → Option Chars → Hop Url
  redirected deny initial hop current location =
      stop (err (RedirectFollowError.denied (api.as_str current) location deny_message))
  redirected (follow policy) initial hop current none = stop (
      err (
        RedirectFollowError.denied (api.as_str current) none
          (codes "redirect response did not include a Location header")))
  redirected (follow policy) initial hop current (some location) =
      if leb policy.max_hops hop
      then stop (err (too_many (api.as_str current) policy.max_hops))
      else validated (api.as_str current) location
          (validate_redirect_location api (follow policy) initial current location)

  abbrev pub receive : RedirectPolicy → Url → ℕ → Url → Result Chars Response → Hop Url
  receive policy initial hop current (err e) = stop (err (request e))
  receive policy initial hop current (ok response) =
      if is_follow_redirect_status response.status
      then redirected policy initial hop current response.headers.location
      else stop (ok (response, current))

  abbrev pub etag_of : Option CacheEntry → Option Chars
  etag_of none = none
  etag_of (some entry) = entry.etag

  abbrev pub last_modified_of : Option CacheEntry → Option Chars
  last_modified_of none = none
  last_modified_of (some entry) = entry.last_modified

  -- The headers of a cached entry go with the first request alone.
  abbrev pub build_request : Option CacheEntry → Chars → ℕ → Url → Request Url
  build_request cached agent hop url = record {
    url = url;
    user_agent = agent;
    if_none_match = if hop == 0 then etag_of cached else none;
    if_modified_since = if hop == 0 then last_modified_of cached else none;
  }

  -- A run: the requests it sent, in order, and its result.
  abbrev pub Run : Type 0
  Run = List (Request Url) × Result RedirectFollowError (Response × Url)

  -- The passes that come after one, if they come.
  abbrev pub after : Request Url → Hop Url → (Url → Run) → Run
  after sent (stop result) more = (sent ∷ [], result)
  after sent (onward next) more = (sent ∷ (more next).0, (more next).1)

  module _ (send : ℕ → Request Url → Result Chars Response) where
    -- The loop with `n` values of `hop_count` left, the first of them `hop`.
    unfoldable pub hop_loop : RedirectPolicy → Url → Option CacheEntry → Chars → ℕ → ℕ → Url → Run
    hop_loop policy initial cached agent zero hop current =
        ([], err (too_many (api.as_str current) (max_hops_of policy)))
    hop_loop policy initial cached agent (suc n) hop current =
        after (build_request cached agent hop current)
          (receive policy initial hop current (send hop (build_request cached agent hop current)))
          (λ next. hop_loop policy initial cached agent n (suc hop) next)

    unfoldable pub send_with_redirects : Url → Option CacheEntry → RedirectPolicy → Chars → Run
    send_with_redirects initial cached policy agent =
        hop_loop policy initial cached agent (suc (max_hops_of policy)) 0 initial
