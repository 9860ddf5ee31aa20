-- ===== src/Redirect/Accept.antt =====
-- Which targets `validate_redirect_location` accepts.
use foia_search_mcp.Prelude.{
  Bool, true, false, not, Result, ◌>>=◌, if◌then◌else◌, none, some, [], ◌≡◌, ◌↔◌, ◌⊎◌, inl, inr,
  arith, refl, Chars, codes, chars_eq_iff, ok, err, Result-cases, Option-cases, ◌&&◌,
}
use foia_search_mcp.Redirect.Url.{UrlApi}
use foia_search_mcp.Redirect.Validate.{
  RedirectFollowPolicy, follow, cross_host_denied, host_label, is_blocked_hostname,
  is_unsafe_literal, ip_host, validate_http_url, validate_no_credentials, validate_host,
  validate_safe_host, same_host, validate_next, validate_redirect_location, RedirectPolicy, deny,
}

-- The checks as a whole, their results given: the safety of the host counts for another host alone.
checks_lem :
    {A E : Type 0} (http credentials host : Result E (Unit {0})) (same allow : Bool) (e : E)
    (next u : A)
    → ((http >>= λ _. credentials >>= λ _. (if not same then host else ok tt) >>= λ _.
          if not allow && not same then err e else ok next)
        ≡ ok u)
      ↔ (u ≡ next)
        × (http ≡ ok tt)
        × (credentials ≡ ok tt)
        × ((same ≡ true) ⊎ ((allow ≡ true) × (host ≡ ok tt)))
checks_lem (ok a) (ok b) (ok c) same allow e next u = ground arith
checks_lem (ok a) (ok b) (err x) same allow e next u = ground arith
checks_lem (ok a) (err y) c same allow e next u = ground arith
checks_lem (err z) b c same allow e next u = ground arith

module _ {Url : Type 0} (api : UrlApi Url) where
  abbrev pub IsHttp : Url → Type 0
  IsHttp url = (api.scheme url ≡ codes "http") ⊎ (api.scheme url ≡ codes "https")

  abbrev pub HasNoCredentials : Url → Type 0
  HasNoCredentials url = (api.username url ≡ []) × (api.password url ≡ none)

  -- A host that is there, has none of the blocked names, and is no literal of an unsafe address.
  abbrev pub IsSafeHost : Url → Type 0
  IsSafeHost url =
      (host : Chars) × (api.host_str url ≡ some host)
      × (is_blocked_hostname host ≡ false)
      × (is_unsafe_literal (api.parse_ip (ip_host host)) ≡ false)

  abbrev pub IsFollowable : RedirectPolicy → Url → Url → Type 0
  IsFollowable deny original next = ⊥
  IsFollowable (follow policy) original next =
      IsHttp next
      × HasNoCredentials next
      × ((same_host api original next ≡ true)
          ⊎ ((policy.allow_cross_host ≡ true) × IsSafeHost next))

  http_lem : (url : Url) → (validate_http_url api url ≡ ok tt) ↔ IsHttp url
  unfolding validate_http_url
  http_lem url = ground (
    arith,
    chars_eq_iff (api.scheme url) (codes "http"),
    chars_eq_iff (api.scheme url) (codes "https"),
  )

  credentials_lem : (url : Url) → (validate_no_credentials api url ≡ ok tt) ↔ HasNoCredentials url
  unfolding validate_no_credentials
  credentials_lem url = ground arith

  some_host_lem :
      (h : Chars)
      → (validate_host api (some h) ≡ ok tt)
        ↔ (host : Chars) × (some h ≡ some host)
          × (is_blocked_hostname host ≡ false)
          × (is_unsafe_literal (api.parse_ip (ip_host host)) ≡ false)
  some_host_lem h = (
    λ e. (h, refl, ground arith, ground arith),
    λ (host, e, name, ip). let same : h ≡ host = ground arith in rw same (rw (name, ip) refl),
  )

  safe_host_lem : (url : Url) → (validate_safe_host api url ≡ ok tt) ↔ IsSafeHost url
  unfolding validate_safe_host
  safe_host_lem url = elim (Option-cases (api.host_str url)) [
    | inl e ↦ rw e (ground arith)
    | inr (h, e) ↦ rw e (some_host_lem h)
  ]

  next_lem :
      (policy : RedirectFollowPolicy) (original next u : Url)
      → (validate_next api policy.allow_cross_host original next ≡ ok u)
        ↔ (u ≡ next) × IsFollowable (follow policy) original next
  unfolding validate_http_url host_label same_host validate_safe_host validate_no_credentials
  next_lem policy original next u =
      let checks =
        checks_lem (validate_http_url api next) (validate_no_credentials api next)
          (validate_safe_host api next) (same_host api original next) policy.allow_cross_host
          (cross_host_denied (host_label api original) (host_label api next)) next u in
      (
        λ h.
            let c = checks.0 h in
            (
              c.0,
              (
                (http_lem next).0 c.1,
                (credentials_lem next).0 c.2,
                elim c.3 [ inl e ↦ inl e | inr (e, host) ↦ inr (e, (safe_host_lem next).0 host) ],
              ),
            ),
        λ (e, (http, none_given, other)). checks.1 (
          e,
          (http_lem next).1 http,
          (credentials_lem next).1 none_given,
          elim other [ inl o ↦ inl o | inr (o, host) ↦ inr (o, (safe_host_lem next).1 host) ],
        ),
      )

  -- A redirect is accepted exactly if the policy is to follow, the `Location` resolves against the
  -- current URL to the accepted one, its scheme is http or https, it has no credentials, and its
  -- host is the original's or, where other hosts are allowed, one that is present, not blocked by
  -- name and not the literal of an unsafe address.
  pub validate-IsFollowable :
      (policy : RedirectPolicy) (original current : Url) (location : Chars) (next : Url)
      → (validate_redirect_location api policy original current location ≡ ok next)
        ↔ (api.join current location ≡ ok next) × IsFollowable policy original next
  unfolding validate_redirect_location
  validate-IsFollowable deny original current location next = ground arith
  validate-IsFollowable (follow policy) original current location next =
      elim (Result-cases (api.join current location)) [
        | inl (u, e) ↦ rw e (ground (arith, next_lem policy original u next))
        | inr (m, e) ↦ rw e (ground arith)
      ]
