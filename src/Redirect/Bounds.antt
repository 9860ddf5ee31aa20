-- ===== src/Redirect/Bounds.antt =====
-- How many requests a run sends, and what a run that succeeds ends with.
use foia_search_mcp.Prelude.{
  ℕ, zero, suc, ◌≤◌, true, false, Option, none, some, List, [], ◌∷◌, ◌≡◌, sym, ap, ◌∙◌, arith, refl,
  Chars, length, Result, ok, err, Bool-cases, Result-cases, inl, inr,
}
use foia_search_mcp.Cache.{CacheEntry}
use foia_search_mcp.Redirect.Url.{UrlApi, Request, Response}
use foia_search_mcp.Redirect.Validate.{RedirectPolicy, deny, follow, validate_redirect_location}
use foia_search_mcp.Redirect.Follow.{
  Hop, stop, onward, receive, redirected, after, Run, hop_loop, send_with_redirects,
  RedirectFollowError, max_hops_of, build_request, is_follow_redirect_status,
}

module _ {Url : Type 0} (api : UrlApi Url) (send : ℕ → Request Url → Result Chars Response) where
  after-length :
      (sent : Request Url) (h : Hop Url) (more : Url → Run api) (n : ℕ)
      → ((u : Url) → length (more u).0 ≤ n)
      → (1 ≤ length (after api sent h more).0) × (length (after api sent h more).0 ≤ suc n)
  after-length sent (stop r) more n h = ground arith
  after-length sent (onward u) more n h = ground (arith, h u)

  hop_loop-length :
      (policy : RedirectPolicy) (initial : Url) (cached : Option CacheEntry) (agent : Chars)
      (n hop : ℕ) (current : Url)
      → length (hop_loop api send policy initial cached agent n hop current).0 ≤ n
  unfolding hop_loop
  hop_loop-length policy initial cached agent zero hop current = omega arith
  hop_loop-length policy initial cached agent (suc n) hop current =
      (after-length (build_request api cached agent hop current)
        (receive api policy initial hop current
          (send hop (build_request api cached agent hop current)))
        (λ u. hop_loop api send policy initial cached agent n (suc hop) u) n
        (λ u. hop_loop-length policy initial cached agent n (suc hop) u)).1

  -- A download sends at least one request, and at most one more than the redirects that its policy
  -- lets it follow: under the policy Deny exactly one.
  pub send-length :
      (initial : Url) (cached : Option CacheEntry) (policy : RedirectPolicy) (agent : Chars)
      → (1 ≤ length (send_with_redirects api send initial cached policy agent).0)
        × (length (send_with_redirects api send initial cached policy agent).0
            ≤ suc (max_hops_of policy))
  unfolding send_with_redirects hop_loop
  send-length initial cached policy agent =
      after-length (build_request api cached agent 0 initial)
        (receive api policy initial 0 initial (send 0 (build_request api cached agent 0 initial)))
        (λ u. hop_loop api send policy initial cached agent (max_hops_of policy) 1 u)
        (max_hops_of policy)
        (λ u. hop_loop-length policy initial cached agent (max_hops_of policy) 1 u)

  -- A redirecting response that stops the run stops it with an error.
  redirected-stop :
      (policy : RedirectPolicy) (initial : Url) (hop : ℕ) (current : Url) (location : Option Chars)
      (r : Response × Url)
      → redirected api policy initial hop current location ≡ stop (ok r)
      → ⊥
  redirected-stop deny initial hop current location r e = ground arith
  redirected-stop (follow p) initial hop current none r e = ground arith
  redirected-stop (follow p) initial hop current (some l) r e =
      ground (arith, Result-cases (validate_redirect_location api (follow p) initial current l))

  -- The response of a run that ends well, and the request it answers.
  abbrev pub IsAnswered : ℕ → Request Url → List (Request Url) → Response × Url → Type 0
  IsAnswered hop sent [] (response, url) =
      (send hop sent ≡ ok response)
      × (is_follow_redirect_status response.status ≡ false)
      × (url ≡ sent.url)
  IsAnswered hop sent (next ∷ rest) r = IsAnswered (suc hop) next rest r

  pub receive-redirect :
      (policy : RedirectPolicy) (initial : Url) (hop : ℕ) (current : Url) (a : Response)
      → is_follow_redirect_status a.status ≡ true
      → receive api policy initial hop current (ok a)
        ≡ redirected api policy initial hop current a.headers.location
  receive-redirect policy initial hop current a e = rw e refl

  pub receive-final :
      (policy : RedirectPolicy) (initial : Url) (hop : ℕ) (current : Url) (a : Response)
      → is_follow_redirect_status a.status ≡ false
      → receive api policy initial hop current (ok a) ≡ stop (ok (a, current))
  receive-final policy initial hop current a e = rw e refl

  stop_injective :
      {x y : Result RedirectFollowError (Response × Url)} → Path (Hop Url) (stop x) (stop y) → x ≡ y
  stop_injective e = ground arith

  receive-stop :
      (policy : RedirectPolicy) (initial : Url) (hop : ℕ) (current : Url)
      (answer : Result Chars Response) (response : Response) (url : Url)
      → receive api policy initial hop current answer ≡ stop (ok (response, url))
      → (answer ≡ ok response)
        × (is_follow_redirect_status response.status ≡ false)
        × (url ≡ current)
  receive-stop policy initial hop current (err e) response url h = ground arith
  receive-stop policy initial hop current (ok a) response url h =
      elim (Bool-cases (is_follow_redirect_status a.status)) [
        | inl away ↦ absurd (
            redirected-stop policy initial hop current a.headers.location (response, url)
              (sym (receive-redirect policy initial hop current a away) ∙ h))
        | inr final ↦
            let e : Path (Result RedirectFollowError (Response × Url)) (ok (a, current))
                (ok (response, url)) =
              stop_injective (sym (receive-final policy initial hop current a final) ∙ h) in
            let same : a ≡ response = ground arith in
            (ap ok same, rw (sym same) final, ground arith)
      ]

  after-IsAnswered :
      (hop : ℕ) (sent : Request Url) (h : Hop Url) (more : Url → Run api) (r : Response × Url)
      → (h ≡ stop (ok r) → IsAnswered hop sent [] r)
      → ((u : Url)
          → (more u).1 ≡ ok r
          → (next : Request Url) × (rest : List (Request Url)) × ((more u).0 ≡ next ∷ rest)
            × IsAnswered (suc hop) next rest r)
      → (after api sent h more).1 ≡ ok r
      → (rest : List (Request Url)) × ((after api sent h more).0 ≡ sent ∷ rest)
        × IsAnswered hop sent rest r
  after-IsAnswered hop sent (stop result) more r here later e = ([], refl, here (ap stop e))
  after-IsAnswered hop sent (onward u) more r here later e =
      let (next, rest, same, answered) = later u e in
      (next ∷ rest, ap (λ t. sent ∷ t) same, answered)

  hop_loop-IsAnswered :
      (policy : RedirectPolicy) (initial : Url) (cached : Option CacheEntry) (agent : Chars)
      (n hop : ℕ) (current : Url) (response : Response) (url : Url)
      → (hop_loop api send policy initial cached agent (suc n) hop current).1 ≡ ok (response, url)
      → (rest : List (Request Url)) × ((hop_loop api send policy initial cached agent
            (suc n)
            hop
            current).0
          ≡ build_request api cached agent hop current ∷ rest)
        × IsAnswered hop (build_request api cached agent hop current) rest (response, url)
  unfolding hop_loop
  hop_loop-IsAnswered policy initial cached agent zero hop current response url =
      after-IsAnswered hop (build_request api cached agent hop current)
        (receive api policy initial hop current
          (send hop (build_request api cached agent hop current)))
        (λ u. hop_loop api send policy initial cached agent zero (suc hop) u) (response, url)
        (receive-stop policy initial hop current
          (send hop (build_request api cached agent hop current)) response url)
        (λ u e. ground arith)
  hop_loop-IsAnswered policy initial cached agent (suc n) hop current response url =
      after-IsAnswered hop (build_request api cached agent hop current)
        (receive api policy initial hop current
          (send hop (build_request api cached agent hop current)))
        (λ u. hop_loop api send policy initial cached agent (suc n) (suc hop) u) (response, url)
        (receive-stop policy initial hop current
          (send hop (build_request api cached agent hop current)) response url)
        (λ u e.
          let (rest, same, answered) =
            hop_loop-IsAnswered policy initial cached agent n (suc hop) u response url e in
          (build_request api cached agent (suc hop) u, rest, same, answered))

  -- A download that returns a response returns what was answered to its last request, with that
  -- request's URL, and the status is none of the redirects; the first request is for the initial URL.
  pub send-IsAnswered :
      (initial : Url) (cached : Option CacheEntry) (policy : RedirectPolicy) (agent : Chars)
      (response : Response) (url : Url)
      → (send_with_redirects api send initial cached policy agent).1 ≡ ok (response, url)
      → (rest : List (Request Url)) × ((send_with_redirects api send initial cached policy agent).0
          ≡ build_request api cached agent 0 initial ∷ rest)
        × IsAnswered 0 (build_request api cached agent 0 initial) rest (response, url)
  unfolding send_with_redirects
  send-IsAnswered initial cached policy agent response url e =
      hop_loop-IsAnswered policy initial cached agent (max_hops_of policy) 0 initial response url e
