-- ===== src/Redirect/Safety.antt =====
-- What a run asks for.
use foia_search_mcp.Prelude.{
  ℕ, zero, suc, true, Option, none, some, List, [], ◌∷◌, ◌≡◌, sym, ◌∙◌, arith, refl, Chars, Result,
  ok, err, Bool-cases, Result-cases, inl, inr,
}
use foia_search_mcp.Cache.{CacheEntry}
use foia_search_mcp.Redirect.Url.{UrlApi, Request, Response}
use foia_search_mcp.Redirect.Validate.{RedirectPolicy, deny, follow, validate_redirect_location}
use foia_search_mcp.Redirect.Accept.{IsFollowable, validate-IsFollowable}
use foia_search_mcp.Redirect.Bounds.{receive-redirect, receive-final}
use foia_search_mcp.Redirect.Follow.{
  Hop, stop, onward, receive, redirected, after, Run, hop_loop, send_with_redirects, max_hops_of,
  build_request, is_follow_redirect_status,
}

module _ {Url : Type 0} (api : UrlApi Url) (send : ℕ → Request Url → Result Chars Response) where
  -- How a request leads to the next one's URL: it is answered by a redirect, whose `Location`
  -- resolves to the URL, which may be followed.
  abbrev pub LeadsTo : RedirectPolicy → Url → ℕ → Request Url → Url → Type 0
  LeadsTo policy initial hop sent next =
      (response : Response) × (location : Chars) × (send hop sent ≡ ok response)
      × (is_follow_redirect_status response.status ≡ true)
      × (response.headers.location ≡ some location)
      × (api.join sent.url location ≡ ok next)
      × IsFollowable api policy initial next

  -- The requests after one: each is led to by the one before, and has no validators.
  abbrev pub IsChain : RedirectPolicy → Url → Chars → ℕ → Request Url → List (Request Url) → Type 0
  IsChain policy initial agent hop sent [] = Unit {0}
  IsChain policy initial agent hop sent (next ∷ rest) =
      LeadsTo policy initial hop sent next.url
      × (next ≡ record {
        url = next.url;
        user_agent = agent;
        if_none_match = none;
        if_modified_since = none;
      })
      × IsChain policy initial agent (suc hop) next rest

  redirected-onward :
      (policy : RedirectPolicy) (initial : Url) (hop : ℕ) (current : Url) (location : Option Chars)
      (next : Url)
      → redirected api policy initial hop current location ≡ onward next
      → (l : Chars) × (location ≡ some l)
        × (validate_redirect_location api policy initial current l ≡ ok next)
  redirected-onward deny initial hop current location next e = ground arith
  redirected-onward (follow p) initial hop current none next e = ground arith
  redirected-onward (follow p) initial hop current (some l) next e = (
    l,
    refl,
    ground (arith, Result-cases (validate_redirect_location api (follow p) initial current l)),
  )

  receive-LeadsTo :
      (policy : RedirectPolicy) (initial : Url) (hop : ℕ) (sent : Request Url)
      (answer : Result Chars Response) (next : Url)
      → send hop sent ≡ answer
      → receive api policy initial hop sent.url answer ≡ onward next
      → LeadsTo policy initial hop sent next
  receive-LeadsTo policy initial hop sent (err e) next s h = ground arith
  receive-LeadsTo policy initial hop sent (ok a) next s h =
      elim (Bool-cases (is_follow_redirect_status a.status)) [
        | inr final ↦ ground (arith, receive-final api send policy initial hop sent.url a final)
        | inl away ↦
            let (l, given, valid) =
              redirected-onward policy initial hop sent.url a.headers.location next
                (sym (receive-redirect api send policy initial hop sent.url a away) ∙ h) in
            let accepted = (validate-IsFollowable api policy initial sent.url l next).0 valid in
            (a, l, s, away, given, accepted.0, accepted.1)
      ]

  after-IsChain :
      (policy : RedirectPolicy) (initial : Url) (agent : Chars) (hop : ℕ) (sent : Request Url)
      (h : Hop Url) (more : Url → Run api)
      → ((u : Url) → h ≡ onward u → IsChain policy initial agent hop sent (more u).0)
      → (rest : List (Request Url)) × ((after api sent h more).0 ≡ sent ∷ rest)
        × IsChain policy initial agent hop sent rest
  after-IsChain policy initial agent hop sent (stop r) more later = ([], refl, tt)
  after-IsChain policy initial agent hop sent (onward u) more later =
      ((more u).0, refl, later u refl)

  unconditional :
      (cached : Option CacheEntry) (agent : Chars) (hop : ℕ) (u : Url)
      → build_request api cached agent (suc hop) u
        ≡ record { url = u; user_agent = agent; if_none_match = none; if_modified_since = none }
  unconditional cached agent hop u = ground arith

  hop_loop-IsChain :
      (policy : RedirectPolicy) (initial : Url) (cached : Option CacheEntry) (agent : Chars)
      (n hop : ℕ) (sent : Request Url) (current : Url)
      → LeadsTo policy initial hop sent current
      → IsChain policy initial agent hop sent
          (hop_loop api send policy initial cached agent n (suc hop) current).0
  unfolding hop_loop
  hop_loop-IsChain policy initial cached agent zero hop sent current l = tt
  hop_loop-IsChain policy initial cached agent (suc n) hop sent current l =
      let next = build_request api cached agent (suc hop) current in
      let (rest, same, chain) =
        after-IsChain policy initial agent (suc hop) next
          (receive api policy initial (suc hop) current (send (suc hop) next))
          (λ u. hop_loop api send policy initial cached agent n (suc (suc hop)) u)
          (λ u e.
            hop_loop-IsChain policy initial cached agent n (suc hop) next u
              (receive-LeadsTo policy initial (suc hop) next (send (suc hop) next) u refl e)) in
      rw same (l, unconditional cached agent hop current, chain)

  -- The first request is for the initial URL, with the validators of the cached entry. Each request
  -- after it is led to by the one before: it was answered by a redirect whose `Location` resolves,
  -- against the URL of the request, to the new URL, and that is one which the policy lets follow. It
  -- bears the same user agent and none of the validators.
  pub send-IsChain :
      (initial : Url) (cached : Option CacheEntry) (policy : RedirectPolicy) (agent : Chars)
      → (rest : List (Request Url)) × ((send_with_redirects api send initial cached policy agent).0
          ≡ build_request api cached agent 0 initial ∷ rest)
        × IsChain policy initial agent 0 (build_request api cached agent 0 initial) rest
  unfolding send_with_redirects hop_loop
  send-IsChain initial cached policy agent =
      let first = build_request api cached agent 0 initial in
      after-IsChain policy initial agent 0 first
        (receive api policy initial 0 initial (send 0 first))
        (λ u. hop_loop api send policy initial cached agent (max_hops_of policy) 1 u)
        (λ u e.
          hop_loop-IsChain policy initial cached agent (max_hops_of policy) 0 first u
            (receive-LeadsTo policy initial 0 first (send 0 first) u refl e))
