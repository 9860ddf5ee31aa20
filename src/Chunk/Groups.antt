-- ===== src/Chunk/Groups.antt =====
-- The chunks are those of a greedy partition of the pages.
use foia_search_mcp.Prelude.{
  ℕ, ◌+◌, max, Bool, true, false, not, List, [], ◌∷◌, ◌++◌, ltb, ◌==◌, if◌then◌else◌, length, ok,
  err, ◌≡◌, refl, inl, inr, arith, append_assoc, All, Bool-cases, length-append, all, Result,
}
use foia_search_mcp.Chunk.Pages.{
  PageText, ChunkOptions, Chunk, ChunkError, empty_pages, invalid_page_number, estimate_tokens,
  build_chunk, close, chunk_loop, chunk_pages,
}

-- The pages in groups: a group is closed when the next page would take it over the target.
-- `group` is the open group and `tokens` its words.
abbrev pub groups : ℕ → List PageText → List PageText → ℕ → List (List PageText)
groups target [] group tokens = group ∷ []
groups target (page ∷ pages) group tokens =
    let n = estimate_tokens page.text in
    let closed = group ∷ groups target pages (page ∷ []) n in
    let open_ = groups target pages (group ++ page ∷ []) (tokens + n) in
    if ltb target (tokens + n) then closed else open_

-- The chunks of groups, numbered from `k`.
abbrev pub number_chunks : ℕ → List (List PageText) → List Chunk
number_chunks k [] = []
number_chunks k (g ∷ gs) = build_chunk k g ∷ number_chunks (k + 1) gs

abbrev pub numbered : PageText → Bool
numbered p = not (p.page_number == 0)

abbrev pub words : List PageText → ℕ
words [] = 0
words (p ∷ ps) = estimate_tokens p.text + words ps

pub words-append : (ps qs : List PageText) → words (ps ++ qs) ≡ words ps + words qs
words-append [] qs = omega arith
words-append (p ∷ ps) qs = omega (arith, words-append ps qs)

abbrev pub AllNumbered : List PageText → Type 0
AllNumbered = All (λ p. numbered p ≡ true)

-- From an open group on, the loop makes the chunks of the groups.
loop-groups :
    (target : ℕ) (pages : List PageText) (chunks : List Chunk) (g : PageText) (gs : List PageText)
    (tokens : ℕ)
    → AllNumbered pages
    → chunk_loop target pages chunks (g ∷ gs) tokens
      ≡ ok (chunks ++ number_chunks (length chunks + 1) (groups target pages (g ∷ gs) tokens))
unfolding chunk_loop
loop-groups target [] chunks g gs tokens h = refl
loop-groups target (p ∷ ps) chunks g gs tokens h =
    let n = estimate_tokens p.text in
    let chunk = build_chunk (length chunks + 1) (g ∷ gs) in
    elim (Bool-cases (ltb target (tokens + n))) [
      | inl over ↦ ground (
        arith,
        loop-groups target ps (chunks ++ chunk ∷ []) p [] n h.1,
        append_assoc chunks (chunk ∷ [])
            (number_chunks (length chunks + 1 + 1) (groups target ps (p ∷ []) n)),
        length-append chunks (chunk ∷ []),
      )
      | inr fits ↦ ground (arith, loop-groups target ps chunks g (gs ++ p ∷ []) (tokens + n) h.1)
    ]

-- A page numbered 0 stops the loop, wherever it stands.
loop-err :
    (target : ℕ) (pages : List PageText) (chunks : List Chunk) (current : List PageText)
    (tokens : ℕ)
    → all numbered pages ≡ false
    → chunk_loop target pages chunks current tokens ≡ err (invalid_page_number 0)
unfolding chunk_loop
loop-err target [] chunks current tokens h = cc
loop-err target (p ∷ ps) chunks current tokens h =
    let n = estimate_tokens p.text in
    elim (Bool-cases (p.page_number == 0)) [
      | inl zero_page ↦ ground arith
      | inr fine ↦ ground (
        arith,
        loop-err target ps (close chunks current) (p ∷ []) (0 + n),
        loop-err target ps chunks (current ++ p ∷ []) (tokens + n),
      )
    ]

all-All : (ps : List PageText) → all numbered ps ≡ true → AllNumbered ps
all-All [] h = tt
all-All (p ∷ ps) h = (ground arith, all-All ps (ground arith))

-- The first page opens a group, whatever its size.
first-step :
    (target : ℕ) (p : PageText) (ps : List PageText)
    → numbered p ≡ true
    → chunk_loop target (p ∷ ps) [] [] 0 ≡ chunk_loop target ps [] (p ∷ []) (estimate_tokens p.text)
unfolding chunk_loop
first-step target p ps h =
    let e : 0 + estimate_tokens p.text ≡ estimate_tokens p.text = omega arith in ground arith

abbrev pub target_of : ChunkOptions → ℕ
target_of options = max options.target_tokens 1

-- The chunks of a list of pages, or the reason why there are none: no pages, or a page numbered 0.
abbrev pub chunks_of : ChunkOptions → List PageText → Result ChunkError (List Chunk)
chunks_of options [] = err empty_pages
chunks_of options (p ∷ ps) =
    if all numbered (p ∷ ps)
    then ok (number_chunks 1 (groups (target_of options) ps (p ∷ []) (estimate_tokens p.text)))
    else err (invalid_page_number 0)

-- `chunk_pages` makes the chunks of the greedy groups, numbered from 1, and fails exactly on an empty
-- list of pages and on a page numbered 0.
pub chunk_pages-chunks_of :
    (pages : List PageText) (options : ChunkOptions)
    → chunk_pages pages options ≡ chunks_of options pages
unfolding chunk_pages
chunk_pages-chunks_of [] options = refl
chunk_pages-chunks_of (p ∷ ps) options =
    let T = target_of options in
    elim (Bool-cases (all numbered (p ∷ ps))) [
      | inr bad ↦ ground (arith, loop-err T (p ∷ ps) [] [] 0 bad)
      | inl fine ↦ ground (
        arith,
        first-step T p ps,
        loop-groups T ps [] p [] (estimate_tokens p.text) (all-All (p ∷ ps) fine).1,
      )
    ]
