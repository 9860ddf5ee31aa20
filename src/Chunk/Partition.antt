-- ===== src/Chunk/Partition.antt =====
-- What the groups are: a partition of the pages that fills each chunk as far as it goes.
use foia_search_mcp.Prelude.{
  ℕ, ◌+◌, ◌≤◌, ◌<◌, List, [], ◌∷◌, ◌++◌, ltb, length, ok, ◌≡◌, ◌≢◌, refl, ◌⊎◌, inl, inr, arith,
  append_assoc, All, Bool-cases, all,
}
use mathlib.Core.List.{flatten, cons-ne-nil}
use foia_search_mcp.Chunk.Pages.{PageText, ChunkOptions, Chunk, chunk_pages, estimate_tokens}
use foia_search_mcp.Chunk.Groups.{
  groups, number_chunks, numbered, words, words-append, target_of, chunk_pages-chunks_of,
}

-- A group has no more words than the target, or is a single page.
abbrev pub Fits : ℕ → List PageText → Type 0
Fits target g = (words g ≤ target) ⊎ (length g ≡ 1)

-- Each group fits, and would not with the first page of the next group.
abbrev pub IsGreedy : ℕ → List (List PageText) → Type 0
IsGreedy target [] = Unit {0}
IsGreedy target (g ∷ []) = Fits target g
IsGreedy target (g ∷ [] ∷ gs) = ⊥
IsGreedy target (g ∷ (p ∷ ps) ∷ gs) =
    Fits target g × (target < words g + estimate_tokens p.text) × IsGreedy target ((p ∷ ps) ∷ gs)

flatten-groups :
    (target : ℕ) (pages group : List PageText) (tokens : ℕ)
    → flatten (groups target pages group tokens) ≡ group ++ pages
unfolding flatten
flatten-groups target [] group tokens = refl
flatten-groups target (p ∷ ps) group tokens =
    let n = estimate_tokens p.text in
    ground (
      arith,
      flatten-groups target ps (p ∷ []) n,
      flatten-groups target ps (group ++ p ∷ []) (tokens + n),
      append_assoc group (p ∷ []) ps,
    )

-- The first of the groups begins as the open group does.
groups-head :
    (target : ℕ) (pages : List PageText) (p : PageText) (ps : List PageText) (tokens : ℕ)
    → (qs : List PageText) × (gs : List (List PageText)) × (groups target pages (p ∷ ps) tokens
        ≡ (p ∷ qs) ∷ gs)
groups-head target [] p ps tokens = (ps, [], refl)
groups-head target (x ∷ xs) p ps tokens =
    let n = estimate_tokens x.text in
    elim (Bool-cases (ltb target (tokens + n))) [
      | inl over ↦ (ps, groups target xs (x ∷ []) n, rw over)
      | inr fits ↦
          let (qs, gs, e) = groups-head target xs p (ps ++ x ∷ []) (tokens + n) in
          (qs, gs, rw fits e)
    ]

groups-IsGreedy :
    (target : ℕ) (pages : List PageText) (p : PageText) (ps : List PageText) (tokens : ℕ)
    → tokens ≡ words (p ∷ ps)
    → Fits target (p ∷ ps)
    → IsGreedy target (groups target pages (p ∷ ps) tokens)
groups-IsGreedy target [] p ps tokens e fit = fit
groups-IsGreedy target (x ∷ xs) p ps tokens e fit =
    let n = estimate_tokens x.text in
    elim (Bool-cases (ltb target (tokens + n))) [
      | inl over ↦
          let (qs, gs, first) = groups-head target xs x [] n in
          let rest = groups-IsGreedy target xs x [] n (omega arith) (inr refl) in
          rw (over, first) (fit, ground arith, rw first at rest)
      | inr fits ↦ rw fits (
          groups-IsGreedy target xs p (ps ++ x ∷ []) (tokens + n)
            (omega (arith, words-append ps (x ∷ [])))
            (inl (ground (arith, words-append ps (x ∷ [])))))
    ]

groups-ne-nil :
    (target : ℕ) (pages : List PageText) (p : PageText) (ps : List PageText) (tokens : ℕ)
    → All (λ g. g ≢ []) (groups target pages (p ∷ ps) tokens)
groups-ne-nil target [] p ps tokens = (cons-ne-nil p ps, tt)
groups-ne-nil target (x ∷ xs) p ps tokens =
    let n = estimate_tokens x.text in
    elim (Bool-cases (ltb target (tokens + n))) [
      | inl over ↦ rw over (cons-ne-nil p ps, groups-ne-nil target xs x [] n)
      | inr fits ↦ rw fits (groups-ne-nil target xs p (ps ++ x ∷ []) (tokens + n))
    ]

-- A successful chunking is a greedy partition of the pages: in order, every page once, each chunk
-- built of one group, which is not empty, and numbered from 1.
pub chunk_pages-IsGreedy :
    (pages : List PageText) (options : ChunkOptions) (chunks : List Chunk)
    → chunk_pages pages options ≡ ok chunks
    → (gs : List (List PageText)) × (chunks ≡ number_chunks 1 gs)
      × (flatten gs ≡ pages)
      × All (λ g. g ≢ []) gs
      × IsGreedy (target_of options) gs
chunk_pages-IsGreedy [] options chunks h = absurd (ground (arith, chunk_pages-chunks_of [] options))
chunk_pages-IsGreedy (p ∷ ps) options chunks h =
    let T = target_of options in
    let n = estimate_tokens p.text in
    elim (Bool-cases (all numbered (p ∷ ps))) [
      | inr bad ↦ absurd (ground (arith, chunk_pages-chunks_of (p ∷ ps) options))
      | inl fine ↦ (
        groups T ps (p ∷ []) n,
        ground (arith, chunk_pages-chunks_of (p ∷ ps) options),
        flatten-groups T ps (p ∷ []) n,
        groups-ne-nil T ps p [] n,
        groups-IsGreedy T ps p [] n (omega arith) (inr refl),
      )
    ]
