-- ===== src/Chunk/Ranges.antt =====
-- The page ranges of chunks, for pages in ascending order.
use foia_search_mcp.Prelude.{
  ℕ, ◌+◌, ◌≤◌, ◌<◌, List, [], ◌∷◌, ◌++◌, ok, ◌≡◌, ◌≢◌, refl, arith, All, last?,
}
use mathlib.Core.List.{flatten}
use foia_search_mcp.Chunk.Pages.{PageText, ChunkOptions, Chunk, chunk_pages, build_chunk, page_of}
use foia_search_mcp.Chunk.Groups.{number_chunks}
use foia_search_mcp.Chunk.Partition.{chunk_pages-IsGreedy}

-- Page numbers rise, from above `k` on.
abbrev pub RisesFrom : ℕ → List PageText → Type 0
RisesFrom k [] = Unit {0}
RisesFrom k (p ∷ ps) = (k < p.page_number) × RisesFrom p.page_number ps

-- The chunks cover page ranges that are in order and follow one another, from above page `k` on.
abbrev pub RangesFrom : ℕ → List Chunk → Type 0
RangesFrom k [] = Unit {0}
RangesFrom k (c ∷ cs) = (k < c.page_start) × (c.page_start ≤ c.page_end) × RangesFrom c.page_end cs

-- The number of the last page, `d` if there is none.
abbrev last_page : ℕ → List PageText → ℕ
last_page d [] = d
last_page d (p ∷ ps) = last_page p.page_number ps

last_page-last? :
    (d : ℕ) (p : PageText) (ps : List PageText)
    → page_of (last? (p ∷ ps)) d ≡ last_page p.page_number ps
last_page-last? d p [] = refl
last_page-last? d p (q ∷ ps) = last_page-last? d q ps

RisesFrom-append :
    (k : ℕ) (ps qs : List PageText)
    → RisesFrom k (ps ++ qs)
    → (k ≤ last_page k ps) × RisesFrom (last_page k ps) qs
RisesFrom-append k [] qs h = (omega arith, h)
RisesFrom-append k (p ∷ ps) qs h =
    let (le, rest) = RisesFrom-append p.page_number ps qs h.1 in (omega arith, rest)

number_chunks-RangesFrom :
    (k n : ℕ) (gs : List (List PageText))
    → RisesFrom k (flatten gs)
    → All (λ g. g ≢ []) gs
    → RangesFrom k (number_chunks n gs)
unfolding flatten build_chunk
number_chunks-RangesFrom k n [] h full = tt
number_chunks-RangesFrom k n ([] ∷ gs) h full = absurd (full.0 refl)
number_chunks-RangesFrom k n ((p ∷ ps) ∷ gs) h full =
    let (le, rest) = RisesFrom-append p.page_number ps (flatten gs) h.1 in
    rw (last_page-last? p.page_number p ps)
      (h.0, le, number_chunks-RangesFrom _ (n + 1) gs rest full.1)

-- Where the page numbers rise, every chunk covers a range from a page above 0 to one not before it, as
-- the table's CHECK constraints ask, and each chunk begins after the one before it ends.
pub chunk_pages-RangesFrom :
    (pages : List PageText) (options : ChunkOptions) (chunks : List Chunk)
    → RisesFrom 0 pages
    → chunk_pages pages options ≡ ok chunks
    → RangesFrom 0 chunks
chunk_pages-RangesFrom pages options chunks rises h =
    let (gs, e, whole, full, greedy) = chunk_pages-IsGreedy pages options chunks h in
    rw e (number_chunks-RangesFrom 0 1 gs (rw whole rises) full)
