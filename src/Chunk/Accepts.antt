-- ===== src/Chunk/Accepts.antt =====
-- Which pages are chunked.
use foia_search_mcp.Prelude.{
  ℕ, ◌+◌, false, not, ◌&&◌, List, [], ◌∷◌, ◌++◌, ◌≡◌, ◌≢◌, refl, inl, inr, arith, ok, Bool-cases,
  is_empty, ltb, ◌==◌, max,
}
use foia_search_mcp.Chunk.Pages.{
  PageText, ChunkOptions, Chunk, chunk_loop, chunk_pages, estimate_tokens, close,
}
use foia_search_mcp.Chunk.Ranges.{RisesFrom}

chunk_loop-ok :
    (k target : ℕ) (pages : List PageText) (chunks : List Chunk) (current : List PageText)
    (tokens : ℕ)
    → RisesFrom k pages
    → (result : List Chunk) × (chunk_loop target pages chunks current tokens ≡ ok result)
unfolding chunk_loop
chunk_loop-ok k target [] chunks current tokens h = (close chunks current, refl)
chunk_loop-ok k target (page ∷ pages) chunks current tokens h =
    let numbered : (page.page_number == 0) ≡ false = ground (arith, h.0) in
    let page_tokens = estimate_tokens page.text in
    elim (Bool-cases (not (is_empty current) && ltb target (tokens + page_tokens))) [
      | inl flush ↦
          let (result, e) =
            chunk_loop-ok page.page_number target pages (close chunks current) (page ∷ [])
              (0 + page_tokens) h.1 in
          (result, rw (numbered, flush) e)
      | inr kept ↦
          let (result, e) =
            chunk_loop-ok page.page_number target pages chunks (current ++ page ∷ [])
              (tokens + page_tokens) h.1 in
          (result, rw (numbered, kept) e)
    ]

-- Pages whose numbers rise from 1 on are chunked, if there is one.
pub chunk_pages-ok :
    (pages : List PageText) (options : ChunkOptions)
    → RisesFrom 0 pages
    → pages ≢ []
    → (chunks : List Chunk) × (chunk_pages pages options ≡ ok chunks)
unfolding chunk_pages
chunk_pages-ok [] options h full = absurd (full refl)
chunk_pages-ok (p ∷ ps) options h full =
    chunk_loop-ok 0 (max options.target_tokens 1) (p ∷ ps) [] [] 0 h
