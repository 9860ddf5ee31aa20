-- ===== src/Chunk/Pages.antt =====
-- `chunk_pages` and what it calls.
use foia_search_mcp.Prelude.{
  ℕ, ◌+◌, max, String, false, not, ◌&&◌, Option, none, some, List, [], ◌∷◌, ◌++◌, map, ltb, ◌==◌,
  if◌then◌else◌, length, is_empty, keep, head?, last?, Chars, codes, trim, count_words, format,
  pad4, Result, ok, err,
}

pub record PageText : Type 0 where
  pub page_number : ℕ  -- u32
  pub text : Chars

pub record ChunkOptions : Type 0 where
  pub target_tokens : ℕ

abbrev pub default_options : ChunkOptions
default_options = record { target_tokens = 800 }

pub record Chunk : Type 0 where
  pub chunk_id : String
  pub page_start : ℕ
  pub page_end : ℕ
  pub text : Chars
  pub token_estimate : ℕ

pub data ChunkError : Type 0 where
  empty_pages : ChunkError
  invalid_page_number : ℕ → ChunkError

unfoldable pub estimate_tokens : Chars → ℕ
unfolding count_words
estimate_tokens text = max (count_words false text) 1

-- `[T]::join` with a separator.
abbrev pub join : Chars → List Chars → Chars
join sep [] = []
join sep (s ∷ []) = s
join sep (s ∷ t ∷ r) = s ++ (sep ++ join sep (t ∷ r))

abbrev pub page_of : Option PageText → ℕ → ℕ
page_of none d = d
page_of (some p) d = p.page_number

unfoldable pub build_chunk : ℕ → List PageText → Chunk
unfolding trim pad4 estimate_tokens
build_chunk sequence pages =
    let page_start = page_of (head? pages) 1 in
    let text =
      join (codes "\n\n")
        (keep (λ t. not (is_empty t)) (map (λ (p : PageText). trim p.text) pages)) in
    record {
      chunk_id = format ("chunk-" ∷ pad4 sequence ∷ []);
      page_start = page_start;
      page_end = page_of (last? pages) page_start;
      text = text;
      token_estimate = estimate_tokens text;
    }

-- The end of `chunk_pages`: what is left in `current_pages` is one more chunk.
abbrev pub close : List Chunk → List PageText → List Chunk
close chunks [] = chunks
close chunks (p ∷ ps) = chunks ++ build_chunk (length chunks + 1) (p ∷ ps) ∷ []

-- The loop over the pages, on its variables `chunks`, `current_pages` and `current_tokens`.
unfoldable pub chunk_loop :
    ℕ → List PageText → List Chunk → List PageText → ℕ → Result ChunkError (List Chunk)
unfolding build_chunk estimate_tokens
chunk_loop target [] chunks current tokens = ok (close chunks current)
chunk_loop target (page ∷ pages) chunks current tokens =
    let page_tokens = estimate_tokens page.text in
    let flush = not (is_empty current) && ltb target (tokens + page_tokens) in
    let flushed = chunk_loop target pages (close chunks current) (page ∷ []) (0 + page_tokens) in
    let kept = chunk_loop target pages chunks (current ++ page ∷ []) (tokens + page_tokens) in
    if page.page_number == 0
    then err (invalid_page_number page.page_number)
    else if flush
    then flushed
    else kept

unfoldable pub chunk_pages : List PageText → ChunkOptions → Result ChunkError (List Chunk)
unfolding chunk_loop
chunk_pages [] options = err empty_pages
chunk_pages (p ∷ ps) options = chunk_loop (max options.target_tokens 1) (p ∷ ps) [] [] 0
