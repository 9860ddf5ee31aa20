-- ===== src/Chunk/Examples.antt =====
-- Three pages in chunks of at most four words.
use foia_search_mcp.Prelude.{
  ℕ, List, [], ◌∷◌, ok, ◌≡◌, ◌≢◌, refl, All, Distinct, Chars, codes, arith, decimal,
}
use mathlib.Core.List.{flatten}
use foia_search_mcp.Chunk.Pages.{PageText, ChunkOptions, Chunk, chunk_pages}
use foia_search_mcp.Chunk.Groups.{number_chunks, target_of}
use foia_search_mcp.Chunk.Partition.{IsGreedy, chunk_pages-IsGreedy}
use foia_search_mcp.Chunk.Ids.{chunk_pages-Distinct}
use foia_search_mcp.Chunk.Ranges.{RangesFrom, chunk_pages-RangesFrom}

abbrev page : ℕ → Chars → PageText
page n s = record { page_number = n; text = s }

abbrev three_pages : List PageText
three_pages =
    page 1 (codes "alpha beta") ∷ page 2 (codes " gamma delta ") ∷ page 3 (codes "epsilon") ∷ []

abbrev four_words : ChunkOptions
four_words = record { target_tokens = 4 }

abbrev two_chunks : List Chunk
two_chunks =
    record {
      chunk_id = "chunk-0001";
      page_start = 1;
      page_end = 2;
      text = codes "alpha beta\n\ngamma delta";
      token_estimate = 4;
    }
    ∷ record {
      chunk_id = "chunk-0002";
      page_start = 3;
      page_end = 3;
      text = codes "epsilon";
      token_estimate = 1;
    }
    ∷ []

chunked : chunk_pages three_pages four_words ≡ ok two_chunks
unfolding chunk_pages decimal
chunked = refl

chunk_pages-IsGreedy_example :
    (gs : List (List PageText)) × (two_chunks ≡ number_chunks 1 gs)
    × (flatten gs ≡ three_pages)
    × All (λ g. g ≢ []) gs
    × IsGreedy (target_of four_words) gs
chunk_pages-IsGreedy_example = chunk_pages-IsGreedy three_pages four_words two_chunks chunked

chunk_pages-Distinct_example : Distinct (λ (c : Chunk). c.chunk_id) two_chunks
chunk_pages-Distinct_example = chunk_pages-Distinct three_pages four_words two_chunks chunked

chunk_pages-RangesFrom_example : RangesFrom 0 two_chunks
chunk_pages-RangesFrom_example =
    chunk_pages-RangesFrom three_pages four_words two_chunks (omega arith) chunked
