-- ===== src/Chunk/Ids.antt =====
-- What the store asks of chunks: ids that differ within a document, and ranges of pages in order.
use text.Mathlib.TextLemmas.{append_cancel_left, append-nil}
use foia_search_mcp.Prelude.{
  ℕ, ◌+◌, ◌<◌, List, [], ◌∷◌, ok, ◌≡◌, ◌≢◌, sym, ◌∙◌, arith, All, Distinct, pad4, pad4_injective,
}
use foia_search_mcp.Chunk.Pages.{PageText, ChunkOptions, Chunk, chunk_pages, build_chunk}
use foia_search_mcp.Chunk.Groups.{number_chunks}
use foia_search_mcp.Chunk.Partition.{chunk_pages-IsGreedy}

chunk_id-injective :
    (m n : ℕ) (ps qs : List PageText)
    → (build_chunk m ps).chunk_id ≡ (build_chunk n qs).chunk_id
    → m ≡ n
unfolding build_chunk
chunk_id-injective m n ps qs h =
    pad4_injective m n
      (sym (append-nil (pad4 m)) ∙ append_cancel_left "chunk-" _ _ h ∙ append-nil (pad4 n))

-- The ids from number `k` on differ from that of any chunk with a smaller number.
ids_above :
    (k m : ℕ) (ps : List PageText) (gs : List (List PageText))
    → m < k
    → All (λ (c : Chunk). c.chunk_id ≢ (build_chunk m ps).chunk_id) (number_chunks k gs)
ids_above k m ps [] h = tt
ids_above k m ps (g ∷ gs) h = (
  (λ e. absurd (omega (arith, chunk_id-injective k m g ps e))),
  ids_above (k + 1) m ps gs (omega arith),
)

number_chunks-Distinct :
    (k : ℕ) (gs : List (List PageText)) → Distinct (λ (c : Chunk). c.chunk_id) (number_chunks k gs)
number_chunks-Distinct k [] = tt
number_chunks-Distinct k (g ∷ gs) =
    (ids_above (k + 1) k g gs (omega arith), number_chunks-Distinct (k + 1) gs)

-- The chunks of a document have different ids, so the table's UNIQUE constraint is met.
pub chunk_pages-Distinct :
    (pages : List PageText) (options : ChunkOptions) (chunks : List Chunk)
    → chunk_pages pages options ≡ ok chunks
    → Distinct (λ (c : Chunk). c.chunk_id) chunks
chunk_pages-Distinct pages options chunks h =
    let (gs, e, whole, full, greedy) = chunk_pages-IsGreedy pages options chunks h in
    rw e (number_chunks-Distinct 1 gs)
