-- ===== src/Ingest/Accepts.antt =====
-- An ingestion whose document is accepted goes through: its pages and chunks violate no constraint.
use foia_search_mcp.Prelude.{
  ℕ, ◌^◌, ◌<◌, String, Bool, true, false, ◌&&◌, Option, List, [], ◌∷◌, ◌++◌, ◌==◌, ltb, any, map,
  eq_iff, All, All-impl, All-append, Distinct, codes, Bool-cases, inl, inr, ◌≡◌, ◌≢◌, refl, arith,
  ok,
}
use foia_search_mcp.Chunk.Pages.{PageText, ChunkOptions, Chunk, chunk_pages}
use foia_search_mcp.Chunk.Ids.{chunk_pages-Distinct}
use foia_search_mcp.Chunk.Ranges.{RisesFrom, RangesFrom, chunk_pages-RangesFrom}
use foia_search_mcp.Documents.Tables.{
  TextSource, DocumentRow, PageRow, ChunkRow, FtsRow, Database, StoredDocument, ensure_json_array,
  ensure_json_object,
}
use foia_search_mcp.Documents.Write.{
  read_document, get_document_by_key, page_row, is_page, insert_page, insert_pages, chunk_row,
  is_chunk, fts_row, insert_chunk, insert_chunks, replace_in, checked_document, upsert_document,
  replace_pages_and_chunks,
}
use foia_search_mcp.Documents.Columns.{write_document-KeysOk}
use foia_search_mcp.Documents.Upsert.{checked-write, put_document-IsPut}
use foia_search_mcp.Documents.Replace.{other_pages, other_chunks, other_entries}
use foia_search_mcp.Extract.FormFeed.{ExtractedText}
use foia_search_mcp.Ingest.Pipeline.{
  IngestDocument, IngestOutcome, page_input, page_inputs, chunk_input, chunk_inputs, upsert_of,
  outcome_of, prepare, source_or, ingest_extracted_text,
}

array_ok : ensure_json_array "warnings_json" (codes "[]") ≡ ok tt
unfolding ensure_json_array
array_ok = refl

object_ok : ensure_json_object "metadata_json" (codes "{}") ≡ ok tt
unfolding ensure_json_object
object_ok = refl

-- No page of the document is numbered above `k`.
abbrev NoneAbove : ℕ → ℕ → List PageRow → Type 0
NoneAbove id k rows = All (λ r. (r.document_id == id && ltb k r.page_number) ≡ false) rows

NoneAbove-any :
    (id k n : ℕ) (rows : List PageRow)
    → k < n
    → NoneAbove id k rows
    → any (is_page id n) rows ≡ false
NoneAbove-any id k n [] above h = refl
NoneAbove-any id k n (r ∷ rows) above h = ground (arith, h.0, NoneAbove-any id k n rows above h.1)

pages-through :
    (id k : ℕ) (key : String) (source : TextSource) (pages : List PageText) (rows : List PageRow)
    → RisesFrom k pages
    → NoneAbove id k rows
    → (after : List PageRow) × (insert_pages id (map (page_input key source) pages) rows ≡ ok after)
unfolding insert_pages insert_page
pages-through id k key source [] rows rises none_above = (rows, refl)
pages-through id k key source (p ∷ pages) rows rises none_above =
    let positive : (p.page_number == 0) ≡ false = ground (arith, rises.0) in
    let new = NoneAbove-any id k p.page_number rows rises.0 none_above in
    let (after, through) =
      pages-through id p.page_number key source pages
        (rows ++ page_row id (page_input key source p) ∷ []) rises.1
        (All-append _ rows _ (All-impl rows (λ r h. ground (arith, rises.0)) none_above)
          (ground arith, tt)) in
    (after, rw (array_ok, insert_page, positive, new) through)

any-end :
    (p : ChunkRow → Bool) (rows : List ChunkRow) (r : ChunkRow)
    → any p rows ≡ false
    → p r ≡ false
    → any p (rows ++ r ∷ []) ≡ false
any-end p [] r h e = ground arith
any-end p (s ∷ rows) r h e = ground (arith, any-end p rows r)

abbrev NoneNamed : ℕ → List Chunk → List ChunkRow → Type 0
NoneNamed id cs rows = All (λ (c : Chunk). any (is_chunk id c.chunk_id) rows ≡ false) cs

NoneNamed-end :
    (id : ℕ) (key : String) (c : Chunk) (cs : List Chunk) (rows : List ChunkRow)
    → All (λ (d : Chunk). d.chunk_id ≢ c.chunk_id) cs
    → NoneNamed id cs rows
    → NoneNamed id cs (rows ++ chunk_row id (chunk_input key c) ∷ [])
NoneNamed-end id key c [] rows apart h = tt
NoneNamed-end id key c (d ∷ cs) rows apart h = (
  any-end (is_chunk id d.chunk_id) rows _ h.0
      (ground (arith, apart.0, eq_iff c.chunk_id d.chunk_id)),
  NoneNamed-end id key c cs rows apart.1 h.1,
)

chunks-through :
    (doc : StoredDocument) (k : ℕ) (key : String) (cs : List Chunk) (rows : List ChunkRow)
    (fts : List FtsRow)
    → RangesFrom k cs
    → Distinct (λ (c : Chunk). c.chunk_id) cs
    → NoneNamed doc.id cs rows
    → (after : List ChunkRow × List FtsRow) × (insert_chunks doc (map (chunk_input key) cs) rows fts
        ≡ ok after)
unfolding insert_chunks insert_chunk
chunks-through doc k key [] rows fts ranges apart new = ((rows, fts), refl)
chunks-through doc k key (c ∷ cs) rows fts ranges apart new =
    let positive : (c.page_start == 0) ≡ false = ground (arith, ranges.0) in
    let ordered : ltb c.page_end c.page_start ≡ false = ground (arith, ranges.1) in
    let (after, through) =
      chunks-through doc c.page_end key cs (rows ++ chunk_row doc.id (chunk_input key c) ∷ [])
        (fts ++ fts_row doc (chunk_input key c) ∷ []) ranges.2 apart.1
        (NoneNamed-end doc.id key c cs rows apart.0 new.1) in
    (after, rw (object_ok, insert_chunk, positive, ordered, new.0) through)

cleared-pages : (id : ℕ) (rows : List PageRow) → NoneAbove id 0 (other_pages id rows)
cleared-pages id [] = tt
cleared-pages id (r ∷ rows) = elim (Bool-cases (r.document_id == id)) [
  | inl gone ↦ rw gone (cleared-pages id rows)
  | inr left_ ↦ rw left_ (rw left_ refl, cleared-pages id rows)
]

cleared-chunk :
    (id : ℕ) (name : String) (rows : List ChunkRow)
    → any (is_chunk id name) (other_chunks id rows) ≡ false
cleared-chunk id name [] = refl
cleared-chunk id name (r ∷ rows) = ground (arith, cleared-chunk id name rows)

cleared-chunks :
    (id : ℕ) (cs : List Chunk) (rows : List ChunkRow) → NoneNamed id cs (other_chunks id rows)
cleared-chunks id [] rows = tt
cleared-chunks id (c ∷ cs) rows = (cleared-chunk id c.chunk_id rows, cleared-chunks id cs rows)

abbrev pub Fits : Chunk → Type 0
Fits c = ltb c.token_estimate (2 ^ 63) ≡ true

inputs-fit :
    (key : String) (cs : List Chunk)
    → All Fits cs
    → chunk_inputs key cs ≡ ok (map (chunk_input key) cs)
unfolding chunk_inputs
inputs-fit key [] h = refl
inputs-fit key (c ∷ cs) h = rw (h.0, inputs-fit key cs h.1) refl

-- A replacement of a stored document's text goes through.
replace-through :
    (r : DocumentRow) (key : String) (source : TextSource) (pages : List PageText) (cs : List Chunk)
    (db : Database)
    → get_document_by_key key db.documents ≡ ok (read_document r)
    → RisesFrom 0 pages
    → RangesFrom 0 cs
    → Distinct (λ (c : Chunk). c.chunk_id) cs
    → (after : Database) × (replace_pages_and_chunks key
          (map (page_input key source) pages)
          (map (chunk_input key) cs)
          db
        ≡ (after, ok tt))
unfolding replace_pages_and_chunks replace_in
replace-through r key source pages cs db found rises ranges apart =
    let (page_rows, paged) =
      pages-through r.id 0 key source pages (other_pages r.id db.pages) rises
        (cleared-pages r.id db.pages) in
    let (rest, chunked) =
      chunks-through (read_document r) 0 key cs (other_chunks r.id db.chunks)
        (other_entries key db.chunk_fts) ranges apart (cleared-chunks r.id cs db.chunks) in
    (
      record db { pages = page_rows; chunks = rest.0; chunk_fts = rest.1 },
      rw (replace_pages_and_chunks, found, replace_in, paged, chunked) refl,
    )

-- If the row of the document is accepted, the page numbers rise from 1 on, the pages are chunked, and
-- each estimate of tokens fits an i64, then the ingestion succeeds.
pub ingest_accepts :
    (document : IngestDocument) (options : ChunkOptions) (extracted : ExtractedText)
    (text_source : Option TextSource) (db : Database) (rows : List DocumentRow)
    (chunks : List Chunk)
    → checked_document (upsert_of document) db.documents ≡ ok rows
    → RisesFrom 0 extracted.pages
    → chunk_pages extracted.pages options ≡ ok chunks
    → All Fits chunks
    → (after : Database) × (outcome : IngestOutcome) × (ingest_extracted_text document options
          extracted text_source db
        ≡ (after, ok outcome))
unfolding ingest_extracted_text prepare upsert_document get_document_by_key
ingest_accepts document options extracted text_source db rows chunks accepted rises chunked fits =
    let key = document.document_key in
    let d = upsert_of document in
    let inputs = map (chunk_input key) chunks in
    let same =
      (write_document-KeysOk d db.documents rows (checked-write d db.documents rows accepted)).0 in
    let (r, (found, _, _)) = put_document-IsPut d db.documents in
    let there : get_document_by_key key rows ≡ ok (read_document r) =
      rw (same, get_document_by_key, found) refl in
    let (after, through) =
      replace-through r key (source_or text_source document.text_source) extracted.pages chunks
        (record db { documents = rows }) there rises
        (chunk_pages-RangesFrom extracted.pages options chunks rises chunked)
        (chunk_pages-Distinct extracted.pages options chunks chunked) in
    (
      after,
      outcome_of document (page_inputs document text_source extracted.pages) inputs
          extracted.warnings,
      rw
          (
            ingest_extracted_text,
            prepare,
            chunked,
            inputs-fit key chunks fits,
            upsert_document,
            accepted,
            there,
            through,
          )
          refl,
    )
