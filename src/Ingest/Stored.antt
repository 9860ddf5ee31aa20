-- ===== src/Ingest/Stored.antt =====
-- What an ingestion leaves in the store.
use foia_search_mcp.Prelude.{
  ◌^◌, ltb, String, Option, some, List, [], ◌∷◌, ◌≡◌, refl, sym, ap, ◌∙◌, arith, Result, ok, err,
  ◌>>=◌, map, find, Result-cases, inl, inr, bind_ok, ok_injective, if_eq,
}
use mathlib.Core.Option.{some-injective}
use foia_search_mcp.Store.{StoreError}
use foia_search_mcp.Chunk.Pages.{PageText, ChunkOptions, Chunk, chunk_pages}
use foia_search_mcp.Documents.Tables.{
  TextSource, DocumentRow, PageInput, ChunkInput, Database, StoredDocument,
}
use foia_search_mcp.Documents.Write.{
  has_document_key, put_document, upsert_document, replace_pages_and_chunks,
}
use foia_search_mcp.Documents.Replace.{replaced, IsReplacement, replace-IsReplacement}
use foia_search_mcp.Documents.Upsert.{IsUpsert, upsert_document-IsUpsert}
use foia_search_mcp.Extract.FormFeed.{ExtractedText}
use foia_search_mcp.Ingest.Pipeline.{
  IngestDocument, IngestOutcome, IngestError, page_inputs, chunk_input, chunk_inputs, upsert_of,
  outcome_of, prepare, replace_text, conclude, ingest_extracted_text,
}

chunk_inputs-ok :
    (key : String) (cs : List Chunk) (inputs : List ChunkInput)
    → chunk_inputs key cs ≡ ok inputs
    → inputs ≡ map (chunk_input key) cs
unfolding chunk_inputs
chunk_inputs-ok key [] inputs h = sym (ok_injective h)
chunk_inputs-ok key (c ∷ cs) inputs h =
    elim (if_eq (ltb c.token_estimate (2 ^ 63))
      (chunk_inputs key cs >>= λ rest. ok (chunk_input key c ∷ rest)) _ _ h) [
        | inr (_, e) ↦ absurd (ground arith)
        | inl (_, e) ↦
            let (rest, h0, h1) = bind_ok (chunk_inputs key cs) _ inputs e in
            sym (ok_injective h1) ∙ ap (λ t. chunk_input key c ∷ t) (chunk_inputs-ok key cs rest h0)
      ]

prepare-ok :
    (document : IngestDocument) (options : ChunkOptions) (pages : List PageText)
    (inputs : List ChunkInput)
    → prepare document options pages ≡ ok inputs
    → (chunks : List Chunk) × (chunk_pages pages options ≡ ok chunks)
      × (inputs ≡ map (chunk_input document.document_key) chunks)
unfolding prepare
prepare-ok document options pages inputs h = elim (Result-cases (chunk_pages pages options)) [
  | inr (e, failed) ↦ absurd (ground arith)
  | inl (chunks, chunked) ↦
      (chunks, chunked, chunk_inputs-ok document.document_key chunks inputs (ground arith))
]

module _ (document : IngestDocument) (options : ChunkOptions) (extracted : ExtractedText)
    (text_source : Option TextSource) (db : Database) where
  abbrev key : String
  key = document.document_key

  abbrev pages : List PageInput
  pages = page_inputs document text_source extracted.pages

  -- The tables hold the document's columns under its key, and its pages and chunks.
  abbrev pub HoldsText : Database → List ChunkInput → Type 0
  HoldsText after inputs =
      (r : DocumentRow) × (find (has_document_key key) after.documents ≡ some r)
      × (r.document ≡ upsert_of document)
      × (after
          ≡ replaced r key pages inputs
              (record db { documents = put_document (upsert_of document) db.documents }))

  abbrev pub IsIngestion : Database × Result IngestError IngestOutcome → Type 0
  IsIngestion (after, err e) =
      (after.pages ≡ db.pages)
      × (after.chunks ≡ db.chunks)
      × (after.chunk_fts ≡ db.chunk_fts)
      × (after.assets ≡ db.assets)
  IsIngestion (after, ok outcome) =
      (chunks : List Chunk) × (chunk_pages extracted.pages options ≡ ok chunks)
      × HoldsText after (map (chunk_input key) chunks)
      × (outcome ≡ outcome_of document pages (map (chunk_input key) chunks) extracted.warnings)

  conclude_lem :
      (inputs : List ChunkInput) (chunks : List Chunk) (between : Database)
      (stored : StoredDocument) (result : Database × Result StoreError (Unit {0}))
      → chunk_pages extracted.pages options ≡ ok chunks
      → inputs ≡ map (chunk_input key) chunks
      → IsUpsert (upsert_of document) db (between, ok stored)
      → IsReplacement key pages inputs between result
      → IsIngestion (conclude (outcome_of document pages inputs extracted.warnings) result)
  conclude_lem inputs chunks between stored (after, err e) chunked same (r, put, read, whole) done =
      rw (done, whole) (refl, refl, refl, refl)
  conclude_lem inputs chunks between stored (after, ok u) chunked same
        (r, (found, columns, _), read, whole) (s, found', done) =
      let one = some-injective s r (sym found' ∙ found) in
      (
        chunks,
        chunked,
        (
          s,
          ap (λ (x : Database). find (has_document_key key) x.documents) done ∙ found',
          ap (λ (x : DocumentRow). x.document) one ∙ columns,
          done ∙ rw (same, whole) refl,
        ),
        rw same refl,
      )

  replace_lem :
      (inputs : List ChunkInput) (chunks : List Chunk)
      (result : Database × Result StoreError StoredDocument)
      → chunk_pages extracted.pages options ≡ ok chunks
      → inputs ≡ map (chunk_input key) chunks
      → IsUpsert (upsert_of document) db result
      → IsIngestion (
          replace_text key pages inputs
            (outcome_of document pages inputs extracted.warnings)
            result)
  replace_lem inputs chunks (between, err e) chunked same done = rw done (refl, refl, refl, refl)
  replace_lem inputs chunks (between, ok stored) chunked same done =
      conclude_lem inputs chunks between stored (replace_pages_and_chunks key pages inputs between)
        chunked same done (replace-IsReplacement key pages inputs between)

  -- An ingestion that fails leaves the pages, the chunks, the index and the assets as they were. One
  -- that succeeds has chunked the pages: the row under the document's key has its columns, the
  -- document's pages and chunks are those of the text, each chunk has its entry in the index, the
  -- rows of other documents stay as they were, and the outcome counts the pages and the chunks.
  pub ingest-IsIngestion :
      IsIngestion (ingest_extracted_text document options extracted text_source db)
  unfolding ingest_extracted_text
  ingest-IsIngestion = elim (Result-cases (prepare document options extracted.pages)) [
    | inr (e, failed) ↦ rw (ingest_extracted_text, failed) (refl, refl, refl, refl)
    | inl (inputs, prepared) ↦
        let (chunks, chunked, same) = prepare-ok document options extracted.pages inputs prepared in
        rw (ingest_extracted_text, prepared)
          (replace_lem inputs chunks (upsert_document (upsert_of document) db) chunked same
            (upsert_document-IsUpsert (upsert_of document) db))
  ]
