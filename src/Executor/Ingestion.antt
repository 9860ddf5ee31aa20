-- ===== src/Executor/Ingestion.antt =====
-- The ingestion inside a run: it keeps the database's invariant, and its errors are its own.
use foia_search_mcp.Prelude.{
  String, false, Option, List, [], ◌∷◌, ◌≡◌, refl, inl, inr, Result, ok, err, Result-cases,
  Bool-cases, ltb, ◌^◌, ◌>>=◌,
}
use foia_search_mcp.Store.{StoreError}
use foia_search_mcp.Jobs.Table.{Jobs}
use foia_search_mcp.Documents.Write.{upsert_document, replace_pages_and_chunks}
use foia_search_mcp.Documents.Invariant.{DatabaseOk, execute_all-DatabaseOk, upsert, replace}
use foia_search_mcp.Chunk.Pages.{ChunkOptions, Chunk, PageText, chunk_pages}
use foia_search_mcp.Extract.FormFeed.{ExtractedText}
use foia_search_mcp.Documents.Tables.{Database, TextSource, PageInput, ChunkInput, StoredDocument}
use foia_search_mcp.Ingest.Pipeline.{
  IngestDocument, IngestOutcome, IngestError, ingest_extracted_text, upsert_of, page_inputs,
  prepare, conclude, replace_text, chunk_inputs, chunk_input,
}
use foia_search_mcp.Executor.Types.{ExecutorError, SqliteStore}
use foia_search_mcp.Executor.Run.{on_ingest}
use foia_search_mcp.Executor.Steps.{Meets, is_early, Before, After, Failed, After-Failed}

conclude-DatabaseOk :
    (outcome : IngestOutcome) (answer : Database × Result StoreError (Unit {0}))
    → DatabaseOk answer.0
    → DatabaseOk (conclude outcome answer).0
conclude-DatabaseOk outcome (db, ok u) good = good
conclude-DatabaseOk outcome (db, err e) good = good

replace_text-DatabaseOk :
    (key : String) (pages : List PageInput) (chunks : List ChunkInput) (outcome : IngestOutcome)
    (answer : Database × Result StoreError StoredDocument)
    → DatabaseOk answer.0
    → DatabaseOk (replace_text key pages chunks outcome answer).0
replace_text-DatabaseOk key pages chunks outcome (db, err e) good = good
replace_text-DatabaseOk key pages chunks outcome (db, ok stored) good =
    conclude-DatabaseOk outcome (replace_pages_and_chunks key pages chunks db)
      (execute_all-DatabaseOk (replace key pages chunks ∷ []) db good)

pub ingest-DatabaseOk :
    (document : IngestDocument) (options : ChunkOptions) (extracted : ExtractedText)
    (source : Option TextSource) (db : Database)
    → DatabaseOk db
    → DatabaseOk (ingest_extracted_text document options extracted source db).0
unfolding ingest_extracted_text
ingest-DatabaseOk document options extracted source db good =
    elim (Result-cases (prepare document options extracted.pages)) [
      | inr (e, h) ↦ rw (ingest_extracted_text, h) good
      | inl (chunks, h) ↦
          rw (ingest_extracted_text, h)
            (replace_text-DatabaseOk document.document_key
              (page_inputs document source extracted.pages) chunks _
              (upsert_document (upsert_of document) db)
              (execute_all-DatabaseOk (upsert (upsert_of document) ∷ []) db good))
    ]

-- The errors of the ingestion itself.
abbrev Late {ℓ} : {A : Type ℓ} → Result IngestError A → Type 0
Late (ok a) = Unit {0}
Late (err e) = is_early (ExecutorError.ingest e) ≡ false

chunk_inputs-Late : (key : String) (cs : List Chunk) → Late (chunk_inputs key cs)
unfolding chunk_inputs is_early
chunk_inputs-Late key [] = tt
chunk_inputs-Late key (c ∷ cs) = elim (Bool-cases (ltb c.token_estimate (2 ^ 63))) [
  | inr big ↦ rw big refl
  | inl fits ↦ rw fits (bound (chunk_inputs key cs) (chunk_inputs-Late key cs))
]
  where
    bound :
        (r : Result IngestError (List ChunkInput))
        → Late r
        → Late (r >>= λ rest. ok (chunk_input key c ∷ rest))
    bound (ok rest) h = tt
    bound (err e) h = h

prepare-Late :
    (document : IngestDocument) (options : ChunkOptions) (pages : List PageText)
    → Late (prepare document options pages)
unfolding prepare is_early
prepare-Late document options pages = elim (Result-cases (chunk_pages pages options)) [
  | inl (chunks, h) ↦ rw (prepare, h) (chunk_inputs-Late document.document_key chunks)
  | inr (e, h) ↦ rw (prepare, h) refl
]

replace_text-Late :
    (key : String) (pages : List PageInput) (chunks : List ChunkInput) (outcome : IngestOutcome)
    (answer : Database × Result StoreError StoredDocument)
    → Late (replace_text key pages chunks outcome answer).1
unfolding is_early
replace_text-Late key pages chunks outcome (db, err e) = refl
replace_text-Late key pages chunks outcome (db, ok stored) =
    concluded (replace_pages_and_chunks key pages chunks db)
  where
    concluded :
        (answer : Database × Result StoreError (Unit {0})) → Late (conclude outcome answer).1
    concluded (db', ok u) = tt
    concluded (db', err e) = refl

ingest-Late :
    (document : IngestDocument) (options : ChunkOptions) (extracted : ExtractedText)
    (source : Option TextSource) (db : Database)
    → Late (ingest_extracted_text document options extracted source db).1
unfolding ingest_extracted_text
ingest-Late document options extracted source db =
    elim (Result-cases (prepare document options extracted.pages)) [
      | inr (e, h) ↦
          rw (ingest_extracted_text, h) (rw h at (prepare-Late document options extracted.pages))
      | inl (chunks, h) ↦
          rw (ingest_extracted_text, h)
            (replace_text-Late document.document_key (page_inputs document source extracted.pages)
              chunks _ (upsert_document (upsert_of document) db))
    ]

module _ (k o : String) (t : Jobs) (db : Database) where
  -- The ingestion ends the time before it.
  pub ingest_step :
      (document : IngestDocument) (options : ChunkOptions) (extracted : ExtractedText)
      (source : Option TextSource) (s : SqliteStore)
      → Before k o t db s
      → Meets
          (λ s _. After k o t db s)
          (Failed k o t db)
          (on_ingest s (ingest_extracted_text document options extracted source s.database))
  unfolding Meets
  ingest_step document options extracted source s h =
      answered (ingest_extracted_text document options extracted source s.database)
        (λ good.
          ingest-DatabaseOk document options extracted source s.database (rw h.untouched good))
        (ingest-Late document options extracted source s.database)
    where
      answered :
          (answer : Database × Result IngestError IngestOutcome)
          → (DatabaseOk db → DatabaseOk answer.0)
          → Late answer.1
          → Meets (λ s _. After k o t db s) (Failed k o t db) (on_ingest s answer)
      answered (db', ok outcome) kept late = record { working = h.working; kept = kept }
      answered (db', err e) kept late =
          After-Failed k o t db _ (ExecutorError.ingest e) late
            (record { working = h.working; kept = kept })
