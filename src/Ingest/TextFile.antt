-- ===== src/Ingest/TextFile.antt =====
-- `ingest_with_extractor` and `ingest_text_file`.
use foia_search_mcp.Prelude.{
  ◌<◌, ◌^◌, String, none, List, ◌≡◌, arith, length, head?, Chars, split_at, All, Result, ok, err,
  ap,
}
use foia_search_mcp.Documents.Tables.{Database, DocumentRow}
use foia_search_mcp.Documents.Write.{checked_document}
use foia_search_mcp.Chunk.Pages.{ChunkOptions, Chunk, chunk_pages}
use foia_search_mcp.Chunk.Accepts.{chunk_pages-ok}
use foia_search_mcp.Extract.FormFeed.{
  ExtractedText, TextExtraction, normalized_pages, extract_text_file, extracted_text_from_form_feed,
}
use foia_search_mcp.Extract.Numbers.{IsExtraction, extracted_text-IsExtraction}
use foia_search_mcp.Ingest.Pipeline.{
  IngestDocument, IngestOutcome, IngestError, extraction, upsert_of, ingest_extracted_text,
}
use foia_search_mcp.Ingest.Accepts.{Fits, ingest_accepts}

unfoldable pub ingest_with_extractor :
    (String → Result TextExtraction ExtractedText)
    → String
    → IngestDocument
    → ChunkOptions
    → Database
    → Database × Result IngestError IngestOutcome
ingest_with_extractor extractor path document options db = elim (extractor path) [
  | err e ↦ (db, err (extraction e))
  | ok extracted ↦ ingest_extracted_text document options extracted none db
]

-- `fs::read_to_string` is an argument.
unfoldable pub ingest_text_file :
    (String → Result String Chars)
    → String
    → IngestDocument
    → ChunkOptions
    → Database
    → Database × Result IngestError IngestOutcome
unfolding ingest_with_extractor
ingest_text_file read_to_string path document options db =
    ingest_with_extractor (extract_text_file read_to_string) path document options db

-- A text file that is read and cut into pages, of fewer than 2^32 pieces, is ingested, if the row of the
-- document is accepted and each estimate of tokens of its chunks fits an i64.
pub ingest_text_file-ok :
    (read_to_string : String → Result String Chars) (path : String) (text : Chars)
    (document : IngestDocument) (options : ChunkOptions) (db : Database) (rows : List DocumentRow)
    (e : ExtractedText)
    → read_to_string path ≡ ok text
    → length (split_at 0xc text) < 2 ^ 32
    → extracted_text_from_form_feed text ≡ ok e
    → checked_document (upsert_of document) db.documents ≡ ok rows
    → ((chunks : List Chunk) → chunk_pages e.pages options ≡ ok chunks → All Fits chunks)
    → (after : Database) × (outcome : IngestOutcome) × (ingest_text_file read_to_string path
          document options db
        ≡ (after, ok outcome))
unfolding ingest_text_file ingest_with_extractor
ingest_text_file-ok read_to_string path text document options db rows e found small got accepted
      fits =
    let (rises, (first, there, has)) : IsExtraction (normalized_pages 0 (split_at 0xc text))
        (ok e) =
      rw got at (extracted_text-IsExtraction text small) in
    let (chunks, chunked) =
      chunk_pages-ok e.pages options rises (λ empty. ground (arith, there, ap head? empty)) in
    let (after, outcome, done) =
      ingest_accepts document options e none db rows chunks accepted rises chunked
        (fits chunks chunked) in
    (after, outcome, rw (ingest_text_file, ingest_with_extractor, found, got) done)
