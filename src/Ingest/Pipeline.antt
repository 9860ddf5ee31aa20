-- ===== src/Ingest/Pipeline.antt =====
-- `ingest_extracted_text` and the values it builds.
use foia_search_mcp.Prelude.{
  ℕ, ◌^◌, String, Option, none, some, List, [], ◌∷◌, map, ltb, length, if◌then◌else◌, Chars, codes,
  Result, ok, err, ◌>>=◌,
}
use foia_search_mcp.Store.{StoreError}
use foia_search_mcp.Chunk.Pages.{PageText, ChunkOptions, Chunk, ChunkError, chunk_pages}
use foia_search_mcp.Extract.FormFeed.{ExtractedText, TextExtraction}
use foia_search_mcp.Documents.Tables.{
  TextSource, UpsertDocument, PageInput, ChunkInput, Database, StoredDocument,
}
use foia_search_mcp.Documents.Write.{upsert_document, replace_pages_and_chunks}

pub record IngestDocument : Type 0 where
  pub public_id : String
  pub document_key : String
  pub source : String
  pub source_id : String
  pub title : String
  pub date : Option String
  pub collection : Option String
  pub record_group : Option String
  pub description : Option String
  pub origin_url : Option String
  pub document_url : Option String
  pub pdf_url : Option Chars
  pub metadata_json : Chars
  pub citation_note : Option String
  pub terms_note : Option String
  pub text_source : TextSource

pub record IngestOutcome : Type 0 where
  pub document_key : String
  pub page_count : ℕ
  pub chunk_count : ℕ
  pub warnings : List String

pub data IngestError : Type 0 where
  store : StoreError → IngestError
  extraction : TextExtraction → IngestError
  chunk : ChunkError → IngestError
  token_estimate_overflow : (chunk_id : String) (tokens : ℕ) → IngestError

abbrev pub page_input : String → TextSource → PageText → PageInput
page_input key source page = record {
  document_key = key;
  page_number = page.page_number;
  text = page.text;
  text_source = source;
  quality_score = none;
  warnings_json = codes "[]";
}

abbrev pub chunk_input : String → Chunk → ChunkInput
chunk_input key c = record {
  document_key = key;
  chunk_id = c.chunk_id;
  page_start = c.page_start;
  page_end = c.page_end;
  text = c.text;
  token_estimate = some c.token_estimate;
  metadata_json = codes "{}";
}

-- `i64::try_from` of each estimate; the first that does not fit is the error.
unfoldable pub chunk_inputs : String → List Chunk → Result IngestError (List ChunkInput)
chunk_inputs key [] = ok []
chunk_inputs key (c ∷ cs) =
    if ltb c.token_estimate (2 ^ 63)
    then (chunk_inputs key cs >>= λ rest. ok (chunk_input key c ∷ rest))
    else err (token_estimate_overflow c.chunk_id c.token_estimate)

abbrev pub upsert_of : IngestDocument → UpsertDocument
upsert_of d = record {
  public_id = d.public_id;
  document_key = d.document_key;
  source = d.source;
  source_id = d.source_id;
  title = d.title;
  date = d.date;
  collection = d.collection;
  record_group = d.record_group;
  description = d.description;
  origin_url = d.origin_url;
  document_url = d.document_url;
  pdf_url = d.pdf_url;
  metadata_json = d.metadata_json;
  citation_note = d.citation_note;
  terms_note = d.terms_note;
}

abbrev pub source_or : Option TextSource → TextSource → TextSource
source_or none d = d
source_or (some s) d = s

-- The end of the function, from the answer of `replace_pages_and_chunks` on.
abbrev pub conclude :
    IngestOutcome
    → Database × Result StoreError (Unit {0})
    → Database × Result IngestError IngestOutcome
conclude outcome (db, err e) = (db, err (store e))
conclude outcome (db, ok u) = (db, ok outcome)

-- From the answer of `upsert_document` on.
abbrev pub replace_text :
    String
    → List PageInput
    → List ChunkInput
    → IngestOutcome
    → Database × Result StoreError StoredDocument
    → Database × Result IngestError IngestOutcome
replace_text key pages chunks outcome (db, err e) = (db, err (store e))
replace_text key pages chunks outcome (db, ok stored) =
    conclude outcome (replace_pages_and_chunks key pages chunks db)

abbrev pub outcome_of :
    IngestDocument → List PageInput → List ChunkInput → List String → IngestOutcome
outcome_of document pages chunks warnings = record {
  document_key = document.document_key;
  page_count = length pages;
  chunk_count = length chunks;
  warnings = warnings;
}

-- The rows are computed first, so an error there leaves the tables alone.
unfoldable pub prepare :
    IngestDocument → ChunkOptions → List PageText → Result IngestError (List ChunkInput)
unfolding chunk_inputs
prepare document options pages = elim (chunk_pages pages options) [
  | err e ↦ err (chunk e)
  | ok chunks ↦ chunk_inputs document.document_key chunks
]

abbrev pub page_inputs : IngestDocument → Option TextSource → List PageText → List PageInput
page_inputs document text_source pages =
    map (page_input document.document_key (source_or text_source document.text_source)) pages

unfoldable pub ingest_extracted_text :
    IngestDocument
    → ChunkOptions
    → ExtractedText
    → Option TextSource
    → Database
    → Database × Result IngestError IngestOutcome
unfolding prepare
ingest_extracted_text document options extracted text_source db =
    let pages = page_inputs document text_source extracted.pages in
    elim (prepare document options extracted.pages) [
      | err e ↦ (db, err e)
      | ok chunks ↦
          replace_text document.document_key pages chunks
            (outcome_of document pages chunks extracted.warnings)
            (upsert_document (upsert_of document) db)
    ]
