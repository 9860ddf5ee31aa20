-- ===== src/Ingest/Examples.antt =====
-- A text of three pages, ingested into an empty database.
use foia_search_mcp.Prelude.{
  All, ok_injective, sym, ◌∙◌, trim, trim_start, trim_end, is_whitespace, ℕ, none, List, [], ◌∷◌,
  ◌≡◌, refl, arith, codes, Chars, ok, decimal,
}
use foia_search_mcp.Chunk.Pages.{PageText, ChunkOptions, Chunk, chunk_pages}
use foia_search_mcp.Documents.Tables.{Database, api_text}
use foia_search_mcp.Documents.Write.{checked_document}
use foia_search_mcp.Extract.FormFeed.{ExtractedText}
use foia_search_mcp.Extract.FormFeed.{
  extracted_text_from_form_feed, normalize_page_text, embedded_text_quality_warnings,
  density_warning,
}
use foia_search_mcp.Ingest.TextFile.{ingest_text_file, ingest_text_file-ok}
use foia_search_mcp.Ingest.Accepts.{Fits}
use foia_search_mcp.Ingest.Pipeline.{
  IngestDocument, IngestOutcome, upsert_of, ingest_extracted_text,
}
use foia_search_mcp.Ingest.Stored.{IsIngestion, ingest-IsIngestion}
use foia_search_mcp.Ingest.Accepts.{ingest_accepts}

abbrev document : IngestDocument
document = record {
  public_id = "cia:1";
  document_key = "cia_1";
  source = "cia";
  source_id = "1";
  title = "A memorandum";
  date = none;
  collection = none;
  record_group = none;
  description = none;
  origin_url = none;
  document_url = none;
  pdf_url = none;
  metadata_json = codes "{}";
  citation_note = none;
  terms_note = none;
  text_source = api_text;
}

abbrev page : ℕ → Chars → PageText
page n s = record { page_number = n; text = s }

abbrev extracted : ExtractedText
extracted = record {
  pages =
      page 1 (codes "alpha beta") ∷ page 2 (codes "gamma delta") ∷ page 3 (codes "epsilon") ∷ [];
  warnings = [];
}

abbrev four_words : ChunkOptions
four_words = record { target_tokens = 4 }

abbrev chunks : List Chunk
chunks =
    record {
      chunk_id = "chunk-0001";
      page_start = 1;
      page_end = 2;
      text = codes "alpha beta\n\ngamma delta";
      token_estimate = 4;
    }
    ∷ record {
      chunk_id = "chunk-0002";
      page_start = 3;
      page_end = 3;
      text = codes "epsilon";
      token_estimate = 1;
    }
    ∷ []

abbrev empty : Database
empty = record { documents = []; pages = []; chunks = []; chunk_fts = []; assets = [] }

chunked : chunk_pages extracted.pages four_words ≡ ok chunks
unfolding chunk_pages decimal
chunked = refl

accepted :
    checked_document (upsert_of document) []
    ≡ ok (record { id = 1; document = upsert_of document } ∷ [])
unfolding checked_document
accepted = refl

ingest-IsIngestion_example :
    IsIngestion document four_words extracted none empty
      (ingest_extracted_text document four_words extracted none empty)
ingest-IsIngestion_example = ingest-IsIngestion document four_words extracted none empty

ingest_accepts_example :
    (after : Database) × (outcome : IngestOutcome) × (ingest_extracted_text document four_words
        extracted none empty
      ≡ (after, ok outcome))
ingest_accepts_example =
    ingest_accepts document four_words extracted none empty
      (record { id = 1; document = upsert_of document } ∷ []) chunks accepted (omega arith) chunked
      (refl, (refl, tt))

abbrev file : Chars
file = codes "alpha beta"

abbrev from_file : ExtractedText
from_file = record { pages = page 1 file ∷ []; warnings = density_warning 9 ∷ [] }

read_file : extracted_text_from_form_feed file ≡ ok from_file
unfolding extracted_text_from_form_feed normalize_page_text embedded_text_quality_warnings trim
    trim_start trim_end is_whitespace
read_file = refl

abbrev one_chunk : List Chunk
one_chunk =
    record {
      chunk_id = "chunk-0001";
      page_start = 1;
      page_end = 1;
      text = file;
      token_estimate = 2;
    }
    ∷ []

chunked_file : chunk_pages from_file.pages four_words ≡ ok one_chunk
unfolding chunk_pages decimal
chunked_file = refl

chunked-Fits : (cs : List Chunk) → chunk_pages from_file.pages four_words ≡ ok cs → All Fits cs
chunked-Fits cs h = rw (← ok_injective (sym chunked_file ∙ h)) (refl, tt)

ingest_text_file-ok_example :
    (after : Database) × (outcome : IngestOutcome) × (ingest_text_file
        (λ path. ok file)
        "a.txt"
        document
        four_words
        empty
      ≡ (after, ok outcome))
ingest_text_file-ok_example =
    ingest_text_file-ok (λ path. ok file) "a.txt" file document four_words empty
      (record { id = 1; document = upsert_of document } ∷ []) from_file refl (omega arith) read_file
      accepted chunked-Fits
