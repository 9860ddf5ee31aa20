-- ===== src/Documents/Examples.antt =====
-- One document with two pages and a chunk.
use foia_search_mcp.Prelude.{
  ℕ, String, none, some, List, [], ◌∷◌, ◌≡◌, ◌↔◌, ◌⊎◌, refl, arith, codes, ok, err,
}
use foia_search_mcp.Store.{missing_pages}
use foia_search_mcp.Documents.Tables.{
  UpsertDocument, DocumentRow, PageInput, PageRow, ChunkInput, Database, api_text,
  ensure_json_object, ensure_json_array,
}
use foia_search_mcp.Documents.Write.{
  upsert_document, replace_pages_and_chunks, insert_pages, insert_page, insert_chunks, insert_chunk,
}
use foia_search_mcp.Documents.Read.{StoredPageText, get_page_text}
use foia_search_mcp.Documents.PageRange.{HasPages, IsPages, get_page_text-IsPages}
use foia_search_mcp.Documents.Replace.{IsReplacement, replace-IsReplacement}
use foia_search_mcp.Documents.Upsert.{IsUpsert, upsert_document-IsUpsert}
use foia_search_mcp.Documents.Invariant.{
  Statement, upsert, replace, execute_all, empty_database, DatabaseOk, reachable-DatabaseOk,
}

abbrev document : UpsertDocument
document = record {
  public_id = "cia:1";
  document_key = "cia_1";
  source = "cia";
  source_id = "1";
  title = "A memorandum";
  date = none;
  collection = none;
  record_group = none;
  description = none;
  origin_url = none;
  document_url = none;
  pdf_url = none;
  metadata_json = codes "{}";
  citation_note = none;
  terms_note = none;
}

abbrev page : ℕ → String → PageInput
page n text = record {
  document_key = "cia_1";
  page_number = n;
  text = codes text;
  text_source = api_text;
  quality_score = none;
  warnings_json = codes "[]";
}

abbrev pages : List PageInput
pages = page 1 "alpha" ∷ page 2 "beta" ∷ []

abbrev chunks : List ChunkInput
chunks =
    record {
      document_key = "cia_1";
      chunk_id = "chunk-0001";
      page_start = 1;
      page_end = 2;
      text = codes "alpha beta";
      token_estimate = some 2;
      metadata_json = codes "{}";
    }
    ∷ []

abbrev row : DocumentRow
row = record { id = 1; document = document }

abbrev stored_page : ℕ → String → PageRow
stored_page n text = record {
  document_id = 1;
  page_number = n;
  text = codes text;
  text_source = "api_text";
  quality_score = none;
  warnings = codes "[]";
}

abbrev stored : Database
stored = record {
  documents = row ∷ [];
  pages = stored_page 1 "alpha" ∷ stored_page 2 "beta" ∷ [];
  chunks =
      record {
        document_id = 1;
        chunk_id = "chunk-0001";
        page_start = 1;
        page_end = 2;
        text = codes "alpha beta";
        token_estimate = some 2;
        metadata_json = codes "{}";
      }
      ∷ [];
  chunk_fts =
      record {
        document_key = "cia_1";
        chunk_id = "chunk-0001";
        source = "cia";
        title = "A memorandum";
        body = codes "alpha beta";
        page_start = 1;
        page_end = 2;
      }
      ∷ [];
  assets = [];
}

abbrev statements : List Statement
statements = upsert document ∷ replace "cia_1" pages chunks ∷ []

executed : execute_all statements empty_database ≡ stored
unfolding upsert_document replace_pages_and_chunks insert_pages insert_page insert_chunks
    insert_chunk ensure_json_array ensure_json_object
executed = refl

abbrev text_of : ℕ → String → StoredPageText
text_of n text = record { page_number = n; text = codes text; text_source = "api_text" }

both_pages : get_page_text "cia:1" 1 2 stored ≡ ok (text_of 1 "alpha" ∷ text_of 2 "beta" ∷ [])
unfolding get_page_text
both_pages = refl

reachable-DatabaseOk_example : DatabaseOk (execute_all statements empty_database)
reachable-DatabaseOk_example = reachable-DatabaseOk statements

upsert_document-IsUpsert_example : IsUpsert document stored (upsert_document document stored)
upsert_document-IsUpsert_example = upsert_document-IsUpsert document stored

replace-IsReplacement_example :
    IsReplacement "cia_1" pages [] stored (replace_pages_and_chunks "cia_1" pages [] stored)
replace-IsReplacement_example = replace-IsReplacement "cia_1" pages [] stored

get_page_text-IsPages_example :
    (((texts : List StoredPageText) × (get_page_text "cia:1" 1 2 stored ≡ ok texts))
      ↔ HasPages 1 1 2 stored.pages)
    × ((get_page_text "cia:1" 1 2 stored ≡ err (missing_pages "cia:1" 1 2))
        ⊎ ((texts : List StoredPageText) × (get_page_text "cia:1" 1 2 stored ≡ ok texts)
            × IsPages 1 1 2 stored.pages texts))
get_page_text-IsPages_example =
    get_page_text-IsPages "cia:1" 1 2 stored row refl (omega arith) (omega arith)
      ((refl, tt), (tt, tt)) (omega arith, (omega arith, tt))
