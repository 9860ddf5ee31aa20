-- ===== src/Index/Examples.antt =====
-- A document whose title changes after its chunks were indexed.
use foia_search_mcp.Prelude.{
  decimal, ℕ, String, none, some, List, [], ◌∷◌, any, length, ◌&&◌, ◌≡◌, refl, codes,
}
use foia_search_mcp.Documents.Tables.{
  UpsertDocument, FtsRow, ChunkRow, PageInput, ChunkInput, Database, api_text, ensure_json_object,
  ensure_json_array,
}
use foia_search_mcp.Documents.Write.{
  upsert_document, replace_pages_and_chunks, insert_pages, insert_page, insert_chunks, insert_chunk,
}
use foia_search_mcp.Documents.Invariant.{Statement, upsert, replace, execute_all, empty_database}
use foia_search_mcp.Index.Reconcile.{
  FtsReconciliationIssue, orphaned, stale, missing, ChunkIdentity, canonical_rows,
  reconcile_sqlite_fts_index,
}
use foia_search_mcp.Index.Verdict.{
  has_issue, kind_eq, says, verdict, canonical_of, observed, reconcile-IsVerdict,
}
use foia_search_mcp.Index.Surface.{expected_confirmation, apply_sqlite_fts_repairs}
use foia_search_mcp.Index.Repaired.{IsRepairRun, apply_repairs-IsRepairRun}
use foia_search_mcp.Index.Again.{report-after_repairs}

abbrev titled : String → UpsertDocument
titled t = record {
  public_id = "cia:1";
  document_key = "cia_1";
  source = "cia";
  source_id = "1";
  title = t;
  date = none;
  collection = none;
  record_group = none;
  description = none;
  origin_url = none;
  document_url = none;
  pdf_url = none;
  metadata_json = codes "{}";
  citation_note = none;
  terms_note = none;
}

abbrev pages : List PageInput
pages =
    record {
      document_key = "cia_1";
      page_number = 1;
      text = codes "alpha";
      text_source = api_text;
      quality_score = none;
      warnings_json = codes "[]";
    }
    ∷ []

abbrev chunks : List ChunkInput
chunks =
    record {
      document_key = "cia_1";
      chunk_id = "chunk-0001";
      page_start = 1;
      page_end = 1;
      text = codes "alpha";
      token_estimate = some 1;
      metadata_json = codes "{}";
    }
    ∷ []

abbrev statements : List Statement
statements = upsert (titled "Draft") ∷ replace "cia_1" pages chunks ∷ upsert (titled "Final") ∷ []

abbrev drifted : Database
drifted = execute_all statements empty_database

abbrev rowid : ℕ → ℕ
rowid n = n

abbrev identity : ChunkIdentity
identity = record { document_key = "cia_1"; chunk_id = "chunk-0001" }

abbrev stale_title : FtsReconciliationIssue
stale_title = record {
  issue = stale;
  document_key = "cia_1";
  chunk_id = "chunk-0001";
  detail = "chunk_fts row differs from canonical chunk fields [title] (1 observed row(s) for key)";
}

title_is_stale : (reconcile_sqlite_fts_index rowid drifted).issues ≡ stale_title ∷ []
unfolding upsert_document replace_pages_and_chunks insert_pages insert_page insert_chunks
    insert_chunk ensure_json_array ensure_json_object reconcile_sqlite_fts_index decimal
title_is_stale = refl

reconcile-IsVerdict_example :
    (any (has_issue stale identity) (reconcile_sqlite_fts_index rowid drifted).issues
      ≡ says stale (verdict (canonical_of identity drifted) (observed identity drifted)))
    × ((reconcile_sqlite_fts_index rowid drifted).canonical_chunk_count
        ≡ length (canonical_rows drifted.documents drifted.chunks))
    × ((reconcile_sqlite_fts_index rowid drifted).chunk_fts_row_count ≡ length drifted.chunk_fts)
reconcile-IsVerdict_example = reconcile-IsVerdict rowid drifted stale identity

-- The index lost the row of the chunk, has a row for no chunk, and two rows for another chunk.
abbrev entry : String → String → FtsRow
entry id text = record {
  document_key = "cia_1";
  chunk_id = id;
  source = "cia";
  title = "Final";
  body = codes text;
  page_start = 1;
  page_end = 1;
}

abbrev chunk : String → String → ChunkRow
chunk id text = record {
  document_id = 1;
  chunk_id = id;
  page_start = 1;
  page_end = 1;
  text = codes text;
  token_estimate = some 1;
  metadata_json = codes "{}";
}

abbrev damaged : Database
damaged = record {
  documents = record { id = 1; document = titled "Final" } ∷ [];
  pages = [];
  chunks = chunk "chunk-0001" "alpha" ∷ chunk "chunk-0002" "beta" ∷ [];
  chunk_fts = entry "chunk-0002" "beta" ∷ entry "chunk-0009" "old" ∷ entry "chunk-0002" "beta" ∷ [];
  assets = [];
}

damage_repaired :
    (apply_sqlite_fts_repairs rowid expected_confirmation damaged).0.chunk_fts
    ≡ entry "chunk-0009" "old" ∷ entry "chunk-0001" "alpha" ∷ entry "chunk-0002" "beta" ∷ []
unfolding apply_sqlite_fts_repairs
damage_repaired = refl

apply_repairs-IsRepairRun_example :
    IsRepairRun "apply sqlite fts repairs" damaged
      (length (reconcile_sqlite_fts_index rowid damaged).issues)
      (apply_sqlite_fts_repairs rowid "apply sqlite fts repairs" damaged)
apply_repairs-IsRepairRun_example =
    apply_repairs-IsRepairRun rowid "apply sqlite fts repairs" damaged (tt, tt)
      ((refl, tt), (tt, tt))

report-after_repairs_example :
    any
      (has_issue missing identity)
      (reconcile_sqlite_fts_index rowid
        (apply_sqlite_fts_repairs rowid expected_confirmation damaged).0).issues
    ≡ (kind_eq orphaned missing
        && any (has_issue orphaned identity) (reconcile_sqlite_fts_index rowid damaged).issues)
report-after_repairs_example =
    report-after_repairs rowid rowid damaged missing identity (tt, tt) ((refl, tt), (tt, tt))
