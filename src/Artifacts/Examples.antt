-- ===== src/Artifacts/Examples.antt =====
-- A document of two pages, the second of which was read by local OCR, and its files.
use foia_search_mcp.Prelude.{
  err, decimal, ℕ, String, true, none, some, List, [], ◌∷◌, Chars, codes, ok, ◌↔◌, ◌≡◌, refl,
}
use foia_search_mcp.Documents.Tables.{UpsertDocument, PageRow, Database}
use foia_search_mcp.Documents.Read.{StoredPageText, StoredDocumentMetadata, get_document_metadata}
use foia_search_mcp.Artifacts.Files.{
  FilePath, Files, regular, directory, text_page_dir, ocr_page_dir, derived_document_text_path,
  derived_page_text_path, derived_ocr_page_text_path, parse_page_number,
}
use foia_search_mcp.Artifacts.Compare.{
  file_matches_bytes, file_matches_rendered_pages, render_document_text,
}
use foia_search_mcp.Artifacts.Rendered.{matches_rendered-eq}
use foia_search_mcp.Artifacts.Report.{
  DerivedArtifactReport, issue_of, page_text, ocr_page_text, missing, stale, orphaned,
  reconcile_derived_artifacts_for_document,
}
use foia_search_mcp.Artifacts.Repair.{
  plan_derived_artifact_repairs, check_action, rewrite_from_sqlite, DerivedArtifactRewriteReason,
  invalid_action,
}
use foia_search_mcp.Artifacts.Wanted.{IsExact, plan-IsExact}
use foia_search_mcp.Artifacts.Exact.{InSync, reconcile-InSync}

abbrev document : UpsertDocument
document = record {
  public_id = "cia:1";
  document_key = "cia_1";
  source = "cia";
  source_id = "1";
  title = "Alpha";
  date = none;
  collection = none;
  record_group = none;
  description = none;
  origin_url = none;
  document_url = none;
  pdf_url = none;
  metadata_json = codes "{}";
  citation_note = none;
  terms_note = none;
}

abbrev row : ℕ → String → String → PageRow
row n text source = record {
  document_id = 1;
  page_number = n;
  text = codes text;
  text_source = source;
  quality_score = none;
  warnings = codes "[]";
}

abbrev db : Database
db = record {
  documents = record { id = 1; document = document } ∷ [];
  pages = row 2 "beta" "local_ocr" ∷ row 1 "alpha" "api_text" ∷ [];
  chunks = [];
  chunk_fts = [];
  assets = [];
}

abbrev metadata : StoredDocumentMetadata
metadata = record { id = 1; document = document; page_count = 2 }

abbrev page : ℕ → String → String → StoredPageText
page n text source = record { page_number = n; text = codes text; text_source = source }

abbrev pages : List StoredPageText
pages = page 1 "alpha" "api_text" ∷ page 2 "beta" "local_ocr" ∷ []

abbrev rendered : Chars
rendered = codes "[page 1]\nalpha\n\n[page 2]\nbeta"

abbrev files : Files
files =
    (text_page_dir "cia_1", directory)
    ∷ (derived_page_text_path "cia_1" 1, regular (codes "alpha"))
    ∷ (derived_page_text_path "cia_1" 2, regular (codes "beta"))
    ∷ (ocr_page_dir "cia_1", directory)
    ∷ (derived_ocr_page_text_path "cia_1" 2, regular (codes "beta"))
    ∷ (derived_document_text_path "cia_1", regular rendered)
    ∷ []

-- The text of the second page is stale, its OCR text is missing, and a third page is left over.
abbrev drifted : Files
drifted =
    (text_page_dir "cia_1", directory)
    ∷ (derived_page_text_path "cia_1" 3, regular (codes "gamma"))
    ∷ (derived_page_text_path "cia_1" 2, regular (codes "betamax"))
    ∷ (derived_page_text_path "cia_1" 1, regular (codes "alpha"))
    ∷ (derived_document_text_path "cia_1", regular rendered)
    ∷ []

abbrev drift : DerivedArtifactReport
drift = record {
  document_key = "cia_1";
  issues =
      issue_of page_text stale (derived_page_text_path "cia_1" 2) (some 2)
        "derived artifact content differs from SQLite page state"
      ∷ issue_of page_text orphaned (derived_page_text_path "cia_1" 3) (some 3)
          "no matching SQLite page state for derived artifact"
      ∷ issue_of ocr_page_text missing (derived_ocr_page_text_path "cia_1" 2) (some 2)
          "expected derived artifact is absent"
      ∷ [];
}

drift_reported : reconcile_derived_artifacts_for_document (λ s. s) db drifted "cia:1" ≡ ok drift
unfolding reconcile_derived_artifacts_for_document file_matches_rendered_pages decimal
    file_matches_bytes
drift_reported = refl

-- A leading zero or plus is parsed, so such a file passes for the page's own.
other_spelling : parse_page_number (codes "+01.txt") ≡ some 1
unfolding parse_page_number
other_spelling = refl

matches_rendered-eq_example : file_matches_rendered_pages (λ s. s) pages rendered ≡ true
unfolding render_document_text decimal
matches_rendered-eq_example = matches_rendered-eq (λ s. s) pages rendered rendered refl

reconcile-InSync_example :
    (reconcile_derived_artifacts_for_document (λ s. s) db files "cia_1"
      ≡ ok (record { document_key = "cia_1"; issues = [] }))
    ↔ InSync (λ s. s) "cia_1" files pages
unfolding get_document_metadata
reconcile-InSync_example = reconcile-InSync (λ s. s) db files "cia_1" metadata refl

in_order : InSync (λ s. s) "cia_1" files pages
unfolding reconcile_derived_artifacts_for_document get_document_metadata file_matches_rendered_pages
    decimal file_matches_bytes
in_order = (reconcile-InSync (λ s. s) db files "cia_1" metadata refl).0 refl

-- A directory stands where the text of the second page is to be written.
abbrev blocked : Files
blocked =
    (text_page_dir "cia_1", directory)
    ∷ (derived_page_text_path "cia_1" 2, directory)
    ∷ (derived_document_text_path "cia_1", regular rendered)
    ∷ []

abbrev display : FilePath → String
display path = "path"

refused :
    check_action
      (λ s. s)
      display
      "cia_1"
      pages
      blocked
      (rewrite_from_sqlite page_text
        (derived_page_text_path "cia_1" 2)
        (some 2)
        DerivedArtifactRewriteReason.stale)
    ≡ err (invalid_action "target path 'path' is not a regular file")
unfolding check_action decimal
refused = refl

plan-IsExact_example :
    IsExact (λ s. s) display "cia_1" drifted pages 3 (plan_derived_artifact_repairs drift).actions
unfolding get_document_metadata
plan-IsExact_example =
    plan-IsExact (λ s. s) display db drifted "cia:1" metadata drift refl
      ((refl, refl), ((refl, refl), tt)) drift_reported
