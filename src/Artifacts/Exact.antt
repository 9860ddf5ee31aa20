-- ===== src/Artifacts/Exact.antt =====
-- When a document's files are reported to be in order.
use foia_search_mcp.Prelude.{
  true, if◌then◌else◌, String, none, some, List, [], ◌∷◌, All, length, sort_by, length-sort_by,
  Chars, Bool-cases, Option-cases, Result, ok, err, ok_injective, ◌>>=◌, inl, inr, ◌↔◌, ◌≡◌, refl,
  sym, ap, ◌∙◌, arith,
}
use foia_search_mcp.Documents.Tables.{Database}
use foia_search_mcp.Documents.Read.{StoredPageText, StoredDocumentMetadata, get_document_metadata}
use foia_search_mcp.Artifacts.Files.{
  FilePath, Files, node_at, derived_document_text_path, text_page_dir, ocr_page_dir,
  derived_page_text_path, derived_ocr_page_text_path,
}
use foia_search_mcp.Artifacts.Compare.{
  file_matches_bytes, file_matches_rendered_pages, render_document_text,
}
use foia_search_mcp.Artifacts.Rendered.{file_matches_bytes-eq, matches_rendered-eq}
use foia_search_mcp.Artifacts.Report.{
  DerivedArtifactKind, document_text, page_text, ocr_page_text, DerivedArtifactIssue,
  DerivedArtifactReport, ReconcileError, push_expected_file_issues, ◌then◌,
  collect_orphaned_page_files, is_local_ocr, text_numbers, ocr_numbers, page_issues, pages_issues,
  document_issues, issue_before, found_issues, load_document_pages,
  reconcile_derived_artifacts_for_document,
}
use foia_search_mcp.Artifacts.Clean.{Clean, then-Clean, Holds, push-Clean, InOrder, collect-Clean}

-- The page's text is in its file, and in that of local OCR if that is its source.
abbrev PageHolds : (Chars → Chars) → String → Files → StoredPageText → Type 0
PageHolds as_bytes key files page =
    Holds (derived_page_text_path key page.page_number) (as_bytes page.text) files
    × (is_local_ocr page ≡ true
        → Holds (derived_ocr_page_text_path key page.page_number) (as_bytes page.text) files)

module _ (as_bytes : Chars → Chars) (key : String) (files : Files) where
  scan-Clean :
      (page : StoredPageText) (issues : Result ReconcileError (List DerivedArtifactIssue))
      (content : Type 0)
      → Clean issues ↔ content
      → Clean (if is_local_ocr page then issues else ok []) ↔ (is_local_ocr page ≡ true → content)
  scan-Clean page issues content iff = elim (Bool-cases (is_local_ocr page)) [
    | inl scanned ↦ rw scanned ((λ h e. iff.0 h), λ h. iff.1 (h refl))
    | inr other ↦ rw other ((λ h e. absurd (ground arith)), λ h. refl)
  ]

  page-Clean :
      (page : StoredPageText)
      → Clean (page_issues as_bytes key page files) ↔ PageHolds as_bytes key files page
  page-Clean page =
      let n = page.page_number in
      let push = λ (kind : DerivedArtifactKind) (path : FilePath).
        push-Clean kind path (some n) (file_matches_bytes (as_bytes page.text)) (as_bytes page.text)
          files (file_matches_bytes-eq (as_bytes page.text)) in
      let text = push page_text (derived_page_text_path key n) in
      let scan = scan-Clean page _ _ (push ocr_page_text (derived_ocr_page_text_path key n)) in
      let both =
        then-Clean
          (push_expected_file_issues page_text (derived_page_text_path key n) (some n)
            (file_matches_bytes (as_bytes page.text)) files)
          (if is_local_ocr page
            then push_expected_file_issues ocr_page_text (derived_ocr_page_text_path key n) (some n)
                (file_matches_bytes (as_bytes page.text)) files
            else ok []) in
      ((λ h. let (a, b) = both.0 h in (text.0 a, scan.0 b)), λ h. both.1 (text.1 h.0, scan.1 h.1))

  pages-Clean :
      (pages : List StoredPageText)
      → Clean (pages_issues as_bytes key pages files) ↔ All (PageHolds as_bytes key files) pages
  pages-Clean [] = ((λ h. tt), λ h. refl)
  pages-Clean (page ∷ pages) =
      let both =
        then-Clean (page_issues as_bytes key page files) (pages_issues as_bytes key pages files) in
      let here = page-Clean page in
      let rest = pages-Clean pages in
      ((λ h. let (a, b) = both.0 h in (here.0 a, rest.0 b)), λ h. both.1 (here.1 h.0, rest.1 h.1))

  -- The document's text is rendered in its file, which is absent if there are no pages.
  abbrev pub DocumentHolds : List StoredPageText → Type 0
  DocumentHolds pages = elim (render_document_text as_bytes pages) [
    | ok text ↦ Holds (derived_document_text_path key) text files
    | err e ↦ node_at (derived_document_text_path key) files ≡ none
  ]

  document-Clean :
      (pages : List StoredPageText)
      → Clean (document_issues as_bytes key pages files) ↔ DocumentHolds pages
  unfolding render_document_text
  document-Clean [] = elim (Option-cases (node_at (derived_document_text_path key) files)) [
    | inl gone ↦ rw gone (ground arith)
    | inr (node, there) ↦ rw there (ground arith)
  ]
  document-Clean (page ∷ pages) =
      push-Clean document_text (derived_document_text_path key) none
        (file_matches_rendered_pages as_bytes (page ∷ pages)) _ files
        (λ file. matches_rendered-eq as_bytes (page ∷ pages) file _ refl)

  -- All that is derived from the pages is as it should be, and there is nothing else.
  pub record InSync (pages : List StoredPageText) : Type 0 where
    pub document : DocumentHolds pages
    pub each_page : All (PageHolds as_bytes key files) pages
    pub texts : InOrder (text_numbers pages) (text_page_dir key) files
    pub scans : InOrder (ocr_numbers pages) (ocr_page_dir key) files

  found-Clean :
      (pages : List StoredPageText) → Clean (found_issues as_bytes key pages files) ↔ InSync pages
  unfolding found_issues
  found-Clean pages =
      let texts =
        collect_orphaned_page_files page_text (text_numbers pages) (text_page_dir key) files in
      let scans =
        collect_orphaned_page_files ocr_page_text (ocr_numbers pages) (ocr_page_dir key) files in
      let of_pages = pages_issues as_bytes key pages files in
      let first =
        then-Clean (document_issues as_bytes key pages files) (of_pages then texts then scans) in
      let second = then-Clean of_pages (texts then scans) in
      let third = then-Clean texts scans in
      let document = document-Clean pages in
      let each = pages-Clean pages in
      let text_dir = collect-Clean page_text (text_numbers pages) (text_page_dir key) files in
      let scan_dir = collect-Clean ocr_page_text (ocr_numbers pages) (ocr_page_dir key) files in
      (
        (λ h.
            let (a, h1) = first.0 h in
            let (b, h2) = second.0 h1 in
            let (c, d) = third.0 h2 in
            record {
              document = document.0 a;
              each_page = each.0 b;
              texts = text_dir.0 c;
              scans = scan_dir.0 d;
            }),
        λ h. first.1 (
          document.1 h.document,
          second.1 (each.1 h.each_page, third.1 (text_dir.1 h.texts, scan_dir.1 h.scans)),
        ),
      )

-- A list that is sorted to nothing is empty.
sorted-empty :
    (issues : List DerivedArtifactIssue) → (sort_by issue_before issues ≡ []) ↔ (issues ≡ [])
sorted-empty [] = ((λ h. refl), λ h. refl)
sorted-empty (i ∷ is) = (
  (λ h.
      let some_left = sym (length-sort_by issue_before (i ∷ is)) ∙ ap length h in
      absurd (ground arith)),
  λ h. cc,
)

abbrev reported : String → List DerivedArtifactIssue → Result ReconcileError DerivedArtifactReport
reported key issues = ok (record { document_key = key; issues = issues })

-- The report has no issues exactly if none are found.
report-empty :
    (key : String) (found : Result ReconcileError (List DerivedArtifactIssue))
    → (◌>>=◌ {B = DerivedArtifactReport} found
          (λ issues. ok (record { document_key = key; issues = sort_by issue_before issues }))
        ≡ ok (record { document_key = key; issues = [] }))
      ↔ Clean found
report-empty key (ok issues) =
    let none_left = sorted-empty issues in
    (
      (λ h. ap ok (none_left.0 (ap (λ r. r.issues) (ok_injective h)))),
      λ h. ap (reported key) (none_left.1 (ok_injective h)),
    )
report-empty key (err e) = ground arith

-- The files that are derived from a document that is found are reported to be in order exactly if
-- they are: the document's text is rendered in its file, or this is absent as there are no pages;
-- every page's text is in its file, and in that of local OCR if that is its source; and the two
-- directories of page files are absent, or have no entry besides those named after such pages.
pub reconcile-InSync :
    (as_bytes : Chars → Chars) (db : Database) (files : Files) (name : String)
    (m : StoredDocumentMetadata)
    → get_document_metadata name db ≡ ok m
    → (reconcile_derived_artifacts_for_document as_bytes db files name
        ≡ ok (record { document_key = m.document.document_key; issues = [] }))
      ↔ InSync as_bytes m.document.document_key files (load_document_pages m.id db)
unfolding reconcile_derived_artifacts_for_document
reconcile-InSync as_bytes db files name m found =
    let clean = found-Clean as_bytes m.document.document_key files (load_document_pages m.id db) in
    let empty =
      report-empty m.document.document_key
        (found_issues as_bytes m.document.document_key (load_document_pages m.id db) files) in
    rw (found, get_document_metadata) ((λ h. clean.0 (empty.0 h)), λ h. empty.1 (clean.1 h))
