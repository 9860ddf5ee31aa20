-- ===== src/Artifacts/Wanted.antt =====
-- What the plan of a report asks for.
use foia_search_mcp.Prelude.{
  ℕ, suc, Bool, true, ◌||◌, some, Option, any, length, length-sort_by, any-sort_by, All-impl, ap,
  ◌∙◌, refl, ◌≡◌, if◌then◌else◌, String, none, List, [], ◌∷◌, map, All, sort_by, All-sort_by,
  All-map, Chars, Option-cases, Result, ok, err, ok_injective, ◌>>=◌, inl, inr, ◌≡◌, refl, arith,
}
use mathlib.Core.Path.{subst}
use foia_search_mcp.Documents.Tables.{Database}
use foia_search_mcp.Documents.Read.{StoredPageText, StoredDocumentMetadata, get_document_metadata}
use foia_search_mcp.Artifacts.Files.{
  FilePath, derived_page_text_path, derived_ocr_page_text_path, Files, node_at,
  derived_document_text_path, text_page_dir, ocr_page_dir,
}
use foia_search_mcp.Artifacts.Compare.{file_matches_rendered_pages, render_document_text}
use foia_search_mcp.Artifacts.Rendered.{matches_rendered-eq}
use foia_search_mcp.Artifacts.Report.{
  DerivedArtifactKind, is_local_ocr, page_text, document_text, page_text, ocr_page_text,
  DerivedArtifactIssue, DerivedArtifactReport, ReconcileError, issue_of, orphaned, ◌then◌,
  collect_orphaned_page_files, text_numbers, ocr_numbers, pages_issues, document_issues,
  issue_before, found_issues, load_document_pages, reconcile_derived_artifacts_for_document,
}
use foia_search_mcp.Artifacts.Repair.{
  DerivedArtifactRepairAction, plan_issue, action_before, plan_derived_artifact_repairs,
  expected_path_for_action, expected_bytes_for_action,
}
use foia_search_mcp.Artifacts.Clean.{Holds}
use foia_search_mcp.Artifacts.Covered.{
  targets, Covers, then_left, push-Covers, CoversPage, page_left, page_right, pages-Covers,
}
use foia_search_mcp.Artifacts.Actions.{
  Numbered, IsWanted, Good, found-Good, then-Good, push-Good, collect-Good, pages-Good,
}

module _ (as_bytes : Chars → Chars) (display : FilePath → String) (key : String)
    (files : Files) where
  document-Good :
      (pages : List StoredPageText)
      → Good as_bytes display key pages files (document_issues as_bytes key pages files)
  unfolding render_document_text expected_path_for_action expected_bytes_for_action
  document-Good [] = elim (Option-cases (node_at (derived_document_text_path key) files)) [
    | inl gone ↦
        found-Good as_bytes display key [] files (document_issues as_bytes key [] files) []
          (ground (arith, gone)) tt
    | inr (node, there) ↦
        found-Good as_bytes display key [] files (document_issues as_bytes key [] files)
          (issue_of document_text orphaned (derived_document_text_path key) none
              "document has no stored pages"
            ∷ [])
          (ground (arith, there)) ((λ gone. cc), tt)
  ]
  document-Good (page ∷ pages) =
      push-Good as_bytes display key (page ∷ pages) files document_text
        (derived_document_text_path key) none (file_matches_rendered_pages as_bytes (page ∷ pages))
        _ (λ file. matches_rendered-eq as_bytes (page ∷ pages) file _ refl) refl refl

  all-Good :
      (pages : List StoredPageText)
      → Numbered pages pages
      → Good as_bytes display key pages files (found_issues as_bytes key pages files)
  unfolding found_issues
  all-Good pages numbered =
      let texts =
        collect_orphaned_page_files page_text (text_numbers pages) (text_page_dir key) files in
      let scans =
        collect_orphaned_page_files ocr_page_text (ocr_numbers pages) (ocr_page_dir key) files in
      let of_pages = pages_issues as_bytes key pages files in
      let both = then-Good as_bytes display key pages files in
      let orphans = collect-Good as_bytes display key pages files in
      both (document_issues as_bytes key pages files) (of_pages then texts then scans)
        (document-Good pages)
        (both of_pages (texts then scans)
          (pages-Good as_bytes display key pages files pages numbered)
          (both texts scans (orphans page_text (text_numbers pages) (text_page_dir key))
            (orphans ocr_page_text (ocr_numbers pages) (ocr_page_dir key))))

  plan-Good :
      (pages : List StoredPageText) (found : Result ReconcileError (List DerivedArtifactIssue))
      (report : DerivedArtifactReport)
      → Good as_bytes display key pages files found
      → ◌>>=◌ {B = DerivedArtifactReport} found
          (λ issues. ok (record { document_key = key; issues = sort_by issue_before issues }))
        ≡ ok report
      → All
          (IsWanted as_bytes display key pages files)
          (plan_derived_artifact_repairs report).actions
  unfolding plan_derived_artifact_repairs
  plan-Good pages (ok issues) report good h =
      let sorted =
        All-sort_by issue_before (λ i. IsWanted as_bytes display key pages files (plan_issue i))
          issues (good issues refl) in
      subst
        (λ (r : DerivedArtifactReport).
          All (IsWanted as_bytes display key pages files)
            (sort_by action_before (map plan_issue r.issues)))
        (ok_injective h)
        (All-sort_by action_before (IsWanted as_bytes display key pages files)
          (map plan_issue (sort_by issue_before issues))
          (All-map plan_issue (IsWanted as_bytes display key pages files)
            (sort_by issue_before issues) sorted))
  plan-Good pages (err e) report good h = absurd (ground arith)

  any-map :
      (p : DerivedArtifactRepairAction → Bool) (issues : List DerivedArtifactIssue)
      → any p (map plan_issue issues) ≡ any (λ i. p (plan_issue i)) issues
  any-map p [] = refl
  any-map p (i ∷ issues) = ap (λ b. p (plan_issue i) || b) (any-map p issues)

  length-map : (issues : List DerivedArtifactIssue) → length (map plan_issue issues) ≡ length issues
  length-map [] = refl
  length-map (i ∷ issues) = ap suc (length-map issues)

  -- If the file does not hold the content, one of the actions rewrites it.
  abbrev pub Rewrites :
      DerivedArtifactKind → FilePath → Option ℕ → Chars → List DerivedArtifactRepairAction → Type 0
  Rewrites kind path n content actions =
      ¬ Holds path content files → any (targets kind path n) actions ≡ true

  plan-Rewrites :
      (kind : DerivedArtifactKind) (path : FilePath) (n : Option ℕ) (content : Chars)
      (found : Result ReconcileError (List DerivedArtifactIssue)) (report : DerivedArtifactReport)
      → ◌>>=◌ {B = DerivedArtifactReport} found
          (λ issues. ok (record { document_key = key; issues = sort_by issue_before issues }))
        ≡ ok report
      → Covers files kind path n content found
      → Rewrites kind path n content (plan_derived_artifact_repairs report).actions
  unfolding plan_derived_artifact_repairs
  plan-Rewrites kind path n content (err e) report h covers other = absurd (ground arith)
  plan-Rewrites kind path n content (ok issues) report h covers other =
      subst
        (λ (r : DerivedArtifactReport).
          any (targets kind path n) (sort_by action_before (map plan_issue r.issues)) ≡ true)
        (ok_injective h)
        (any-sort_by action_before (targets kind path n)
            (map plan_issue (sort_by issue_before issues))
          ∙ any-map (targets kind path n) (sort_by issue_before issues)
          ∙ any-sort_by issue_before (λ i. targets kind path n (plan_issue i)) issues
          ∙ covers issues refl other)

  -- The rewrites are those of the files that do not hold what they should, and can be made.
  pub record IsExact (pages : List StoredPageText) (issues : ℕ)
      (actions : List DerivedArtifactRepairAction) : Type 0 where
    pub wanted : All (IsWanted as_bytes display key pages files) actions
    pub counted : length actions ≡ issues
    pub document :
        (text : Chars)
        → render_document_text as_bytes pages ≡ ok text
        → Rewrites document_text (derived_document_text_path key) none text actions
    pub texts :
        All
          (λ page.
            Rewrites page_text
              (derived_page_text_path key page.page_number)
              (some page.page_number)
              (as_bytes page.text)
              actions)
          pages
    pub scans :
        All
          (λ page.
            is_local_ocr page ≡ true
            → Rewrites ocr_page_text
                (derived_ocr_page_text_path key page.page_number)
                (some page.page_number)
                (as_bytes page.text)
                actions)
          pages

  document-Covers :
      (pages : List StoredPageText) (text : Chars)
      → render_document_text as_bytes pages ≡ ok text
      → Covers files document_text
          (derived_document_text_path key)
          none
          text
          (document_issues as_bytes key pages files)
  unfolding render_document_text
  document-Covers [] text h = absurd (ground arith)
  document-Covers (page ∷ pages) text h =
      push-Covers files document_text (derived_document_text_path key) none
        (file_matches_rendered_pages as_bytes (page ∷ pages)) text
        (λ file. matches_rendered-eq as_bytes (page ∷ pages) file text h)

  found-IsExact :
      (pages : List StoredPageText) (report : DerivedArtifactReport)
      → Numbered pages pages
      → ◌>>=◌ {B = DerivedArtifactReport}
          (found_issues as_bytes key pages files)
          (λ issues. ok (record { document_key = key; issues = sort_by issue_before issues }))
        ≡ ok report
      → IsExact pages (length report.issues) (plan_derived_artifact_repairs report).actions
  unfolding found_issues plan_derived_artifact_repairs
  found-IsExact pages report numbered h =
      let orphans =
        collect_orphaned_page_files page_text (text_numbers pages) (text_page_dir key) files
        then collect_orphaned_page_files ocr_page_text (ocr_numbers pages) (ocr_page_dir key)
            files in
      let first = document_issues as_bytes key pages files in
      let of_pages = pages_issues as_bytes key pages files in
      let found = found_issues as_bytes key pages files in
      let covered =
        All-impl {Q = CoversPage files as_bytes key found} pages
          (λ page c.
            page_right files as_bytes key first (of_pages then orphans) page
              (page_left files as_bytes key of_pages orphans page c))
          (pages-Covers files as_bytes key pages) in
      record {
        wanted = plan-Good pages found report (all-Good pages numbered) h;
        counted =
            length-sort_by action_before (map plan_issue report.issues) ∙ length-map report.issues;
        document = λ text rendered.
            plan-Rewrites document_text (derived_document_text_path key) none text found report h (
              then_left files document_text (derived_document_text_path key) none text first
                (of_pages then orphans) (document-Covers pages text rendered));
        texts =
            All-impl pages
              (λ page c.
                plan-Rewrites page_text (derived_page_text_path key page.page_number)
                  (some page.page_number) (as_bytes page.text) found report h c.0)
              covered;
        scans =
            All-impl pages
              (λ page c scanned.
                plan-Rewrites ocr_page_text (derived_ocr_page_text_path key page.page_number)
                  (some page.page_number) (as_bytes page.text) found report h (c.1 scanned))
              covered;
      }

-- If the stored pages of a document have positive and different numbers, the plan that is made from
-- a report on it has an action for each issue. It rewrites the file of the document's text, of each
-- page's text and of each page that local OCR read if that file does not hold the text, and no
-- others: an action's path and content are those that the repair computes for its kind and page.
-- Applied to the files of the report, the repair writes the content where nothing or a regular file
-- stands, and refuses the action where a directory or a special file does. An action that asks for a
-- review has the path of something that is there.
pub plan-IsExact :
    (as_bytes : Chars → Chars) (display : FilePath → String) (db : Database) (files : Files)
    (name : String) (m : StoredDocumentMetadata) (report : DerivedArtifactReport)
    → get_document_metadata name db ≡ ok m
    → Numbered (load_document_pages m.id db) (load_document_pages m.id db)
    → reconcile_derived_artifacts_for_document as_bytes db files name ≡ ok report
    → IsExact as_bytes display m.document.document_key files
        (load_document_pages m.id db)
        (length report.issues)
        (plan_derived_artifact_repairs report).actions
unfolding reconcile_derived_artifacts_for_document
plan-IsExact as_bytes display db files name m report found numbered h =
    found-IsExact as_bytes display m.document.document_key files (load_document_pages m.id db)
      report numbered (rw (found, get_document_metadata) at h)
