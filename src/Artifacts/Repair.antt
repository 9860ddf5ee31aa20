-- ===== src/Artifacts/Repair.antt =====
-- src/ingest/reconcile_repair.rs: the plan of the repairs that a report asks for; and the checks of
-- src/ingest/reconcile_repair_apply.rs that come before a file is written.
use foia_search_mcp.Prelude.{
  ℕ, ltb, ◌==◌, Bool, true, false, if◌then◌else◌, String, Option, none, some, List, [], ◌∷◌, map,
  find, Chars, str_eq, str_lt, decimal, format, sort_by, Result, ok, err, ◌>>=◌, map_err,
}
use foia_search_mcp.Store.{StoreError}
use foia_search_mcp.Documents.Read.{StoredPageText}
use foia_search_mcp.Artifacts.Files.{
  FilePath, path_eq, Node, Files, node_at, regular, unreadable, directory, special,
  derived_document_text_path, derived_page_text_path, derived_ocr_page_text_path,
}
use foia_search_mcp.Artifacts.Compare.{file_matches_bytes, render_document_text}
use foia_search_mcp.Artifacts.Report.{
  DerivedArtifactKind, document_text, page_text, ocr_page_text, DerivedArtifactIssueKind, orphaned,
  DerivedArtifactIssue, DerivedArtifactReport, kind_rank, path_lt, number_lt, number_eq, by_field,
}

pub data DerivedArtifactRewriteReason : Type 0 where
  missing stale : DerivedArtifactRewriteReason

pub data DerivedArtifactRepairAction : Type 0 where
  rewrite_from_sqlite :
      (kind : DerivedArtifactKind) (path : FilePath) (page_number : Option ℕ)
      (reason : DerivedArtifactRewriteReason)
      → DerivedArtifactRepairAction
  manual_review :
      (kind : DerivedArtifactKind) (path : FilePath) (page_number : Option ℕ) (detail : String)
      → DerivedArtifactRepairAction

pub record DerivedArtifactRepairPlan : Type 0 where
  pub document_key : String
  pub actions : List DerivedArtifactRepairAction

abbrev plan_as : DerivedArtifactIssueKind → DerivedArtifactIssue → DerivedArtifactRepairAction
plan_as DerivedArtifactIssueKind.missing i = rewrite_from_sqlite i.kind i.path i.page_number missing
plan_as DerivedArtifactIssueKind.stale i = rewrite_from_sqlite i.kind i.path i.page_number stale
plan_as orphaned i = manual_review i.kind i.path i.page_number i.detail

abbrev pub plan_issue : DerivedArtifactIssue → DerivedArtifactRepairAction
plan_issue i = plan_as i.issue i

-- The derived orders.
abbrev reason_lt : DerivedArtifactRewriteReason → DerivedArtifactRewriteReason → Bool
reason_lt missing missing = false
reason_lt missing stale = true
reason_lt stale r = false

abbrev target_lt :
    DerivedArtifactKind
    → FilePath
    → Option ℕ
    → DerivedArtifactKind
    → FilePath
    → Option ℕ
    → Bool
    → Bool
target_lt k p n l q m later =
    by_field (ltb (kind_rank k) (kind_rank l)) (kind_rank k == kind_rank l)
      (by_field (path_lt p q) (path_eq p q) (by_field (number_lt n m) (number_eq n m) later))

abbrev pub action_before : DerivedArtifactRepairAction → DerivedArtifactRepairAction → Bool
action_before (rewrite_from_sqlite k p n r) (rewrite_from_sqlite l q m s) =
    target_lt k p n l q m (reason_lt r s)
action_before (rewrite_from_sqlite k p n r) (manual_review l q m d) = true
action_before (manual_review k p n d) (rewrite_from_sqlite l q m s) = false
action_before (manual_review k p n d) (manual_review l q m e) = target_lt k p n l q m (str_lt d e)

unfoldable pub plan_derived_artifact_repairs : DerivedArtifactReport → DerivedArtifactRepairPlan
plan_derived_artifact_repairs report = record {
  document_key = report.document_key;
  actions = sort_by action_before (map plan_issue report.issues);
}

pub data RepairApplyError : Type 0 where
  store : StoreError → RepairApplyError
  invalid_action : (detail : String) → RepairApplyError
  io : (operation : String) (path : FilePath) (source : String) → RepairApplyError

abbrev kind_name : DerivedArtifactKind → String
kind_name document_text = "DocumentText"
kind_name page_text = "PageText"
kind_name ocr_page_text = "OcrPageText"

abbrev validate_page_number : Option ℕ → DerivedArtifactKind → Result RepairApplyError ℕ
validate_page_number none kind =
    err (invalid_action (format (kind_name kind ∷ " rewrite requires a positive page_number" ∷ [])))
validate_page_number (some value) kind =
    if ltb 0 value
    then ok value
    else err
        (invalid_action (format (kind_name kind ∷ " rewrite requires a positive page_number" ∷ [])))

unfoldable pub expected_path_for_action :
    String → DerivedArtifactKind → Option ℕ → Result RepairApplyError FilePath
expected_path_for_action key document_text none = ok (derived_document_text_path key)
expected_path_for_action key document_text (some n) =
    err (invalid_action "document text rewrite must not include page_number")
expected_path_for_action key page_text n =
    validate_page_number n page_text >>= λ n. ok (derived_page_text_path key n)
expected_path_for_action key ocr_page_text n =
    validate_page_number n ocr_page_text >>= λ n. ok (derived_ocr_page_text_path key n)

abbrev pub page_by_number : List StoredPageText → ℕ → Result RepairApplyError StoredPageText
page_by_number pages n = elim (find (λ page. page.page_number == n) pages) [
  | none ↦ err (invalid_action (format ("no stored page " ∷ decimal n ∷ " exists in SQLite" ∷ [])))
  | some page ↦ ok page
]

module _ (as_bytes : Chars → Chars) where
  unfoldable pub expected_bytes_for_action :
      DerivedArtifactKind → Option ℕ → List StoredPageText → Result RepairApplyError Chars
  unfolding render_document_text
  expected_bytes_for_action document_text n pages =
      map_err invalid_action (render_document_text as_bytes pages)
  expected_bytes_for_action page_text n pages = validate_page_number n page_text >>= λ n.
      page_by_number pages n >>= λ page. ok (as_bytes page.text)
  expected_bytes_for_action ocr_page_text n pages = validate_page_number n ocr_page_text >>= λ n.
      page_by_number pages n >>= λ page.
      if str_eq page.text_source "local_ocr"
      then ok (as_bytes page.text)
      else err (
          invalid_action (
            format (
              "page "
              ∷ decimal n
              ∷ " text_source '"
              ∷ page.text_source
              ∷ "' is not 'local_ocr' for OcrPageText rewrite"
              ∷ [])))

-- What `apply_derived_artifact_repairs` is to do for an action.
pub data ActionStep : Type 0 where
  skip_manual_review already_current : ActionStep
  write_file : (bytes : Chars) → ActionStep

-- `display` shows a path, for the texts of errors.
module _ (as_bytes : Chars → Chars) (display : FilePath → String) where
  abbrev not_regular : FilePath → RepairApplyError
  not_regular path =
      invalid_action (format ("target path '" ∷ display path ∷ "' is not a regular file" ∷ []))

  abbrev pub inspect_target : FilePath → Chars → Option Node → Result RepairApplyError ActionStep
  inspect_target path bytes none = ok (write_file bytes)
  inspect_target path bytes (some (regular file)) =
      if file_matches_bytes bytes file then ok already_current else ok (write_file bytes)
  inspect_target path bytes (some (unreadable e)) = err (io "compare_text_file" path e)
  inspect_target path bytes (some directory) = err (not_regular path)
  inspect_target path bytes (some special) = err (not_regular path)

  -- The body of the loop, up to the call of `write_file_atomic`.
  unfoldable pub check_action :
      String
      → List StoredPageText
      → Files
      → DerivedArtifactRepairAction
      → Result RepairApplyError ActionStep
  unfolding expected_path_for_action expected_bytes_for_action file_matches_bytes
  check_action key pages files (manual_review kind path n detail) = ok skip_manual_review
  check_action key pages files (rewrite_from_sqlite kind path n reason) =
      expected_path_for_action key kind n >>= λ expected_path.
      if path_eq path expected_path
      then (expected_bytes_for_action as_bytes kind n pages >>= λ bytes.
          inspect_target path bytes (node_at path files))
      else err (
          invalid_action (
            format (
              "action path '"
              ∷ display path
              ∷ "' does not match canonical path '"
              ∷ display expected_path
              ∷ "'"
              ∷ [])))
