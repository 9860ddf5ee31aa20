-- ===== src/Index/Surface.antt =====
-- src/mcp/fts_repair.rs: the tools that report, plan and apply repairs of the index. Logging has no
-- part in it, and the errors of the store pass through.
use foia_search_mcp.Prelude.{
  ℕ, ◌-◌, String, Bool, ◌&&◌, List, [], ◌∷◌, ◌++◌, map, ◌==◌, ltb, if◌then◌else◌, length, keep, any,
  is_empty, str_eq, format, Result, ok, err,
}
use foia_search_mcp.Store.{StoreError}
use foia_search_mcp.Documents.Tables.{Database}
use foia_search_mcp.Index.Reconcile.{
  FtsReconciliationIssueKind, missing, orphaned, stale, FtsReconciliationIssue,
  reconcile_sqlite_fts_index, kind_rank,
}
use foia_search_mcp.Index.Repair.{
  FtsRepairActionKind, rewrite_from_canonical, manual_review_orphan, FtsRepairAction, FtsRepairPlan,
  FtsRepairApplyResult, action_sort_key, plan_sqlite_fts_repairs, apply_sqlite_fts_repair_plan,
}

pub data FtsRepairSurfaceError : Type 0 where
  invalid_request : String → FtsRepairSurfaceError
  reconcile : StoreError → FtsRepairSurfaceError

pub record SqliteFtsRepairIssue : Type 0 where
  pub issue : String
  pub document_key : String
  pub chunk_id : String
  pub detail : String

pub record SqliteFtsRepairReportResponse : Type 0 where
  pub canonical_chunk_count : ℕ
  pub chunk_fts_row_count : ℕ
  pub issue_count : ℕ
  pub issues : List SqliteFtsRepairIssue
  pub next_actions : List String

pub record SqliteFtsRepairAction : Type 0 where
  pub action : String
  pub document_key : String
  pub chunk_id : String
  pub reason : String

pub record SqliteFtsRepairPlanResponse : Type 0 where
  pub action_count : ℕ
  pub rewrite_count : ℕ
  pub manual_review_count : ℕ
  pub actions : List SqliteFtsRepairAction
  pub next_actions : List String

pub record SqliteFtsRepairApplyResponse : Type 0 where
  pub issue_count : ℕ
  pub rewritten : ℕ
  pub already_current : ℕ
  pub skipped_manual_review : ℕ
  pub next_actions : List String

abbrev pub expected_confirmation : String
expected_confirmation = "apply sqlite fts repairs"

abbrev issue_label : FtsReconciliationIssueKind → String
issue_label missing = "missing"
issue_label orphaned = "orphaned"
issue_label stale = "stale"

abbrev action_label : FtsRepairActionKind → String
action_label rewrite_from_canonical = "rewrite_from_canonical"
action_label manual_review_orphan = "manual_review"

abbrev is_orphaned : FtsReconciliationIssue → Bool
is_orphaned i = kind_rank i.issue == kind_rank orphaned

abbrev build_report_next_actions : List FtsReconciliationIssue → List String
build_report_next_actions issues =
    if is_empty issues
    then "No SQLite FTS index drift detected." ∷ []
    else if any is_orphaned issues
    then "Plan the drift before applying; orphaned chunk_fts rows are manual-review only." ∷ []
    else "Plan the drift before applying." ∷ []

abbrev has_action : FtsRepairActionKind → FtsRepairAction → Bool
has_action kind a = action_sort_key a.action == action_sort_key kind

abbrev build_plan_next_actions : List FtsRepairAction → List String
build_plan_next_actions actions =
    if is_empty actions
    then "No repair actions were required." ∷ []
    else if any (has_action manual_review_orphan) actions
    then format (
        "Review manual-review items first; apply skips them. To rewrite safe items, confirm: "
        ∷ expected_confirmation ∷ [])
      ∷ []
    else format
        ("Apply only if the scope is correct, with confirmation: " ∷ expected_confirmation ∷ [])
      ∷ []

abbrev manual_note : FtsRepairApplyResult → List String
manual_note r =
    if ltb 0 r.manual_review_count
    then "Manual-review chunk_fts rows remain; inspect the report and resolve them separately." ∷ []
    else []

abbrev build_apply_next_actions : List FtsReconciliationIssue → FtsRepairApplyResult → List String
build_apply_next_actions issues r =
    manual_note r
    ++ (if is_empty issues
        then "No SQLite FTS index drift was present."
        else if ltb 0 r.skipped_count && r.rewritten_count == 0
        then "All applicable repair targets were already current."
        else "Re-run report or plan if the canonical SQLite chunks have changed.")
      ∷ []

abbrev labelled_issue : FtsReconciliationIssue → SqliteFtsRepairIssue
labelled_issue i = record {
  issue = issue_label i.issue;
  document_key = i.document_key;
  chunk_id = i.chunk_id;
  detail = i.detail;
}

unfoldable pub report_sqlite_fts_drift : (ℕ → ℕ) → Database → SqliteFtsRepairReportResponse
unfolding reconcile_sqlite_fts_index
report_sqlite_fts_drift rowid db =
    let report = reconcile_sqlite_fts_index rowid db in
    record {
      canonical_chunk_count = report.canonical_chunk_count;
      chunk_fts_row_count = report.chunk_fts_row_count;
      issue_count = length report.issues;
      issues = map labelled_issue report.issues;
      next_actions = build_report_next_actions report.issues;
    }

abbrev labelled_action : FtsRepairAction → SqliteFtsRepairAction
labelled_action a = record {
  action = action_label a.action;
  document_key = a.document_key;
  chunk_id = a.chunk_id;
  reason = a.reason;
}

-- The subtraction saturates at 0.
abbrev plan_to_response : FtsRepairPlan → SqliteFtsRepairPlanResponse
plan_to_response plan =
    let rewrite_count = length (keep (has_action rewrite_from_canonical) plan.actions) in
    record {
      action_count = length plan.actions;
      rewrite_count = rewrite_count;
      manual_review_count = length plan.actions - rewrite_count;
      actions = map labelled_action plan.actions;
      next_actions = build_plan_next_actions plan.actions;
    }

-- `plan_sqlite_fts_repairs` of the tools.
unfoldable pub plan_repairs : (ℕ → ℕ) → Database → SqliteFtsRepairPlanResponse
unfolding reconcile_sqlite_fts_index plan_sqlite_fts_repairs
plan_repairs rowid db =
    plan_to_response (plan_sqlite_fts_repairs (reconcile_sqlite_fts_index rowid db))

abbrev pub applied :
    List FtsReconciliationIssue
    → Database × Result StoreError FtsRepairApplyResult
    → Database × Result FtsRepairSurfaceError SqliteFtsRepairApplyResponse
applied issues (db, err e) = (db, err (reconcile e))
applied issues (db, ok r) = (
  db,
  ok (record {
    issue_count = length issues;
    rewritten = r.rewritten_count;
    already_current = r.skipped_count;
    skipped_manual_review = r.manual_review_count;
    next_actions = build_apply_next_actions issues r;
  }),
)

unfoldable pub apply_sqlite_fts_repairs :
    (ℕ → ℕ)
    → String
    → Database
    → Database × Result FtsRepairSurfaceError SqliteFtsRepairApplyResponse
unfolding reconcile_sqlite_fts_index plan_sqlite_fts_repairs apply_sqlite_fts_repair_plan
apply_sqlite_fts_repairs rowid confirmation db =
    if str_eq confirmation expected_confirmation
    then (let report = reconcile_sqlite_fts_index rowid db in
        applied report.issues (apply_sqlite_fts_repair_plan (plan_sqlite_fts_repairs report) db))
    else (
      db,
      err (
          invalid_request
            (format ("confirmation must exactly match '" ∷ expected_confirmation ∷ "'" ∷ []))),
    )
