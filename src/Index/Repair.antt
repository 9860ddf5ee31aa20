-- ===== src/Index/Repair.antt =====
-- src/index/reconcile_repair.rs: the repairs that a report asks for, and how they are made.
use foia_search_mcp.Prelude.{
  ℕ, ◌+◌, String, Bool, true, false, ◌&&◌, ◌||◌, none, some, List, [], ◌∷◌, ◌++◌, ◌==◌, ltb,
  if◌then◌else◌, find, keep, any, str_lt, sort_by, has_map_key, delete_where, Result, ok, err,
  ◌>>=◌,
}
use foia_search_mcp.Store.{StoreError, sqlite}
use foia_search_mcp.Documents.Tables.{FtsRow, Database}
use foia_search_mcp.Index.Reconcile.{
  FtsReconciliationIssueKind, missing, orphaned, stale, FtsReconciliationIssue,
  FtsReconciliationReport, ChunkIdentity, identity_eq, CanonicalRow, identity_of, matches_canonical,
  canonical_rows, then_before,
}

pub data FtsRepairActionKind : Type 0 where
  rewrite_from_canonical manual_review_orphan : FtsRepairActionKind

pub record FtsRepairAction : Type 0 where
  pub action : FtsRepairActionKind
  pub document_key : String
  pub chunk_id : String
  pub reason : String

pub record FtsRepairPlan : Type 0 where
  pub actions : List FtsRepairAction

pub record FtsRepairApplyResult : Type 0 where
  pub rewritten_count : ℕ
  pub skipped_count : ℕ
  pub manual_review_count : ℕ

abbrev action_of : FtsRepairActionKind → FtsReconciliationIssue → FtsRepairAction
action_of kind i = record {
  action = kind;
  document_key = i.document_key;
  chunk_id = i.chunk_id;
  reason = i.detail;
}

abbrev pub issue_identity : FtsReconciliationIssue → ChunkIdentity
issue_identity i = record { document_key = i.document_key; chunk_id = i.chunk_id }

abbrev pub wants_rewrite : FtsReconciliationIssueKind → Bool
wants_rewrite missing = true
wants_rewrite stale = true
wants_rewrite orphaned = false

-- The loop of `plan_sqlite_fts_repairs`, with the identities that have a rewrite already.
unfoldable pub plan_issues : List ChunkIdentity → List FtsReconciliationIssue → List FtsRepairAction
plan_issues planned [] = []
plan_issues planned (i ∷ is) =
    let again = plan_issues planned is in
    let more = plan_issues (issue_identity i ∷ planned) is in
    if wants_rewrite i.issue
    then if any (identity_eq (issue_identity i)) planned
      then again
      else action_of rewrite_from_canonical i ∷ more
    else action_of manual_review_orphan i ∷ again

abbrev pub action_sort_key : FtsRepairActionKind → ℕ
action_sort_key rewrite_from_canonical = 0
action_sort_key manual_review_orphan = 1

abbrev pub action_before : FtsRepairAction → FtsRepairAction → Bool
action_before a b = then_before a.document_key b.document_key (
    then_before a.chunk_id b.chunk_id (
      ltb (action_sort_key a.action) (action_sort_key b.action)
      || action_sort_key a.action == action_sort_key b.action && str_lt a.reason b.reason))

unfoldable pub plan_sqlite_fts_repairs : FtsReconciliationReport → FtsRepairPlan
unfolding plan_issues
plan_sqlite_fts_repairs report = record {
  actions = sort_by action_before (plan_issues [] report.issues);
}

-- The first row that the query yields; `query_row` fails if there is none.
unfoldable pub load_canonical_row : ChunkIdentity → Database → Result StoreError CanonicalRow
load_canonical_row k db =
    elim (find (has_map_key identity_eq identity_of k) (canonical_rows db.documents db.chunks)) [
      | none ↦ err (sqlite "Query returned no rows")
      | some c ↦ ok c
    ]

unfoldable pub load_fts_rows : ChunkIdentity → Database → List FtsRow
load_fts_rows k db = keep (has_map_key identity_eq identity_of k) db.chunk_fts

abbrev pub is_current : List FtsRow → CanonicalRow → Bool
is_current [] c = false
is_current (f ∷ []) c = matches_canonical f c
is_current (f ∷ g ∷ fs) c = false

abbrev pub action_identity : FtsRepairAction → ChunkIdentity
action_identity a = record { document_key = a.document_key; chunk_id = a.chunk_id }

-- The DELETE and the INSERT.
abbrev pub rewritten : ChunkIdentity → CanonicalRow → Database → Database
rewritten k c db = record db {
  chunk_fts = delete_where (has_map_key identity_eq identity_of k) db.chunk_fts ++ c ∷ [];
}

unfoldable pub rewrite_chunk_fts_from_canonical :
    FtsRepairAction → Database → Result StoreError (Database × Bool)
unfolding load_canonical_row load_fts_rows
rewrite_chunk_fts_from_canonical a db = load_canonical_row (action_identity a) db >>= λ c.
    if is_current (load_fts_rows (action_identity a) db) c
    then ok (db, false)
    else ok (rewritten (action_identity a) c db, true)

abbrev pub counted : Bool → FtsRepairApplyResult → FtsRepairApplyResult
counted true r = record r { rewritten_count = r.rewritten_count + 1 }
counted false r = record r { skipped_count = r.skipped_count + 1 }

unfoldable pub apply_action :
    FtsRepairAction
    → FtsRepairActionKind
    → Database × FtsRepairApplyResult
    → Result StoreError (Database × FtsRepairApplyResult)
unfolding rewrite_chunk_fts_from_canonical
apply_action a rewrite_from_canonical s =
    rewrite_chunk_fts_from_canonical a s.0 >>= λ t. ok (t.0, counted t.1 s.1)
apply_action a manual_review_orphan s =
    ok (s.0, record s.1 { manual_review_count = s.1.manual_review_count + 1 })

unfoldable pub apply_actions :
    List FtsRepairAction
    → Database × FtsRepairApplyResult
    → Result StoreError (Database × FtsRepairApplyResult)
unfolding apply_action
apply_actions [] s = ok s
apply_actions (a ∷ rest) s = apply_action a a.action s >>= apply_actions rest

-- A transaction that fails before its COMMIT is rolled back.
abbrev committed :
    Database
    → Result StoreError (Database × FtsRepairApplyResult)
    → Database × Result StoreError FtsRepairApplyResult
committed db (err e) = (db, err e)
committed db (ok s) = (s.0, ok s.1)

unfoldable pub apply_sqlite_fts_repair_plan :
    FtsRepairPlan → Database → Database × Result StoreError FtsRepairApplyResult
unfolding apply_actions
apply_sqlite_fts_repair_plan plan db = committed db (
    apply_actions plan.actions
      (db, record { rewritten_count = 0; skipped_count = 0; manual_review_count = 0 }))
