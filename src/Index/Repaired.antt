-- ===== src/Index/Repaired.antt =====
-- The tables after the repairs of a fresh report.
use foia_search_mcp.Prelude.{
  Distinct, ℕ, ◌+◌, String, Bool, true, false, ◌||◌, Option, none, some, List, [], ◌∷◌,
  if◌then◌else◌, length, any, eq_iff, str_eq, any-sort_by, Option-cases, Bool-cases, Result, ok,
  err, ◌>>=◌, inl, inr, ◌≡◌, ◌≢◌, refl, sym, ap, ◌∙◌, arith,
}
use foia_search_mcp.Documents.Tables.{FtsRow, Database}
use foia_search_mcp.Documents.Columns.{key_of}
use foia_search_mcp.Documents.Insert.{OnePerChunk}
use foia_search_mcp.Index.Reconcile.{
  missing, stale, ChunkIdentity, identity_eq, CanonicalRow, matches_canonical,
  reconcile_sqlite_fts_index,
}
use foia_search_mcp.Index.Verdict.{
  says, verdict, identity_eq_iff, observed, canonical_of, reconcile-IsVerdict,
}
use foia_search_mcp.Index.Repair.{
  FtsRepairAction, FtsRepairPlan, FtsRepairActionKind, FtsRepairApplyResult, rewrite_from_canonical,
  manual_review_orphan, plan_issues, action_before, plan_sqlite_fts_repairs, action_identity,
  counted, rewrite_chunk_fts_from_canonical, apply_action, apply_actions,
  apply_sqlite_fts_repair_plan,
}
use foia_search_mcp.Index.Surface.{
  FtsRepairSurfaceError, SqliteFtsRepairApplyResponse, invalid_request, expected_confirmation,
  apply_sqlite_fts_repairs,
}
use foia_search_mcp.Index.Canonical.{canonical_at-eq}
use foia_search_mcp.Index.Rewrites.{
  matches-eq, rewrites, plan_issues-rewrites, canonical_at, exactly, IsRewritten,
  rewrite-IsRewritten,
}

module _ (p q : ChunkIdentity → Bool) (db between after : Database) where
  IsRewritten-trans :
      IsRewritten p db between
      → IsRewritten q between after
      → IsRewritten (λ k. p k || q k) db after
  IsRewritten-trans (same, first) (same', later) = (
    same' ∙ ap (λ (x : Database). record x { chunk_fts = after.chunk_fts }) same,
    λ k.
        let canonical : canonical_at k between ≡ canonical_at k db = ap (canonical_at k) same in
        later k
        ∙ rw (canonical, first k)
            (elim (Option-cases (canonical_at k db)) [
              | inl absent ↦ rw absent (ground arith)
              | inr (c, found) ↦ rw found (ground arith)
            ]),
  )

-- That actions can be applied, and what they rewrite.
abbrev Applies : List FtsRepairAction → Database × FtsRepairApplyResult → Type 0
Applies actions s =
    (t : Database × FtsRepairApplyResult) × (apply_actions actions s ≡ ok t)
    × IsRewritten (λ k. any (rewrites k) actions) s.0 t.0

abbrev HasCanonical : (ChunkIdentity → Bool) → Database → Type 0
HasCanonical picked db =
    (k : ChunkIdentity) → picked k ≡ true → (c : CanonicalRow) × (canonical_at k db ≡ some c)

module _ (a : FtsRepairAction) (rest : List FtsRepairAction)
    (s : Database × FtsRepairApplyResult) where
  after-rewrite :
      (t : Database × Bool) (u : Database × FtsRepairApplyResult)
      → a.action ≡ rewrite_from_canonical
      → rewrite_chunk_fts_from_canonical a s.0 ≡ ok t
      → IsRewritten (identity_eq (action_identity a)) s.0 t.0
      → apply_actions rest (t.0, counted t.1 s.1) ≡ ok u
      → IsRewritten (λ k. any (rewrites k) rest) t.0 u.0
      → Applies (a ∷ rest) s
  unfolding apply_actions apply_action
  after-rewrite t u e ran one ran' more = (
    u,
    ap (λ kind. apply_action a kind s >>= apply_actions rest) e ∙ rw (apply_action, ran) ran',
    rw e (
        IsRewritten-trans (identity_eq (action_identity a)) (λ k. any (rewrites k) rest) s.0 t.0 u.0
          one more),
  )

  after-review :
      (u : Database × FtsRepairApplyResult)
      → a.action ≡ manual_review_orphan
      → apply_actions rest (s.0, record s.1 { manual_review_count = s.1.manual_review_count + 1 })
        ≡ ok u
      → IsRewritten (λ k. any (rewrites k) rest) s.0 u.0
      → Applies (a ∷ rest) s
  unfolding apply_actions apply_action
  after-review u e ran more =
      (u, ap (λ kind. apply_action a kind s >>= apply_actions rest) e ∙ ran, rw e more)

-- Applying actions whose rewrites all have a canonical row succeeds, and rewrites just these.
apply_actions-IsRewritten :
    (actions : List FtsRepairAction) (s : Database × FtsRepairApplyResult)
    → HasCanonical (λ k. any (rewrites k) actions) s.0
    → Applies actions s
unfolding apply_actions apply_action
apply_actions-IsRewritten [] s known = (s, refl, (refl, λ k. refl))
apply_actions-IsRewritten (a ∷ rest) s known = go a.action refl (apply_actions-IsRewritten rest)
  where
    go :
        (kind : FtsRepairActionKind)
        → a.action ≡ kind
        → ((u : Database × FtsRepairApplyResult)
            → HasCanonical (λ k. any (rewrites k) rest) u.0
            → Applies rest u)
        → Applies (a ∷ rest) s
    go rewrite_from_canonical e later =
        let own = (identity_eq_iff (action_identity a) (action_identity a)).1 refl in
        let (c, found) = known (action_identity a) (rw (e, own)) in
        let (t, ran, one) = rewrite-IsRewritten a s.0 c found in
        let (u, ran', more) =
          later (t.0, counted t.1 s.1)
            (λ k h.
              let (d, there) = known k (ground arith) in (d, ap (canonical_at k) one.0 ∙ there)) in
        after-rewrite a rest s t u e ran one ran' more
    go manual_review_orphan e later =
        let (u, ran, more) =
          later (s.0, record s.1 { manual_review_count = s.1.manual_review_count + 1 })
            (λ k h. known k (ground arith)) in
        after-review a rest s u e ran more

-- What has no missing and no stale row is in the index as it should be.
settled :
    (o : Option CanonicalRow) (rows : List FtsRow)
    → (says missing (verdict o rows) || says stale (verdict o rows)) ≡ false
    → rows ≡ exactly o rows
settled none rows h = refl
settled (some c) [] h = cc
settled (some c) (f ∷ []) h = elim (Bool-cases (matches_canonical f c)) [
  | inl same ↦ ap (λ r. r ∷ []) (matches-eq f c same)
  | inr other ↦ absurd (ground arith)
]
settled (some c) (f ∷ g ∷ rows) h = absurd (ground arith)

-- What is missing or stale has a canonical row.
unsettled :
    (o : Option CanonicalRow) (rows : List FtsRow)
    → (says missing (verdict o rows) || says stale (verdict o rows)) ≡ true
    → (c : CanonicalRow) × (o ≡ some c)
unsettled none [] h = absurd (ground arith)
unsettled none (f ∷ rows) h = absurd (ground arith)
unsettled (some c) rows h = (c, refl)

abbrev plan_of : (ℕ → ℕ) → Database → FtsRepairPlan
plan_of rowid db = plan_sqlite_fts_repairs (reconcile_sqlite_fts_index rowid db)

plan-rewrites :
    (rowid : ℕ → ℕ) (db : Database) (k : ChunkIdentity)
    → any (rewrites k) (plan_of rowid db).actions ≡ (
        says missing (verdict (canonical_of k db) (observed k db))
        || says stale (verdict (canonical_of k db) (observed k db)))
unfolding plan_sqlite_fts_repairs
plan-rewrites rowid db k =
    let issues = (reconcile_sqlite_fts_index rowid db).issues in
    let sorted = any-sort_by action_before (rewrites k) (plan_issues [] issues) in
    let picked = plan_issues-rewrites k [] issues in
    let gone = (reconcile-IsVerdict rowid db missing k).0 in
    let old = (reconcile-IsVerdict rowid db stale k).0 in sorted ∙ ground arith

-- Every chunk with a document has one row of the index, the equal one; nothing else has changed.
abbrev pub IsRepaired : Database → Database → Type 0
IsRepaired db after =
    (after ≡ record db { chunk_fts = after.chunk_fts })
    × ((k : ChunkIdentity) → observed k after ≡ exactly (canonical_of k db) (observed k db))

module _ (rowid : ℕ → ℕ) (db : Database) (keyed : Distinct key_of db.documents)
    (once : OnePerChunk db.chunks) where
  rows-exactly :
      (k : ChunkIdentity) (rows : List FtsRow)
      → rows ≡ (
          if any (rewrites k) (plan_of rowid db).actions
          then exactly (canonical_at k db) (observed k db)
          else observed k db)
      → rows ≡ exactly (canonical_of k db) (observed k db)
  rows-exactly k rows h = elim (Bool-cases (any (rewrites k) (plan_of rowid db).actions)) [
    | inl picked ↦ rw (picked, canonical_at-eq k db keyed once) at h
    | inr left ↦
        rw left at h
        ∙ settled (canonical_of k db) (observed k db) (sym (plan-rewrites rowid db k) ∙ left)
  ]

  run-IsRepaired :
      (t : Database × FtsRepairApplyResult)
      → apply_actions
          (plan_of rowid db).actions
          (db, record { rewritten_count = 0; skipped_count = 0; manual_review_count = 0 })
        ≡ ok t
      → IsRewritten (λ k. any (rewrites k) (plan_of rowid db).actions) db t.0
      → (apply_sqlite_fts_repair_plan (plan_of rowid db) db ≡ (t.0, ok t.1)) × IsRepaired db t.0
  unfolding apply_sqlite_fts_repair_plan
  run-IsRepaired t ran (same, rows) =
      (rw ran, (same, λ k. rows-exactly k (observed k t.0) (rows k)))

  pub plan-IsRepaired :
      (t : Database × FtsRepairApplyResult) × (apply_sqlite_fts_repair_plan (plan_of rowid db) db
        ≡ (t.0, ok t.1))
      × IsRepaired db t.0
  plan-IsRepaired =
      let (t, ran, changed) =
        apply_actions-IsRewritten (plan_of rowid db).actions
          (db, record { rewritten_count = 0; skipped_count = 0; manual_review_count = 0 })
          (λ k h.
            let (c, there) =
              unsettled (canonical_of k db) (observed k db) (sym (plan-rewrites rowid db k) ∙ h) in
            (c, canonical_at-eq k db keyed once ∙ there)) in
      let (done, repaired) = run-IsRepaired t ran changed in (t, done, repaired)

-- What the tool returns: a wrong confirmation changes nothing. With the right one it succeeds.
abbrev pub IsRepairRun :
    String
    → Database
    → ℕ
    → Database × Result FtsRepairSurfaceError SqliteFtsRepairApplyResponse
    → Type 0
IsRepairRun confirmation db issues (after, err e) =
    (confirmation ≢ expected_confirmation)
    × (after ≡ db)
    × (e ≡ invalid_request "confirmation must exactly match 'apply sqlite fts repairs'")
IsRepairRun confirmation db issues (after, ok r) =
    (confirmation ≡ expected_confirmation) × (r.issue_count ≡ issues) × IsRepaired db after

-- If no two documents have one key and no two chunks of a document one id, whatever the rows of the
-- index, the repair tool fails only if the confirmation is not the expected text, and then changes
-- nothing. Else it succeeds: each chunk that has a document then has exactly one row of the index,
-- equal to it, the rows of the index for no such chunk are as before, and no other table has changed.
pub apply_repairs-IsRepairRun :
    (rowid : ℕ → ℕ) (confirmation : String) (db : Database)
    → Distinct key_of db.documents
    → OnePerChunk db.chunks
    → IsRepairRun confirmation db
        (length (reconcile_sqlite_fts_index rowid db).issues)
        (apply_sqlite_fts_repairs rowid confirmation db)
unfolding apply_sqlite_fts_repairs
apply_repairs-IsRepairRun rowid confirmation db keyed once =
    elim (Bool-cases (str_eq confirmation expected_confirmation)) [
      | inl given ↦
          let (t, ran, repaired) = plan-IsRepaired rowid db keyed once in
          rw (given, ran) ((eq_iff confirmation expected_confirmation).0 given, refl, repaired)
      | inr other ↦
          rw other ((λ e. ground (arith, eq_iff confirmation expected_confirmation)), refl, refl)
    ]
