-- ===== src/Index/Again.antt =====
-- A report after the repairs of the one before.
use foia_search_mcp.Prelude.{
  Distinct, ℕ, true, ◌&&◌, Option, none, some, List, [], ◌∷◌, any, eq_refl, chars_eq_iff, ◌≡◌, refl,
  ap, ◌∙◌, arith,
}
use foia_search_mcp.Documents.Tables.{FtsRow, Database}
use foia_search_mcp.Documents.Columns.{key_of}
use foia_search_mcp.Documents.Insert.{OnePerChunk}
use foia_search_mcp.Index.Reconcile.{
  FtsReconciliationIssueKind, orphaned, ChunkIdentity, CanonicalRow, matches_canonical,
  reconcile_sqlite_fts_index,
}
use foia_search_mcp.Index.Verdict.{
  has_issue, kind_eq, says, verdict, observed, canonical_of, reconcile-IsVerdict,
}
use foia_search_mcp.Index.Rewrites.{exactly}
use foia_search_mcp.Index.Surface.{expected_confirmation, apply_sqlite_fts_repairs}
use foia_search_mcp.Index.Repaired.{IsRepaired, plan-IsRepaired}

matches_self : (c : CanonicalRow) → matches_canonical c c ≡ true
matches_self c = ground (
  arith,
  eq_refl c.document_key,
  eq_refl c.chunk_id,
  eq_refl c.source,
  eq_refl c.title,
  (chars_eq_iff c.body c.body).1 refl,
)

verdict-exactly :
    (kind : FtsReconciliationIssueKind) (o : Option CanonicalRow) (rows : List FtsRow)
    → says kind (verdict o (exactly o rows))
      ≡ (kind_eq orphaned kind && says orphaned (verdict o rows))
verdict-exactly kind none [] = ground arith
verdict-exactly kind none (f ∷ rows) = ground arith
verdict-exactly kind (some c) [] = rw (matches_self c) (ground arith)
verdict-exactly kind (some c) (f ∷ []) = rw (matches_self c) (ground arith)
verdict-exactly kind (some c) (f ∷ g ∷ rows) = rw (matches_self c) (ground arith)

module _ (rowid rowid' : ℕ → ℕ) (db : Database) (kind : FtsReconciliationIssueKind)
    (k : ChunkIdentity) where
  repaired-verdict :
      (after : Database)
      → IsRepaired db after
      → any (has_issue kind k) (reconcile_sqlite_fts_index rowid' after).issues ≡ (
          kind_eq orphaned kind
          && any (has_issue orphaned k) (reconcile_sqlite_fts_index rowid db).issues)
  repaired-verdict after (same, rows) =
      let canonical : canonical_of k after ≡ canonical_of k db = ap (canonical_of k) same in
      (reconcile-IsVerdict rowid' after kind k).0
      ∙ rw (canonical, rows k, (reconcile-IsVerdict rowid db orphaned k).0)
          (verdict-exactly kind (canonical_of k db) (observed k db))

-- If no two documents have one key and no two chunks of a document one id, whatever the rows of the
-- index, a report after a confirmed repair has only orphaned rows, those of the report before it.
pub report-after_repairs :
    (rowid rowid' : ℕ → ℕ) (db : Database) (kind : FtsReconciliationIssueKind) (k : ChunkIdentity)
    → Distinct key_of db.documents
    → OnePerChunk db.chunks
    → any
        (has_issue kind k)
        (reconcile_sqlite_fts_index rowid'
          (apply_sqlite_fts_repairs rowid expected_confirmation db).0).issues
      ≡ (kind_eq orphaned kind
          && any (has_issue orphaned k) (reconcile_sqlite_fts_index rowid db).issues)
unfolding apply_sqlite_fts_repairs
report-after_repairs rowid rowid' db kind k keyed once =
    let (t, ran, repaired) = plan-IsRepaired rowid db keyed once in
    rw ran (repaired-verdict rowid rowid' db kind k t.0 repaired)
