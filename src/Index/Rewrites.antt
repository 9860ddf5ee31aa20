-- ===== src/Index/Rewrites.antt =====
-- What a plan rewrites, and what applying it does to the rows of an identity.
use foia_search_mcp.Prelude.{
  Bool, true, false, ◌&&◌, ◌||◌, Option, none, some, List, [], ◌∷◌, ◌==◌, if◌then◌else◌, find, any,
  eq_iff, chars_eq_iff, has_map_key, append-nil, find-Memᴰ, keep-append, keep-delete_self,
  keep-delete_other, delete_where, Bool-cases, ok, inl, inr, ◌≡◌, refl, sym, ap, ◌∙◌, arith,
}
use foia_search_mcp.Documents.Tables.{FtsRow, Database}
use foia_search_mcp.Index.Reconcile.{
  missing, stale, orphaned, FtsReconciliationIssueKind, FtsReconciliationIssue, ChunkIdentity,
  identity_eq, CanonicalRow, identity_of, matches_canonical, canonical_rows,
}
use foia_search_mcp.Index.Verdict.{has_issue, kind_eq, identity_eq_iff, observed}
use foia_search_mcp.Index.Repair.{
  FtsRepairAction, rewrite_from_canonical, action_sort_key, plan_issues, wants_rewrite,
  issue_identity, action_identity, is_current, rewritten, load_canonical_row, load_fts_rows,
  rewrite_chunk_fts_from_canonical,
}

abbrev pub rewrites : ChunkIdentity → FtsRepairAction → Bool
rewrites k a =
    action_sort_key a.action == action_sort_key rewrite_from_canonical
    && identity_eq (action_identity a) k

abbrev among : ChunkIdentity → List ChunkIdentity → Bool
among k planned = any (λ p. identity_eq p k) planned

among_eq :
    (j k : ChunkIdentity) (planned : List ChunkIdentity)
    → identity_eq j k ≡ true
    → any (identity_eq j) planned ≡ among k planned
among_eq j k [] h = refl
among_eq j k (p ∷ planned) h =
    ground
      (arith, among_eq j k planned h, identity_eq_iff j k, identity_eq_iff j p, identity_eq_iff p k)

wants_eq :
    (kind : FtsReconciliationIssueKind)
    → wants_rewrite kind ≡ (kind_eq kind missing || kind_eq kind stale)
wants_eq missing = refl
wants_eq orphaned = refl
wants_eq stale = refl

-- A plan rewrites the identities with a missing or a stale row.
pub plan_issues-rewrites :
    (k : ChunkIdentity) (planned : List ChunkIdentity) (issues : List FtsReconciliationIssue)
    → (any (rewrites k) (plan_issues planned issues) || among k planned)
      ≡ ((any (has_issue missing k) issues || any (has_issue stale k) issues) || among k planned)
unfolding plan_issues
plan_issues-rewrites k planned [] = refl
plan_issues-rewrites k planned (i ∷ issues) =
    let again = plan_issues-rewrites k planned issues in
    let more = plan_issues-rewrites k (issue_identity i ∷ planned) issues in
    let wants = wants_eq i.issue in let same = among_eq (issue_identity i) k planned in ground arith

pub matches-eq : (f c : FtsRow) → matches_canonical f c ≡ true → f ≡ c
matches-eq f c h = ground (
  arith,
  eq_iff f.document_key c.document_key,
  eq_iff f.chunk_id c.chunk_id,
  eq_iff f.source c.source,
  eq_iff f.title c.title,
  chars_eq_iff f.body c.body,
)

current-eq : (rows : List FtsRow) (c : CanonicalRow) → is_current rows c ≡ true → rows ≡ c ∷ []
current-eq [] c h = cc
current-eq (f ∷ []) c h = ap (λ r. r ∷ []) (matches-eq f c h)
current-eq (f ∷ g ∷ rows) c h = cc

-- The canonical row that a repair reads.
abbrev pub canonical_at : ChunkIdentity → Database → Option CanonicalRow
canonical_at k db =
    find (has_map_key identity_eq identity_of k) (canonical_rows db.documents db.chunks)

abbrev pub exactly : Option CanonicalRow → List FtsRow → List FtsRow
exactly none rows = rows
exactly (some c) rows = c ∷ []

-- The index has the rows `to`, of a list of identities the canonical ones, of the others the old.
abbrev pub IsRewritten : (ChunkIdentity → Bool) → Database → Database → Type 0
IsRewritten picked db after =
    (after ≡ record db { chunk_fts = after.chunk_fts })
    × ((k : ChunkIdentity)
        → observed k after
          ≡ (if picked k then exactly (canonical_at k db) (observed k db) else observed k db))

observed-rewritten_self :
    (k : ChunkIdentity) (c : CanonicalRow) (db : Database)
    → identity_eq (identity_of c) k ≡ true
    → observed k (rewritten k c db) ≡ c ∷ []
observed-rewritten_self k c db h =
    keep-append (has_map_key identity_eq identity_of k)
      (delete_where (has_map_key identity_eq identity_of k) db.chunk_fts) (c ∷ [])
    ∙ rw (keep-delete_self (has_map_key identity_eq identity_of k) db.chunk_fts, h)

observed-rewritten_other :
    (j k : ChunkIdentity) (c : CanonicalRow) (db : Database)
    → identity_eq (identity_of c) j ≡ true
    → identity_eq j k ≡ false
    → observed k (rewritten j c db) ≡ observed k db
observed-rewritten_other j k c db h other =
    let away : identity_eq (identity_of c) k ≡ false =
      ap (λ i. identity_eq i k) ((identity_eq_iff (identity_of c) j).0 h) ∙ other in
    keep-append (has_map_key identity_eq identity_of k)
      (delete_where (has_map_key identity_eq identity_of j) db.chunk_fts) (c ∷ [])
    ∙ rw
        (
          away,
          keep-delete_other (has_map_key identity_eq identity_of k)
              (has_map_key identity_eq identity_of j) db.chunk_fts
              (λ f hit.
                ap (λ i. identity_eq i j) ((identity_eq_iff (identity_of f) k).0 hit)
                ∙ ground (arith, identity_eq_iff k j, identity_eq_iff j k)),
        )
        (append-nil _)

-- One rewrite, of an identity that has a canonical row.
pub rewrite-IsRewritten :
    (a : FtsRepairAction) (db : Database) (c : CanonicalRow)
    → canonical_at (action_identity a) db ≡ some c
    → (t : Database × Bool) × (rewrite_chunk_fts_from_canonical a db ≡ ok t)
      × IsRewritten (identity_eq (action_identity a)) db t.0
unfolding rewrite_chunk_fts_from_canonical load_canonical_row load_fts_rows
rewrite-IsRewritten a db c found =
    let j = action_identity a in
    let own =
      (find-Memᴰ (has_map_key identity_eq identity_of j) (canonical_rows db.documents db.chunks) c
        found).1 in
    elim (Bool-cases (is_current (observed j db) c)) [
      | inl current ↦ (
        (db, false),
        rw (load_canonical_row, found, current),
        (
          refl,
          λ k. elim (Bool-cases (identity_eq j k)) [
            | inl same ↦
                let at : j ≡ k = (identity_eq_iff j k).0 same in
                rw (same, ap (λ i. canonical_at i db) (sym at), found)
                  (ap (λ i. observed i db) (sym at) ∙ current-eq (observed j db) c current)
            | inr other ↦ rw other
          ],
        ),
      )
      | inr old ↦ (
        (rewritten j c db, true),
        rw (load_canonical_row, found, old),
        (
          refl,
          λ k. elim (Bool-cases (identity_eq j k)) [
            | inl same ↦
                let at : j ≡ k = (identity_eq_iff j k).0 same in
                rw (same, ap (λ i. canonical_at i db) (sym at), found)
                  (ap (λ i. observed i (rewritten j c db)) (sym at)
                    ∙ observed-rewritten_self j c db own)
            | inr other ↦ rw other (observed-rewritten_other j k c db own other)
          ],
        ),
      )
    ]
