-- ===== src/Index/Verdict.antt =====
-- What a report says of one identity: by its canonical row and its rows in the index alone.
use foia_search_mcp.Prelude.{
  ℕ, suc, Bool, true, false, ◌&&◌, ◌||◌, Option, none, some, List, [], ◌∷◌, ◌++◌, map, ◌==◌,
  if◌then◌else◌, length, is_empty, keep, any, eq_iff, str_lt_irrefl, All, any-sort_by, keep-sort_by,
  length-sort_by, map_get, map_get-none, map_remove, pushed, rows_by_key, groups_by_key, last_or,
  has_map_key, IsKeyed, rows_by_key-IsKeyed, map_get-rows_by_key, pushed-groups_by_key,
  groups_by_key-All, pushed-remove_self, pushed-remove_other, delete_where-All, Bool-cases, inl,
  inr, ◌≡◌, ◌↔◌, refl, sym, ap, ◌∙◌, arith,
}
use foia_search_mcp.Documents.Tables.{FtsRow, Database}
use foia_search_mcp.Index.Reconcile.{
  FtsReconciliationIssueKind, missing, orphaned, stale, FtsReconciliationIssue, ChunkIdentity,
  identity_eq, identity_lt, CanonicalRow, IndexRow, identity_of, index_identity, matches_canonical,
  canonical_rows, before, index_before, load_canonical_rows, with_rowids, load_fts_rows,
  chunk_issues, orphan_issue, orphan_issues, all_issues, kind_rank, issue_before,
  reconcile_sqlite_fts_index,
}

-- What is wrong with the rows that the index has for a canonical row, or for none.
abbrev pub verdict : Option CanonicalRow → List FtsRow → Option FtsReconciliationIssueKind
verdict none [] = none
verdict none (f ∷ fs) = some orphaned
verdict (some c) [] = some missing
verdict (some c) (f ∷ []) = if matches_canonical f c then none else some stale
verdict (some c) (f ∷ g ∷ fs) = some stale

abbrev pub kind_eq : FtsReconciliationIssueKind → FtsReconciliationIssueKind → Bool
kind_eq a b = kind_rank a == kind_rank b

abbrev pub says : FtsReconciliationIssueKind → Option FtsReconciliationIssueKind → Bool
says kind none = false
says kind (some v) = kind_eq v kind

abbrev pub has_issue : FtsReconciliationIssueKind → ChunkIdentity → FtsReconciliationIssue → Bool
has_issue kind k i =
    kind_eq i.issue kind
    && identity_eq (record { document_key = i.document_key; chunk_id = i.chunk_id }) k

pub identity_eq_iff : (a b : ChunkIdentity) → (identity_eq a b ≡ true) ↔ (a ≡ b)
identity_eq_iff a b =
    ground (arith, eq_iff a.document_key b.document_key, eq_iff a.chunk_id b.chunk_id)

abbrev rows_of : List IndexRow → List FtsRow
rows_of rows = map (λ f. f.row) rows

-- What a chunk has pushed for it.
chunk_issues-verdict :
    (kind : FtsReconciliationIssueKind) (k : ChunkIdentity) (c : CanonicalRow)
    (rows : List IndexRow)
    → any (has_issue kind k) (chunk_issues c rows)
      ≡ (identity_eq (identity_of c) k && says kind (verdict (some c) (rows_of rows)))
unfolding chunk_issues
chunk_issues-verdict kind k c [] = ground arith
chunk_issues-verdict kind k c (f ∷ []) = elim (Bool-cases (matches_canonical f.row c)) [
  | inl e ↦ rw e (ground arith)
  | inr e ↦ rw e (ground arith)
]
chunk_issues-verdict kind k c (f ∷ g ∷ rows) = ground arith

any-orphan :
    (kind : FtsReconciliationIssueKind) (k j : ChunkIdentity) (rows : List IndexRow)
    → any (has_issue kind k) (map (orphan_issue j) rows)
      ≡ (identity_eq j k && says kind (verdict none (rows_of rows)))
any-orphan kind k j [] = ground arith
any-orphan kind k j (f ∷ rows) = ground (arith, any-orphan kind k j rows)

any_both : {A : Type 0} (p : A → Bool) (t u : List A) → any p (t ++ u) ≡ (any p t || any p u)
any_both p [] u = refl
any_both p (x ∷ t) u = ground (arith, any_both p t u)

orphaned_once :
    (kind : FtsReconciliationIssueKind) (t u : List IndexRow)
    → is_empty t ≡ false
    → (says kind (verdict none (rows_of t)) || says kind (verdict none (rows_of u)))
      ≡ says kind (verdict none (rows_of t))
orphaned_once kind [] u h = cc
orphaned_once kind (f ∷ t) [] h = ground arith
orphaned_once kind (f ∷ t) (g ∷ u) h = ground arith

orphans-verdict :
    (kind : FtsReconciliationIssueKind) (k : ChunkIdentity)
    (g : List (ChunkIdentity × List IndexRow))
    → All (λ e. is_empty e.1 ≡ false) g
    → any (has_issue kind k) (orphan_issues g)
      ≡ says kind (verdict none (rows_of (pushed identity_eq k g)))
orphans-verdict kind k [] h = refl
orphans-verdict kind k (e ∷ g) h =
    let both = any_both (has_issue kind k) (map (orphan_issue e.0) e.1) (orphan_issues g) in
    let here = any-orphan kind k e.0 e.1 in
    let later = orphans-verdict kind k g h.1 in
    elim (Bool-cases (identity_eq e.0 k)) [
      | inl same ↦
          rw (both, here, later, same) (orphaned_once kind e.1 (pushed identity_eq k g) h.0)
      | inr other ↦ rw (both, here, later, other)
    ]

-- The whole loop, on one identity.
all_issues-verdict :
    (kind : FtsReconciliationIssueKind) (k : ChunkIdentity)
    (m : List (ChunkIdentity × CanonicalRow)) (g : List (ChunkIdentity × List IndexRow))
    → IsKeyed identity_eq identity_of m
    → All (λ e. is_empty e.1 ≡ false) g
    → any (has_issue kind k) (all_issues m g)
      ≡ says kind (verdict (map_get identity_eq k m) (rows_of (pushed identity_eq k g)))
unfolding all_issues
all_issues-verdict kind k [] g keyed full = orphans-verdict kind k g full
all_issues-verdict kind k (e ∷ m) g keyed full =
    let rest = map_remove identity_eq e.0 g in
    let later =
      all_issues-verdict kind k m rest (keyed.0.1, keyed.1.1)
        (delete_where-All (λ e. is_empty e.1 ≡ false) (λ x. identity_eq x.0 e.0) g full) in
    let here = chunk_issues-verdict kind k e.1 (pushed identity_eq e.0 g) in
    let both =
      any_both (has_issue kind k) (chunk_issues e.1 (pushed identity_eq e.0 g))
        (all_issues m rest) in
    elim (Bool-cases (identity_eq e.0 k)) [
      | inl same ↦
          let at : e.0 ≡ k = (identity_eq_iff e.0 k).0 same in
          let gone =
            ap (λ j. pushed identity_eq k (map_remove identity_eq j g)) at
            ∙ pushed-remove_self identity_eq identity_eq_iff k g in
          let owned : identity_eq (identity_of e.1) k ≡ true =
            ap (λ j. identity_eq j k) keyed.0.0 ∙ same in
          let new = map_get-none identity_eq identity_eq_iff k m (rw at at keyed.1.0) in
          rw (both, here, later, new, gone, owned, same, ap (λ j. pushed identity_eq j g) at)
            (ground arith)
      | inr other ↦
          let owned : identity_eq (identity_of e.1) k ≡ false =
            ap (λ j. identity_eq j k) keyed.0.0 ∙ other in
          let kept = pushed-remove_other identity_eq identity_eq_iff k e.0 g other in
          rw (both, here, later, kept, owned, other)
    ]

rows_of-with_rowids :
    (rowid : ℕ → ℕ) (k : ChunkIdentity) (n : ℕ) (fts : List FtsRow)
    → rows_of (keep (has_map_key identity_eq index_identity k) (with_rowids rowid n fts))
      ≡ keep (has_map_key identity_eq identity_of k) fts
rows_of-with_rowids rowid k n [] = refl
rows_of-with_rowids rowid k n (f ∷ fts) = ground (arith, rows_of-with_rowids rowid k (suc n) fts)

identity_lt_irrefl : (k : ChunkIdentity) → identity_lt k k ≡ false
identity_lt_irrefl k = ground (arith, str_lt_irrefl k.document_key, str_lt_irrefl k.chunk_id)

-- Rows of one identity are not before one another.
level :
    (k a b : ChunkIdentity)
    → identity_eq a k ≡ true
    → identity_eq b k ≡ true
    → identity_lt b a ≡ false
level k a b h j =
    let same : b ≡ a = (identity_eq_iff b k).0 j ∙ sym ((identity_eq_iff a k).0 h) in
    ap (λ x. identity_lt x a) same ∙ identity_lt_irrefl a

-- The canonical row and the rows of the index that have an identity.
abbrev pub canonical_of : ChunkIdentity → Database → Option CanonicalRow
canonical_of k db =
    last_or none
      (keep (has_map_key identity_eq identity_of k) (canonical_rows db.documents db.chunks))

abbrev pub observed : ChunkIdentity → Database → List FtsRow
observed k db = keep (has_map_key identity_eq identity_of k) db.chunk_fts

length-with_rowids :
    (rowid : ℕ → ℕ) (n : ℕ) (fts : List FtsRow) → length (with_rowids rowid n fts) ≡ length fts
length-with_rowids rowid n [] = refl
length-with_rowids rowid n (f ∷ fts) = ap suc (length-with_rowids rowid (suc n) fts)

-- What the maps of the code have under an identity.
mapped :
    (k : ChunkIdentity) (db : Database)
    → map_get identity_eq k (rows_by_key identity_eq identity_of (load_canonical_rows db) [])
      ≡ canonical_of k db
mapped k db =
    map_get-rows_by_key identity_eq identity_eq_iff identity_of k (load_canonical_rows db) []
    ∙ ap (last_or none) (
        keep-sort_by before (has_map_key identity_eq identity_of k)
          (λ a b. level k (identity_of a) (identity_of b)) (canonical_rows db.documents db.chunks))

grouped :
    (rowid : ℕ → ℕ) (k : ChunkIdentity) (db : Database)
    → rows_of (
        pushed identity_eq k (groups_by_key identity_eq index_identity (load_fts_rows rowid db) []))
      ≡ observed k db
grouped rowid k db =
    ap rows_of (
      pushed-groups_by_key identity_eq identity_eq_iff index_identity k (load_fts_rows rowid db) [])
    ∙ ap rows_of (
        keep-sort_by index_before (has_map_key identity_eq index_identity k)
          (λ a b. level k (index_identity a) (index_identity b)) (with_rowids rowid 0 db.chunk_fts))
    ∙ rows_of-with_rowids rowid k 0 db.chunk_fts

-- The report has an issue of a kind for an identity exactly if that is what is wrong with it: no
-- row of the index for a canonical chunk, a row for no chunk, or rows that are not one equal row.
-- It counts the chunks that have a document and the rows of the index.
pub reconcile-IsVerdict :
    (rowid : ℕ → ℕ) (db : Database) (kind : FtsReconciliationIssueKind) (k : ChunkIdentity)
    → (any (has_issue kind k) (reconcile_sqlite_fts_index rowid db).issues
        ≡ says kind (verdict (canonical_of k db) (observed k db)))
      × ((reconcile_sqlite_fts_index rowid db).canonical_chunk_count
          ≡ length (canonical_rows db.documents db.chunks))
      × ((reconcile_sqlite_fts_index rowid db).chunk_fts_row_count ≡ length db.chunk_fts)
unfolding reconcile_sqlite_fts_index
reconcile-IsVerdict rowid db kind k = (
  any-sort_by issue_before (has_issue kind k) _
      ∙ all_issues-verdict kind k _ _
          (rows_by_key-IsKeyed identity_eq identity_eq_iff identity_of (load_canonical_rows db) []
            (tt, tt))
          (groups_by_key-All identity_eq identity_eq_iff index_identity (load_fts_rows rowid db) []
            tt)
      ∙ rw (mapped k db, grouped rowid k db),
  length-sort_by before (canonical_rows db.documents db.chunks),
  length-sort_by index_before (with_rowids rowid 0 db.chunk_fts)
      ∙ length-with_rowids rowid 0 db.chunk_fts,
)
