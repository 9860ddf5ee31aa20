-- ===== src/Index/Reconcile.antt =====
-- src/index/reconcile.rs: `reconcile_sqlite_fts_index`. Its errors are the engine's only, so that it
-- returns its report.
use foia_search_mcp.Prelude.{
  ℕ, suc, String, Bool, true, false, not, ◌&&◌, ◌||◌, Option, none, some, List, [], ◌∷◌, ◌++◌, map,
  ◌==◌, ltb, if◌then◌else◌, length, is_empty, find, keep, str_eq, str_lt, chars_eq, format, decimal,
  sort_by, map_remove, pushed, rows_by_key, groups_by_key,
}
use foia_search_mcp.Documents.Tables.{DocumentRow, ChunkRow, FtsRow, Database}
use foia_search_mcp.Documents.Columns.{has_id}

pub data FtsReconciliationIssueKind : Type 0 where
  missing orphaned stale : FtsReconciliationIssueKind

pub record FtsReconciliationIssue : Type 0 where
  pub issue : FtsReconciliationIssueKind
  pub document_key : String
  pub chunk_id : String
  pub detail : String

pub record FtsReconciliationReport : Type 0 where
  pub canonical_chunk_count : ℕ
  pub chunk_fts_row_count : ℕ
  pub issues : List FtsReconciliationIssue

pub record ChunkIdentity : Type 0 where
  pub document_key : String
  pub chunk_id : String

-- The derived `PartialEq` and `Ord`: field by field.
abbrev pub identity_eq : ChunkIdentity → ChunkIdentity → Bool
identity_eq a b = str_eq a.document_key b.document_key && str_eq a.chunk_id b.chunk_id

abbrev pub identity_lt : ChunkIdentity → ChunkIdentity → Bool
identity_lt a b =
    str_lt a.document_key b.document_key
    || str_eq a.document_key b.document_key && str_lt a.chunk_id b.chunk_id

-- A canonical row has the columns that a row of the index has.
abbrev pub CanonicalRow : Type 0
CanonicalRow = FtsRow

-- A row of the index, as it is loaded with its rowid.
pub record IndexRow : Type 0 where
  pub rowid : ℕ
  pub row : FtsRow

abbrev pub identity_of : FtsRow → ChunkIdentity
identity_of r = record { document_key = r.document_key; chunk_id = r.chunk_id }

abbrev pub index_identity : IndexRow → ChunkIdentity
index_identity r = identity_of r.row

abbrev pub matches_canonical : FtsRow → CanonicalRow → Bool
matches_canonical f c =
    str_eq f.document_key c.document_key
    && str_eq f.chunk_id c.chunk_id
    && str_eq f.source c.source
    && str_eq f.title c.title
    && chars_eq f.body c.body
    && f.page_start == c.page_start
    && f.page_end == c.page_end

-- `if differs { fields.push(name) }`
abbrev field_unless : Bool → String → List String
field_unless true name = []
field_unless false name = name ∷ []

abbrev or_shape : List String → List String
or_shape [] = "duplicate_or_unexpected_row_shape" ∷ []
or_shape (f ∷ fs) = f ∷ fs

abbrev pub differing_fields : CanonicalRow → FtsRow → List String
differing_fields c f = or_shape (
    field_unless (str_eq c.source f.source) "source"
    ++ field_unless (str_eq c.title f.title) "title"
    ++ field_unless (chars_eq c.body f.body) "body"
    ++ field_unless (c.page_start == f.page_start) "page_start"
    ++ field_unless (c.page_end == f.page_end) "page_end")

-- `[String]::join`
abbrev pub join : String → List String → String
join sep [] = ""
join sep (s ∷ []) = s
join sep (s ∷ t ∷ ts) = format (s ∷ sep ∷ join sep (t ∷ ts) ∷ [])

-- `chunks c INNER JOIN documents d ON d.id = c.document_id`; the id is the primary key.
abbrev pub canonical_row : DocumentRow → ChunkRow → CanonicalRow
canonical_row d c = record {
  document_key = d.document.document_key;
  chunk_id = c.chunk_id;
  source = d.document.source;
  title = d.document.title;
  body = c.text;
  page_start = c.page_start;
  page_end = c.page_end;
}

abbrev pub joined : Option DocumentRow → ChunkRow → List CanonicalRow
joined none c = []
joined (some d) c = canonical_row d c ∷ []

abbrev pub canonical_rows : List DocumentRow → List ChunkRow → List CanonicalRow
canonical_rows docs [] = []
canonical_rows docs (c ∷ chunks) =
    joined (find (has_id c.document_id) docs) c ++ canonical_rows docs chunks

abbrev pub before : FtsRow → FtsRow → Bool
before a b = identity_lt (identity_of a) (identity_of b)

abbrev pub load_canonical_rows : Database → List CanonicalRow
load_canonical_rows db = sort_by before (canonical_rows db.documents db.chunks)

-- The rows stand in the order of their rowids; `rowid` gives that of the row at a place.
abbrev pub with_rowids : (ℕ → ℕ) → ℕ → List FtsRow → List IndexRow
with_rowids rowid n [] = []
with_rowids rowid n (f ∷ fts) = record { rowid = rowid n; row = f } ∷ with_rowids rowid (suc n) fts

abbrev pub index_before : IndexRow → IndexRow → Bool
index_before a b = before a.row b.row

abbrev pub load_fts_rows : (ℕ → ℕ) → Database → List IndexRow
load_fts_rows rowid db = sort_by index_before (with_rowids rowid 0 db.chunk_fts)

abbrev issue_of : FtsReconciliationIssueKind → ChunkIdentity → String → FtsReconciliationIssue
issue_of kind k detail = record {
  issue = kind;
  document_key = k.document_key;
  chunk_id = k.chunk_id;
  detail = detail;
}

abbrev missing_issue : CanonicalRow → FtsReconciliationIssue
missing_issue c = issue_of missing (identity_of c) "missing chunk_fts row for canonical chunk"

-- The detail where some rows match, by the first row that does not.
abbrev matching_detail : CanonicalRow → ℕ → Option IndexRow → String
matching_detail c n (some f) = format (
    "chunk_fts has "
    ∷ decimal n
    ∷ " rows for one canonical chunk (expected 1); first divergent row differs in ["
    ∷ join ", " (differing_fields c f.row)
    ∷ "]"
    ∷ [])
matching_detail c n none =
    format
      ("chunk_fts has " ∷ decimal n ∷ " matching rows for one canonical chunk (expected 1)" ∷ [])

-- The issues where no row matches, by the first row.
abbrev divergent_issues : CanonicalRow → List IndexRow → List FtsReconciliationIssue
divergent_issues c [] = missing_issue c ∷ []
divergent_issues c (f ∷ fs) =
    issue_of stale (identity_of c) (
      format (
        "chunk_fts row differs from canonical chunk fields ["
        ∷ join ", " (differing_fields c f.row)
        ∷ "] ("
        ∷ decimal (length (f ∷ fs))
        ∷ " observed row(s) for key)"
        ∷ []))
    ∷ []

-- What the loop over the canonical rows pushes for one of them. That the map has no rows for it and
-- that it has an empty list of them are told apart by the code, and have the same issue.
unfoldable pub chunk_issues : CanonicalRow → List IndexRow → List FtsReconciliationIssue
chunk_issues c rows =
    let matching = length (keep (λ f. matches_canonical f.row c) rows) in
    if is_empty rows
    then missing_issue c ∷ []
    else if matching == 1 && length rows == 1
    then []
    else if ltb 0 matching
    then issue_of stale (identity_of c)
        (matching_detail c (length rows) (find (λ f. not (matches_canonical f.row c)) rows))
      ∷ []
    else divergent_issues c rows

abbrev pub orphan_issue : ChunkIdentity → IndexRow → FtsReconciliationIssue
orphan_issue k f =
    issue_of orphaned k (
      format ("chunk_fts row has no matching canonical chunk (rowid=" ∷ decimal f.rowid ∷ ")" ∷ []))

abbrev pub orphan_issues : List (ChunkIdentity × List IndexRow) → List FtsReconciliationIssue
orphan_issues [] = []
orphan_issues (e ∷ g) = map (orphan_issue e.0) e.1 ++ orphan_issues g

-- The loop over the canonical rows, which takes their rows out of the map, then that over the rest.
unfoldable pub all_issues :
    List (ChunkIdentity × CanonicalRow)
    → List (ChunkIdentity × List IndexRow)
    → List FtsReconciliationIssue
unfolding chunk_issues
all_issues [] g = orphan_issues g
all_issues (e ∷ m) g =
    chunk_issues e.1 (pushed identity_eq e.0 g) ++ all_issues m (map_remove identity_eq e.0 g)

abbrev pub kind_rank : FtsReconciliationIssueKind → ℕ
kind_rank missing = 0
kind_rank orphaned = 1
kind_rank stale = 2

-- `cmp(…).then_with(…)` on texts.
abbrev pub then_before : String → String → Bool → Bool
then_before s t rest = str_lt s t || str_eq s t && rest

abbrev pub issue_before : FtsReconciliationIssue → FtsReconciliationIssue → Bool
issue_before a b = then_before a.document_key b.document_key (
    then_before a.chunk_id b.chunk_id (
      ltb (kind_rank a.issue) (kind_rank b.issue)
      || kind_rank a.issue == kind_rank b.issue && str_lt a.detail b.detail))

unfoldable pub reconcile_sqlite_fts_index : (ℕ → ℕ) → Database → FtsReconciliationReport
unfolding all_issues
reconcile_sqlite_fts_index rowid db =
    let canonical = load_canonical_rows db in
    let fts = load_fts_rows rowid db in
    record {
      canonical_chunk_count = length canonical;
      chunk_fts_row_count = length fts;
      issues = sort_by issue_before (
          all_issues (rows_by_key identity_eq identity_of canonical [])
            (groups_by_key identity_eq index_identity fts []));
    }
