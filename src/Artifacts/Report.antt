-- ===== src/Artifacts/Report.antt =====
-- src/ingest/reconcile.rs: the report on the files that are derived from a document.
use foia_search_mcp.Prelude.{
  ℕ, ltb, ◌==◌, Bool, true, false, ◌&&◌, ◌||◌, if◌then◌else◌, String, Option, none, some, List, [],
  ◌∷◌, ◌++◌, map, any, is_empty, Chars, chars_eq, str_eq, str_lt, sort_by, Result, ok, err, ◌>>=◌,
  map_err,
}
use foia_search_mcp.Store.{StoreError}
use foia_search_mcp.Documents.Tables.{Database}
use foia_search_mcp.Documents.Read.{
  StoredPageText, get_document_metadata, pages_of, sort_by_number, read_page_text,
}
use foia_search_mcp.Artifacts.Compare.{file_matches_bytes, file_matches_rendered_pages}
use foia_search_mcp.Artifacts.Files.{
  FilePath, Node, Files, path_eq, node_at, derived_document_text_path, text_page_dir, ocr_page_dir,
  derived_page_text_path, derived_ocr_page_text_path, parse_page_number, is_file, entry_name,
  regular, unreadable, directory, special,
}

pub data DerivedArtifactKind : Type 0 where
  document_text page_text ocr_page_text : DerivedArtifactKind

pub data DerivedArtifactIssueKind : Type 0 where
  missing stale orphaned : DerivedArtifactIssueKind

pub record DerivedArtifactIssue : Type 0 where
  pub kind : DerivedArtifactKind
  pub issue : DerivedArtifactIssueKind
  pub path : FilePath
  pub page_number : Option ℕ
  pub detail : String

pub record DerivedArtifactReport : Type 0 where
  pub document_key : String
  pub issues : List DerivedArtifactIssue

pub data ReconcileError : Type 0 where
  store : StoreError → ReconcileError
  io : (operation : String) (path : FilePath) (source : String) → ReconcileError

abbrev pub issue_of :
    DerivedArtifactKind
    → DerivedArtifactIssueKind
    → FilePath
    → Option ℕ
    → String
    → DerivedArtifactIssue
issue_of kind issue path n detail = record {
  kind = kind;
  issue = issue;
  path = path;
  page_number = n;
  detail = detail;
}

abbrev Issues : Type 0
Issues = Result ReconcileError (List DerivedArtifactIssue)

-- `push_expected_file_issues`, with the comparison of a file's content.
unfoldable pub push_expected_file_issues :
    DerivedArtifactKind → FilePath → Option ℕ → (Chars → Bool) → Files → Issues
push_expected_file_issues kind path n matches files = elim (node_at path files) [
  | none ↦ ok (issue_of kind missing path n "expected derived artifact is absent" ∷ [])
  | some node ↦ elim node [
    | directory ↦ ok (issue_of kind stale path n "derived artifact path is not a regular file" ∷ [])
    | special ↦ ok (issue_of kind stale path n "derived artifact path is not a regular file" ∷ [])
    | unreadable e ↦ err (io "compare_text_file" path e)
    | regular file ↦
        if matches file
        then ok []
        else ok (
            issue_of kind stale path n "derived artifact content differs from SQLite page state"
            ∷ [])
  ]
]

abbrev pub push_expected_text_file_issues :
    DerivedArtifactKind → FilePath → Option ℕ → Chars → Files → Issues
push_expected_text_file_issues kind path n expected files =
    push_expected_file_issues kind path n (file_matches_bytes expected) files

-- The issues of one part of the report, then those of the rest.
infixr 5 ◌then◌
abbrev pub ◌then◌ : Issues → Issues → Issues
a then b = a >>= λ first. b >>= λ rest. ok (first ++ rest)

abbrev pub expects : List ℕ → Option ℕ → Bool
expects pages none = false
expects pages (some n) = any (λ m. m == n) pages

-- What the loop over a directory reports of an entry.
unfoldable pub entry_issues :
    DerivedArtifactKind → List ℕ → FilePath → Option ℕ → Bool → List DerivedArtifactIssue
entry_issues kind pages path n false =
    if expects pages n
    then []
    else issue_of kind orphaned path n "derived page artifact entry is not a regular file" ∷ []
entry_issues kind pages path none true =
    issue_of kind orphaned path none "derived page artifact filename is not '<page>.txt'" ∷ []
entry_issues kind pages path (some n) true =
    if expects pages (some n)
    then []
    else issue_of kind orphaned path (some n) "no matching SQLite page state for derived artifact"
      ∷ []

abbrev pub orphans_at :
    DerivedArtifactKind → List ℕ → FilePath → Option Chars → Node → List DerivedArtifactIssue
orphans_at kind pages path none node = []
orphans_at kind pages path (some name) node =
    entry_issues kind pages path (parse_page_number name) (is_file node)

abbrev pub entries_issues :
    DerivedArtifactKind → List ℕ → FilePath → Files → List DerivedArtifactIssue
entries_issues kind pages dir [] = []
entries_issues kind pages dir (f ∷ files) =
    orphans_at kind pages f.0 (entry_name dir f.0) f.1 ++ entries_issues kind pages dir files

abbrev pub not_a_directory : FilePath → ReconcileError
not_a_directory dir = io "read_dir" dir "expected derived page artifact directory"

unfoldable pub collect_orphaned_page_files :
    DerivedArtifactKind → List ℕ → FilePath → Files → Issues
unfolding entry_issues parse_page_number
collect_orphaned_page_files kind pages dir files = elim (node_at dir files) [
  | none ↦ ok []
  | some node ↦ elim node [
    | directory ↦ ok (entries_issues kind pages dir files)
    | special ↦ err (not_a_directory dir)
    | unreadable e ↦ err (not_a_directory dir)
    | regular file ↦ err (not_a_directory dir)
  ]
]

abbrev pub is_local_ocr : StoredPageText → Bool
is_local_ocr page = str_eq page.text_source "local_ocr"

-- The page numbers that are expected in the two directories.
abbrev pub text_numbers : List StoredPageText → List ℕ
text_numbers pages = map (λ page. page.page_number) pages

abbrev pub ocr_numbers : List StoredPageText → List ℕ
ocr_numbers [] = []
ocr_numbers (page ∷ pages) =
    if is_local_ocr page then page.page_number ∷ ocr_numbers pages else ocr_numbers pages

module _ (as_bytes : Chars → Chars) where
  abbrev pub page_issues : String → StoredPageText → Files → Issues
  page_issues key page files =
      let n = page.page_number in
      let content = as_bytes page.text in
      push_expected_text_file_issues page_text (derived_page_text_path key n) (some n) content files
      then (if is_local_ocr page
          then push_expected_text_file_issues ocr_page_text (derived_ocr_page_text_path key n)
              (some n) content files
          else ok [])

  abbrev pub pages_issues : String → List StoredPageText → Files → Issues
  pages_issues key [] files = ok []
  pages_issues key (page ∷ pages) files =
      page_issues key page files then pages_issues key pages files

  abbrev pub push_expected_document_file_issues :
      DerivedArtifactKind → FilePath → Option ℕ → List StoredPageText → Files → Issues
  push_expected_document_file_issues kind path n expected_pages files =
      push_expected_file_issues kind path n (file_matches_rendered_pages as_bytes expected_pages)
        files

  abbrev exists : FilePath → Files → Bool
  exists p files = elim (node_at p files) [ none ↦ false | some node ↦ true ]

  abbrev pub document_issues : String → List StoredPageText → Files → Issues
  document_issues key pages files =
      let path = derived_document_text_path key in
      if is_empty pages
      then ok (
          if exists path files
          then issue_of document_text orphaned path none "document has no stored pages" ∷ []
          else [])
      else push_expected_document_file_issues document_text path none pages files

-- The derived orders of the two enumerations, of paths and of optional numbers.
abbrev pub kind_rank : DerivedArtifactKind → ℕ
kind_rank document_text = 0
kind_rank page_text = 1
kind_rank ocr_page_text = 2

abbrev issue_rank : DerivedArtifactIssueKind → ℕ
issue_rank missing = 0
issue_rank stale = 1
issue_rank orphaned = 2

abbrev chars_lt : Chars → Chars → Bool
chars_lt s [] = false
chars_lt [] (d ∷ t) = true
chars_lt (c ∷ s) (d ∷ t) = ltb c d || c == d && chars_lt s t

abbrev pub path_lt : FilePath → FilePath → Bool
path_lt p [] = false
path_lt [] (d ∷ q) = true
path_lt (c ∷ p) (d ∷ q) = chars_lt c d || chars_eq c d && path_lt p q

abbrev pub number_lt : Option ℕ → Option ℕ → Bool
number_lt n none = false
number_lt none (some m) = true
number_lt (some n) (some m) = ltb n m

abbrev pub number_eq : Option ℕ → Option ℕ → Bool
number_eq none none = true
number_eq none (some m) = false
number_eq (some n) none = false
number_eq (some n) (some m) = n == m

-- A field decides, and the later ones where it is equal.
abbrev pub by_field : Bool → Bool → Bool → Bool
by_field less equal later = less || equal && later

abbrev pub issue_before : DerivedArtifactIssue → DerivedArtifactIssue → Bool
issue_before a b =
    by_field (ltb (kind_rank a.kind) (kind_rank b.kind)) (kind_rank a.kind == kind_rank b.kind) (
      by_field (ltb (issue_rank a.issue) (issue_rank b.issue))
        (issue_rank a.issue == issue_rank b.issue)
        (by_field (path_lt a.path b.path) (path_eq a.path b.path) (
          by_field (number_lt a.page_number b.page_number) (number_eq a.page_number b.page_number)
            (str_lt a.detail b.detail))))

-- The issues in the order in which they are found.
unfoldable pub found_issues : (Chars → Chars) → String → List StoredPageText → Files → Issues
unfolding push_expected_file_issues collect_orphaned_page_files
found_issues as_bytes key pages files =
    document_issues as_bytes key pages files
    then pages_issues as_bytes key pages files
    then collect_orphaned_page_files page_text (text_numbers pages) (text_page_dir key) files
    then collect_orphaned_page_files ocr_page_text (ocr_numbers pages) (ocr_page_dir key) files

abbrev pub load_document_pages : ℕ → Database → List StoredPageText
load_document_pages id db = map read_page_text (sort_by_number (pages_of id db.pages))

-- `as_bytes` encodes a text as UTF-8.
unfoldable pub reconcile_derived_artifacts_for_document :
    (Chars → Chars) → Database → Files → String → Result ReconcileError DerivedArtifactReport
unfolding found_issues get_document_metadata
reconcile_derived_artifacts_for_document as_bytes db files name =
    map_err ReconcileError.store (get_document_metadata name db) >>= λ metadata.
    let key = metadata.document.document_key in
    found_issues as_bytes key (load_document_pages metadata.id db) files >>= λ issues.
    ok (record { document_key = key; issues = sort_by issue_before issues })
