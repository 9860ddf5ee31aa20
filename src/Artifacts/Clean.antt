-- ===== src/Artifacts/Clean.antt =====
-- When the parts of the report on a document's files have no issues.
use foia_search_mcp.Prelude.{
  ℕ, Bool, true, false, if◌then◌else◌, Option, none, some, List, [], ◌∷◌, ◌++◌, All, Chars,
  chars_eq, chars_eq_iff, Result, ok, err, ok_injective, inl, inr, ◌⊎◌, ◌↔◌, ◌≡◌, refl, sym, ap,
  ◌∙◌, arith,
}
use foia_search_mcp.Artifacts.Files.{
  FilePath, Node, Files, node_at, parse_page_number, is_file, entry_name, regular, unreadable,
  directory, special,
}
use foia_search_mcp.Artifacts.Compare.{}
use foia_search_mcp.Artifacts.Report.{
  DerivedArtifactKind, DerivedArtifactIssue, ReconcileError, push_expected_file_issues, ◌then◌,
  expects, entry_issues, orphans_at, entries_issues, collect_orphaned_page_files,
}

abbrev pub Clean : Result ReconcileError (List DerivedArtifactIssue) → Type 0
Clean issues = issues ≡ ok []

pub then-Clean :
    (a b : Result ReconcileError (List DerivedArtifactIssue)) → Clean (a then b) ↔ Clean a × Clean b
then-Clean (ok []) (ok []) = ((λ h. (refl, refl)), λ h. refl)
then-Clean (ok []) (ok (i ∷ is)) = ((λ h. (refl, h)), λ h. h.1)
then-Clean (ok (i ∷ is)) (ok js) = ground arith
then-Clean (ok is) (err e) = ground arith
then-Clean (err e) b = ground arith

-- A file holds exactly this.
abbrev pub Holds : FilePath → Chars → Files → Type 0
Holds path content files = node_at path files ≡ some (regular content)

pub push-Clean :
    (kind : DerivedArtifactKind) (path : FilePath) (n : Option ℕ) (matches : Chars → Bool)
    (content : Chars) (files : Files)
    → ((file : Chars) → matches file ≡ chars_eq file content)
    → Clean (push_expected_file_issues kind path n matches files) ↔ Holds path content files
unfolding push_expected_file_issues
push-Clean kind path n matches content files reads = go (node_at path files) refl
  where
    go :
        (o : Option Node)
        → node_at path files ≡ o
        → Clean (push_expected_file_issues kind path n matches files) ↔ Holds path content files
    go none at = ground arith
    go (some directory) at = ground arith
    go (some special) at = ground arith
    go (some (unreadable e)) at = ground arith
    go (some (regular file)) at = ground (arith, reads file, chars_eq_iff file content)

-- No entry of the directory is left over: each is named after an expected page.
abbrev pub HasOnly : List ℕ → FilePath → Files → Type 0
HasOnly pages dir files =
    All
      (λ f.
        (name : Chars)
        → entry_name dir f.0 ≡ some name
        → expects pages (parse_page_number name) ≡ true)
      files

-- A directory of page files is absent, or is one and has only expected entries.
abbrev pub InOrder : List ℕ → FilePath → Files → Type 0
InOrder pages dir files =
    (node_at dir files ≡ none) ⊎ (node_at dir files ≡ some directory) × HasOnly pages dir files

entry-clean :
    (kind : DerivedArtifactKind) (pages : List ℕ) (path : FilePath) (n : Option ℕ) (b : Bool)
    → (entry_issues kind pages path n b ≡ []) ↔ (expects pages n ≡ true)
unfolding entry_issues
entry-clean kind pages path n false = ground arith
entry-clean kind pages path none true = ground arith
entry-clean kind pages path (some n) true = ground arith

orphans-clean :
    (kind : DerivedArtifactKind) (pages : List ℕ) (path : FilePath) (o : Option Chars) (node : Node)
    → (orphans_at kind pages path o node ≡ [])
      ↔ ((name : Chars) → o ≡ some name → expects pages (parse_page_number name) ≡ true)
orphans-clean kind pages path none node = ((λ h name e. cc), λ h. refl)
orphans-clean kind pages path (some m) node =
    let one = entry-clean kind pages path (parse_page_number m) (is_file node) in
    (
      (λ h name e.
          let same : m ≡ name = ground arith in
          ap (λ x. expects pages (parse_page_number x)) (sym same) ∙ one.0 h),
      λ h. one.1 (h m refl),
    )

append-empty : {A : Type 0} (t u : List A) → (t ++ u ≡ []) ↔ (t ≡ []) × (u ≡ [])
append-empty [] u = ((λ h. (refl, h)), λ h. h.1)
append-empty (x ∷ t) u = ground arith

entries-clean :
    (kind : DerivedArtifactKind) (pages : List ℕ) (dir : FilePath) (files : Files)
    → (entries_issues kind pages dir files ≡ []) ↔ HasOnly pages dir files
entries-clean kind pages dir [] = ((λ h. tt), λ h. refl)
entries-clean kind pages dir (f ∷ files) =
    let both =
      append-empty (orphans_at kind pages f.0 (entry_name dir f.0) f.1)
        (entries_issues kind pages dir files) in
    let here = orphans-clean kind pages f.0 (entry_name dir f.0) f.1 in
    let rest = entries-clean kind pages dir files in
    ((λ h. let (a, b) = both.0 h in (here.0 a, rest.0 b)), λ h. both.1 (here.1 h.0, rest.1 h.1))

pub collect-Clean :
    (kind : DerivedArtifactKind) (pages : List ℕ) (dir : FilePath) (files : Files)
    → Clean (collect_orphaned_page_files kind pages dir files) ↔ InOrder pages dir files
unfolding collect_orphaned_page_files
collect-Clean kind pages dir files = go (node_at dir files) refl
  where
    go :
        (o : Option Node)
        → node_at dir files ≡ o
        → Clean (collect_orphaned_page_files kind pages dir files) ↔ InOrder pages dir files
    go none at = ((λ h. inl at), λ h. rw (collect_orphaned_page_files, at) refl)
    go (some directory) at = (
      (λ h. inr (
        at,
        (entries-clean kind pages dir files).0
            (ok_injective (rw (collect_orphaned_page_files, at) at h)),
      )),
      λ h. elim h [
        | inl gone ↦ cc
        | inr (d, only) ↦
            rw (collect_orphaned_page_files, at)
              (ap ok ((entries-clean kind pages dir files).1 only))
      ],
    )
    go (some special) at = ((λ h. ground arith), λ h. elim h [ inl gone ↦ cc | inr (d, only) ↦ cc ])
    go (some (unreadable e)) at =
        ((λ h. ground arith), λ h. elim h [ inl gone ↦ cc | inr (d, only) ↦ cc ])
    go (some (regular file)) at =
        ((λ h. ground arith), λ h. elim h [ inl gone ↦ cc | inr (d, only) ↦ cc ])
