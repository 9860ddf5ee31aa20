-- ===== src/Artifacts/Actions.antt =====
-- The actions that the parts of a report lead to.
use foia_search_mcp.Prelude.{
  ◌≢◌, ◌⊎◌, ap, ℕ, ltb, Bool, true, false, if◌then◌else◌, String, Option, none, some, List, [], ◌∷◌,
  ◌++◌, All, All-append, Chars, chars_eq, chars_eq_iff, Bool-cases, Result, ok, err, ok_injective,
  inl, inr, ◌≡◌, refl, sym, ◌∙◌, arith,
}
use mathlib.Core.Path.{subst}
use foia_search_mcp.Documents.Read.{StoredPageText}
use foia_search_mcp.Artifacts.Files.{
  path_eq_refl, found_at_own, FilePath, Node, Files, node_at, derived_page_text_path,
  derived_ocr_page_text_path, parse_page_number, is_file, entry_name, regular, unreadable,
  directory, special,
}
use foia_search_mcp.Artifacts.Compare.{file_matches_bytes}
use foia_search_mcp.Artifacts.Rendered.{file_matches_bytes-eq}
use foia_search_mcp.Artifacts.Report.{
  DerivedArtifactKind, page_text, ocr_page_text, DerivedArtifactIssue, ReconcileError, io, issue_of,
  missing, stale, push_expected_file_issues, ◌then◌, expects, entry_issues, orphans_at,
  entries_issues, collect_orphaned_page_files, not_a_directory, push_expected_text_file_issues,
  is_local_ocr, page_issues, pages_issues,
}
use foia_search_mcp.Artifacts.Clean.{Holds}
use foia_search_mcp.Artifacts.Repair.{
  DerivedArtifactRepairAction, rewrite_from_sqlite, manual_review, plan_issue,
  expected_path_for_action, expected_bytes_for_action, page_by_number, RepairApplyError,
  invalid_action, DerivedArtifactRewriteReason, ActionStep, write_file, inspect_target,
  check_action,
}

-- Every page has a positive number, by which it is found.
abbrev pub Numbered : List StoredPageText → List StoredPageText → Type 0
Numbered all pages =
    All (λ page. (ltb 0 page.page_number ≡ true) × (page_by_number all page.page_number ≡ ok page))
      pages

module _ (as_bytes : Chars → Chars) (display : FilePath → String) (key : String)
    (all : List StoredPageText) (files : Files) where
  -- The repair writes the content where nothing or a regular file stands, and refuses where
  -- something else does.
  abbrev pub IsChecked : FilePath → Chars → DerivedArtifactRepairAction → Type 0
  IsChecked path content action =
      (((node_at path files ≡ none) ⊎ ((file : Chars) × (node_at path files ≡ some (regular file))))
        × (check_action as_bytes display key all files action ≡ ok (write_file content)))
      ⊎ (((node_at path files ≡ some directory) ⊎ (node_at path files ≡ some special))
          × (detail : String) × (check_action as_bytes display key all files action
              ≡ err (invalid_action detail)))

  -- A rewrite has the path and the content that the repair expects, which the file has not. Something
  -- stands at the path of a review.
  abbrev pub IsWanted : DerivedArtifactRepairAction → Type 0
  IsWanted (manual_review kind path n detail) = node_at path files ≢ none
  IsWanted (rewrite_from_sqlite kind path n reason) =
      (expected_path_for_action key kind n ≡ ok path)
      × (content : Chars) × (expected_bytes_for_action as_bytes kind n all ≡ ok content)
      × (¬ Holds path content files)
      × IsChecked path content (rewrite_from_sqlite kind path n reason)

  -- The check comes down to what stands at the path.
  checked :
      (kind : DerivedArtifactKind) (path : FilePath) (n : Option ℕ)
      (reason : DerivedArtifactRewriteReason) (content : Chars)
      → expected_path_for_action key kind n ≡ ok path
      → expected_bytes_for_action as_bytes kind n all ≡ ok content
      → check_action as_bytes display key all files (rewrite_from_sqlite kind path n reason)
        ≡ inspect_target as_bytes display path content (node_at path files)
  unfolding check_action
  checked kind path n reason content canonical bytes =
      rw (check_action, canonical, path_eq_refl path, bytes) refl

  abbrev pub Good : Result ReconcileError (List DerivedArtifactIssue) → Type 0
  Good found =
      (issues : List DerivedArtifactIssue)
      → found ≡ ok issues
      → All (λ i. IsWanted (plan_issue i)) issues

  pub found-Good :
      (found : Result ReconcileError (List DerivedArtifactIssue)) (is : List DerivedArtifactIssue)
      → found ≡ ok is
      → All (λ i. IsWanted (plan_issue i)) is
      → Good found
  found-Good found is e wanted issues h =
      subst (λ t. All (λ i. IsWanted (plan_issue i)) t) (ok_injective (sym e ∙ h)) wanted

  failed-Good :
      (found : Result ReconcileError (List DerivedArtifactIssue)) (e : ReconcileError)
      → found ≡ err e
      → Good found
  failed-Good found e failed issues h = absurd (ground arith)

  pub then-Good :
      (a b : Result ReconcileError (List DerivedArtifactIssue)) → Good a → Good b → Good (a then b)
  then-Good (ok is) (ok js) ha hb issues h =
      found-Good (ok is then ok js) (is ++ js) refl
        (All-append (λ i. IsWanted (plan_issue i)) is js (ha is refl) (hb js refl)) issues h
  then-Good (ok is) (err e) ha hb issues h = absurd (ground arith)
  then-Good (err e) b ha hb issues h = absurd (ground arith)

  pub push-Good :
      (kind : DerivedArtifactKind) (path : FilePath) (n : Option ℕ) (matches : Chars → Bool)
      (content : Chars)
      → ((file : Chars) → matches file ≡ chars_eq file content)
      → expected_path_for_action key kind n ≡ ok path
      → expected_bytes_for_action as_bytes kind n all ≡ ok content
      → Good (push_expected_file_issues kind path n matches files)
  unfolding push_expected_file_issues
  push-Good kind path n matches content reads canonical bytes = go (node_at path files) refl
    where
      push : Result ReconcileError (List DerivedArtifactIssue)
      push = push_expected_file_issues kind path n matches files

      differs :
          (issue : DerivedArtifactIssue)
          → push ≡ ok (issue ∷ [])
          → IsWanted (plan_issue issue)
          → Good push
      differs issue e wanted = found-Good push (issue ∷ []) e (wanted, tt)

      inspect : Option Node → Result RepairApplyError ActionStep
      inspect o = inspect_target as_bytes display path content o

      check :
          (reason : DerivedArtifactRewriteReason)
          → check_action as_bytes display key all files (rewrite_from_sqlite kind path n reason)
            ≡ inspect_target as_bytes display path content (node_at path files)
      check reason = checked kind path n reason content canonical bytes

      differing : (file : Chars) → matches file ≡ false → file_matches_bytes content file ≡ false
      differing file other = file_matches_bytes-eq content file ∙ sym (reads file) ∙ other

      go : (o : Option Node) → node_at path files ≡ o → Good push
      go none at =
          differs (issue_of kind missing path n "expected derived artifact is absent")
            (rw (push_expected_file_issues, at) refl)
            (
              canonical,
              content,
              bytes,
              (λ h. cc),
              inl (inl at, check DerivedArtifactRewriteReason.missing ∙ ap inspect at),
            )
      go (some directory) at =
          differs (issue_of kind stale path n "derived artifact path is not a regular file")
            (rw (push_expected_file_issues, at) refl)
            (
              canonical,
              content,
              bytes,
              (λ h. cc),
              inr (inl at, _, check DerivedArtifactRewriteReason.stale ∙ ap inspect at),
            )
      go (some special) at =
          differs (issue_of kind stale path n "derived artifact path is not a regular file")
            (rw (push_expected_file_issues, at) refl)
            (
              canonical,
              content,
              bytes,
              (λ h. cc),
              inr (inr at, _, check DerivedArtifactRewriteReason.stale ∙ ap inspect at),
            )
      go (some (unreadable e)) at =
          failed-Good push (io "compare_text_file" path e) (rw (push_expected_file_issues, at) refl)
      go (some (regular file)) at = elim (Bool-cases (matches file)) [
        | inl same ↦ found-Good push [] (rw (push_expected_file_issues, at, same) refl) tt
        | inr other ↦
            differs
              (issue_of kind stale path n "derived artifact content differs from SQLite page state")
              (rw (push_expected_file_issues, at, other) refl)
              (
                canonical,
                content,
                bytes,
                (λ h. ground (arith, reads file, chars_eq_iff file content)),
                inl (
                  inr (file, at),
                  check DerivedArtifactRewriteReason.stale
                      ∙ ap inspect at
                      ∙ rw (differing file other) refl,
                ),
              )
      ]

  entry-Good :
      (kind : DerivedArtifactKind) (pages : List ℕ) (path : FilePath) (n : Option ℕ) (b : Bool)
      → node_at path files ≢ none
      → All (λ i. IsWanted (plan_issue i)) (entry_issues kind pages path n b)
  unfolding entry_issues
  entry-Good kind pages path n false there = elim (Bool-cases (expects pages n)) [
    | inl expected ↦ rw expected tt
    | inr other ↦ rw other (there, tt)
  ]
  entry-Good kind pages path none true there = (there, tt)
  entry-Good kind pages path (some n) true there = elim (Bool-cases (expects pages (some n))) [
    | inl expected ↦ rw expected tt
    | inr other ↦ rw other (there, tt)
  ]

  entries-Good :
      (kind : DerivedArtifactKind) (pages : List ℕ) (dir : FilePath) (fs : Files)
      → All (λ f. node_at f.0 files ≢ none) fs
      → All (λ i. IsWanted (plan_issue i)) (entries_issues kind pages dir fs)
  entries-Good kind pages dir [] there = tt
  entries-Good kind pages dir (f ∷ fs) there =
      All-append (λ i. IsWanted (plan_issue i)) (orphans_at kind pages f.0 (entry_name dir f.0) f.1)
        (entries_issues kind pages dir fs) (here (entry_name dir f.0))
        (entries-Good kind pages dir fs there.1)
    where
      here :
          (o : Option Chars) → All (λ i. IsWanted (plan_issue i)) (orphans_at kind pages f.0 o f.1)
      here none = tt
      here (some name) = entry-Good kind pages f.0 (parse_page_number name) (is_file f.1) there.0

  pub collect-Good :
      (kind : DerivedArtifactKind) (pages : List ℕ) (dir : FilePath)
      → Good (collect_orphaned_page_files kind pages dir files)
  unfolding collect_orphaned_page_files
  collect-Good kind pages dir = go (node_at dir files) refl
    where
      collect : Result ReconcileError (List DerivedArtifactIssue)
      collect = collect_orphaned_page_files kind pages dir files

      go : (o : Option Node) → node_at dir files ≡ o → Good collect
      go none at = found-Good collect [] (rw (collect_orphaned_page_files, at) refl) tt
      go (some directory) at =
          found-Good collect (entries_issues kind pages dir files)
            (rw (collect_orphaned_page_files, at) refl)
            (entries-Good kind pages dir files (found_at_own files))
      go (some special) at =
          failed-Good collect (not_a_directory dir) (rw (collect_orphaned_page_files, at) refl)
      go (some (unreadable e)) at =
          failed-Good collect (not_a_directory dir) (rw (collect_orphaned_page_files, at) refl)
      go (some (regular file)) at =
          failed-Good collect (not_a_directory dir) (rw (collect_orphaned_page_files, at) refl)

  page-Good :
      (page : StoredPageText)
      → ltb 0 page.page_number ≡ true
      → page_by_number all page.page_number ≡ ok page
      → Good (page_issues as_bytes key page files)
  unfolding expected_path_for_action expected_bytes_for_action
  page-Good page positive found =
      let n = page.page_number in
      let text =
        push-Good page_text (derived_page_text_path key n) (some n)
          (file_matches_bytes (as_bytes page.text)) (as_bytes page.text)
          (file_matches_bytes-eq (as_bytes page.text)) (rw positive refl)
          (rw (positive, found) refl) in
      then-Good
        (push_expected_text_file_issues page_text (derived_page_text_path key n) (some n)
          (as_bytes page.text) files)
        (if is_local_ocr page
          then push_expected_text_file_issues ocr_page_text (derived_ocr_page_text_path key n)
              (some n) (as_bytes page.text) files
          else ok [])
        text
        (elim (Bool-cases (is_local_ocr page)) [
          | inl scanned ↦ rw scanned (
              push-Good ocr_page_text (derived_ocr_page_text_path key n) (some n)
                (file_matches_bytes (as_bytes page.text)) (as_bytes page.text)
                (file_matches_bytes-eq (as_bytes page.text)) (rw positive refl)
                (rw (positive, found, scanned) refl))
          | inr other ↦ rw other (found-Good (ok []) [] refl tt)
        ])

  pub pages-Good :
      (pages : List StoredPageText)
      → Numbered all pages
      → Good (pages_issues as_bytes key pages files)
  pages-Good [] numbered = found-Good (ok []) [] refl tt
  pages-Good (page ∷ pages) numbered =
      then-Good (page_issues as_bytes key page files) (pages_issues as_bytes key pages files)
        (page-Good page numbered.0.0 numbered.0.1) (pages-Good pages numbered.1)
