-- ===== src/Artifacts/Covered.antt =====
-- The files that a report leads to a rewrite of.
use foia_search_mcp.Prelude.{
  ℕ, ◌==◌, Bool, true, false, ◌&&◌, if◌then◌else◌, String, Option, none, some, List, [], ◌∷◌, ◌++◌,
  any, All, All-impl, Chars, chars_eq, chars_eq_iff, Bool-cases, Result, ok, err, ok_injective, inl,
  inr, ◌≡◌, refl, sym, ap, ◌∙◌, arith,
}
use mathlib.Core.Path.{subst}
use foia_search_mcp.Documents.Read.{StoredPageText}
use foia_search_mcp.Artifacts.Files.{
  FilePath, Node, Files, path_eq, path_eq_refl, node_at, derived_page_text_path,
  derived_ocr_page_text_path, regular, unreadable, directory, special,
}
use foia_search_mcp.Artifacts.Compare.{file_matches_bytes}
use foia_search_mcp.Artifacts.Rendered.{file_matches_bytes-eq}
use foia_search_mcp.Artifacts.Report.{
  DerivedArtifactKind, page_text, ocr_page_text, document_text, DerivedArtifactIssue,
  ReconcileError, io, issue_of, missing, stale, push_expected_file_issues, ◌then◌,
  push_expected_text_file_issues, is_local_ocr, page_issues, pages_issues, kind_rank, number_eq,
}
use foia_search_mcp.Artifacts.Clean.{Holds}
use foia_search_mcp.Artifacts.Repair.{
  DerivedArtifactRepairAction, rewrite_from_sqlite, manual_review, plan_issue,
}

-- The action rewrites this file.
abbrev pub targets : DerivedArtifactKind → FilePath → Option ℕ → DerivedArtifactRepairAction → Bool
targets kind path n (manual_review k p m detail) = false
targets kind path n (rewrite_from_sqlite k p m reason) =
    kind_rank k == kind_rank kind && path_eq p path && number_eq m n

targets_self :
    (kind : DerivedArtifactKind) (path : FilePath) (n : Option ℕ)
    → (kind_rank kind == kind_rank kind && path_eq path path && number_eq n n) ≡ true
targets_self document_text path none = rw (path_eq_refl path) refl
targets_self document_text path (some n) = ground (arith, path_eq_refl path)
targets_self page_text path none = rw (path_eq_refl path) refl
targets_self page_text path (some n) = ground (arith, path_eq_refl path)
targets_self ocr_page_text path none = rw (path_eq_refl path) refl
targets_self ocr_page_text path (some n) = ground (arith, path_eq_refl path)

any_left : {A : Type 0} (p : A → Bool) (t u : List A) → any p t ≡ true → any p (t ++ u) ≡ true
any_left p [] u h = cc
any_left p (x ∷ t) u h = elim (Bool-cases (p x)) [
  | inl hit ↦ rw hit refl
  | inr miss ↦ rw miss (any_left p t u (rw miss at h))
]

any_right : {A : Type 0} (p : A → Bool) (t u : List A) → any p u ≡ true → any p (t ++ u) ≡ true
any_right p [] u h = h
any_right p (x ∷ t) u h = ground (arith, any_right p t u h)

module _ (files : Files) where
  -- If the file does not hold the content, one of the issues leads to a rewrite of it.
  abbrev pub Covers :
      DerivedArtifactKind
      → FilePath
      → Option ℕ
      → Chars
      → Result ReconcileError (List DerivedArtifactIssue)
      → Type 0
  Covers kind path n content found =
      (issues : List DerivedArtifactIssue)
      → found ≡ ok issues
      → ¬ Holds path content files
      → any (λ i. targets kind path n (plan_issue i)) issues ≡ true

  pub then_left :
      (kind : DerivedArtifactKind) (path : FilePath) (n : Option ℕ) (content : Chars)
      (a b : Result ReconcileError (List DerivedArtifactIssue))
      → Covers kind path n content a
      → Covers kind path n content (a then b)
  then_left kind path n content (ok is) (ok js) h issues e other =
      subst (λ t. any (λ i. targets kind path n (plan_issue i)) t ≡ true) (ok_injective e)
        (any_left (λ i. targets kind path n (plan_issue i)) is js (h is refl other))
  then_left kind path n content (ok is) (err x) h issues e other = absurd (ground arith)
  then_left kind path n content (err x) b h issues e other = absurd (ground arith)

  pub then_right :
      (kind : DerivedArtifactKind) (path : FilePath) (n : Option ℕ) (content : Chars)
      (a b : Result ReconcileError (List DerivedArtifactIssue))
      → Covers kind path n content b
      → Covers kind path n content (a then b)
  then_right kind path n content (ok is) (ok js) h issues e other =
      subst (λ t. any (λ i. targets kind path n (plan_issue i)) t ≡ true) (ok_injective e)
        (any_right (λ i. targets kind path n (plan_issue i)) is js (h js refl other))
  then_right kind path n content (ok is) (err x) h issues e other = absurd (ground arith)
  then_right kind path n content (err x) b h issues e other = absurd (ground arith)

  pub push-Covers :
      (kind : DerivedArtifactKind) (path : FilePath) (n : Option ℕ) (matches : Chars → Bool)
      (content : Chars)
      → ((file : Chars) → matches file ≡ chars_eq file content)
      → Covers kind path n content (push_expected_file_issues kind path n matches files)
  unfolding push_expected_file_issues
  push-Covers kind path n matches content reads issues e other = go (node_at path files) refl
    where
      covered :
          (i : DerivedArtifactIssue)
          → push_expected_file_issues kind path n matches files ≡ ok (i ∷ [])
          → targets kind path n (plan_issue i) ≡ true
          → any (λ j. targets kind path n (plan_issue j)) issues ≡ true
      covered i is hit =
          subst (λ t. any (λ j. targets kind path n (plan_issue j)) t ≡ true)
            (ok_injective (sym is ∙ e)) (rw hit refl)

      go :
          (o : Option Node)
          → node_at path files ≡ o
          → any (λ i. targets kind path n (plan_issue i)) issues ≡ true
      go none at =
          covered (issue_of kind missing path n "expected derived artifact is absent")
            (rw (push_expected_file_issues, at) refl) (targets_self kind path n)
      go (some directory) at =
          covered (issue_of kind stale path n "derived artifact path is not a regular file")
            (rw (push_expected_file_issues, at) refl) (targets_self kind path n)
      go (some special) at =
          covered (issue_of kind stale path n "derived artifact path is not a regular file")
            (rw (push_expected_file_issues, at) refl) (targets_self kind path n)
      go (some (unreadable x)) at =
          let failed : push_expected_file_issues kind path n matches files
              ≡ err (io "compare_text_file" path x) =
            rw (push_expected_file_issues, at) refl in
          absurd (ground arith)
      go (some (regular file)) at = elim (Bool-cases (matches file)) [
        | inl same ↦
            let equal : file ≡ content = (chars_eq_iff file content).0 (sym (reads file) ∙ same) in
            absurd (other (at ∙ ap (λ t. some (regular t)) equal))
        | inr differs ↦
            covered
              (issue_of kind stale path n "derived artifact content differs from SQLite page state")
              (rw (push_expected_file_issues, at, differs) refl) (targets_self kind path n)
      ]

  module _ (as_bytes : Chars → Chars) (key : String) where
    -- So for the text of a page, and for that of local OCR if this is its source.
    abbrev pub CoversPage :
        Result ReconcileError (List DerivedArtifactIssue) → StoredPageText → Type 0
    CoversPage found page =
        Covers page_text (derived_page_text_path key page.page_number) (some page.page_number)
          (as_bytes page.text) found
        × (is_local_ocr page ≡ true
            → Covers ocr_page_text (derived_ocr_page_text_path key page.page_number)
                (some page.page_number) (as_bytes page.text) found)

    pub page_left :
        (a b : Result ReconcileError (List DerivedArtifactIssue)) (page : StoredPageText)
        → CoversPage a page
        → CoversPage (a then b) page
    page_left a b page h =
        let n = page.page_number in
        let content = as_bytes page.text in
        (
          then_left page_text (derived_page_text_path key n) (some n) content a b h.0,
          λ scanned.
              then_left ocr_page_text (derived_ocr_page_text_path key n) (some n) content a b
                (h.1 scanned),
        )

    pub page_right :
        (a b : Result ReconcileError (List DerivedArtifactIssue)) (page : StoredPageText)
        → CoversPage b page
        → CoversPage (a then b) page
    page_right a b page h =
        let n = page.page_number in
        let content = as_bytes page.text in
        (
          then_right page_text (derived_page_text_path key n) (some n) content a b h.0,
          λ scanned.
              then_right ocr_page_text (derived_ocr_page_text_path key n) (some n) content a b
                (h.1 scanned),
        )

    page-Covers : (page : StoredPageText) → CoversPage (page_issues as_bytes key page files) page
    page-Covers page =
        let n = page.page_number in
        let content = as_bytes page.text in
        let text =
          push_expected_text_file_issues page_text (derived_page_text_path key n) (some n) content
            files in
        let scan =
          if is_local_ocr page
          then push_expected_text_file_issues ocr_page_text (derived_ocr_page_text_path key n)
              (some n) content files
          else ok [] in
        (
          then_left page_text (derived_page_text_path key n) (some n) content text scan (
              push-Covers page_text (derived_page_text_path key n) (some n)
                (file_matches_bytes content) content (file_matches_bytes-eq content)),
          λ scanned.
              then_right ocr_page_text (derived_ocr_page_text_path key n) (some n) content text scan
                (rw scanned (
                  push-Covers ocr_page_text (derived_ocr_page_text_path key n) (some n)
                    (file_matches_bytes content) content (file_matches_bytes-eq content))),
        )

    pub pages-Covers :
        (pages : List StoredPageText)
        → All (CoversPage (pages_issues as_bytes key pages files)) pages
    pages-Covers [] = tt
    pages-Covers (page ∷ pages) =
        let here = page_issues as_bytes key page files in
        let rest = pages_issues as_bytes key pages files in
        (
          page_left here rest page (page-Covers page),
          All-impl pages (page_right here rest) (pages-Covers pages),
        )
