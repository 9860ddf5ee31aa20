-- ===== src/Extract/Choice.antt =====
-- What a PDF's selected text is.
use foia_search_mcp.Prelude.{
  ◌≢◌, ◌==◌, ◌&&◌, ap, ℕ, String, true, List, [], ◌∷◌, ◌++◌, map, ◌≡◌, ◌⊎◌, refl, inl, inr, arith,
  length, ok, err, Result, Bool-cases, is_empty,
}
use foia_search_mcp.Chunk.Pages.{PageText}
use foia_search_mcp.Documents.Tables.{embedded_pdf_text, local_ocr}
use foia_search_mcp.Extract.FormFeed.{ExtractedText, TextExtraction, cancelled}
use foia_search_mcp.Extract.Select.{
  SelectedPdfText, OcrFallbackPolicy, same_numbers, compatible_page_boundaries, select_quality, off,
  on_quality_warning, select_after_embedded_success, select_pdf_text_with_cancel, used_warning,
  incompatible_warning,
}

abbrev pub numbers : List PageText → List ℕ
numbers ps = map (λ (p : PageText). p.page_number) ps

same_numbers-numbers :
    (ps qs : List PageText)
    → length ps ≡ length qs
    → same_numbers ps qs ≡ true
    → numbers qs ≡ numbers ps
same_numbers-numbers [] [] l h = refl
same_numbers-numbers [] (q ∷ qs) l h = absurd (omega arith)
same_numbers-numbers (p ∷ ps) [] l h = absurd (omega arith)
same_numbers-numbers (p ∷ ps) (q ∷ qs) l h =
    let rest = same_numbers-numbers ps qs (omega arith) (ground arith) in
    let first : q.page_number ≡ p.page_number = ground arith in rw (first, rest) refl

abbrev head_or : ℕ → List ℕ → ℕ
head_or d [] = d
head_or d (x ∷ xs) = x

abbrev tail : List ℕ → List ℕ
tail [] = []
tail (x ∷ xs) = xs

numbers-same_numbers :
    (ps qs : List PageText)
    → numbers qs ≡ numbers ps
    → (length ps == length qs && same_numbers ps qs) ≡ true
numbers-same_numbers [] [] h = refl
numbers-same_numbers [] (q ∷ qs) h = cc
numbers-same_numbers (p ∷ ps) [] h = cc
numbers-same_numbers (p ∷ ps) (q ∷ qs) h =
    let rest = numbers-same_numbers ps qs (ap tail h) in
    let first : q.page_number ≡ p.page_number = ap (head_or 0) h in ground arith

-- The OCR is asked: the embedded text has warnings about its quality, and the policy is on.
abbrev pub IsAsked : ExtractedText → OcrFallbackPolicy → Type 0
IsAsked e policy = (e.warnings ≢ []) × (policy ≡ on_quality_warning)

abbrev pub IsCancelled : TextExtraction → Type 0
IsCancelled x = (binary : String) × (stderr : String) × (x ≡ cancelled binary stderr)

-- The OCR was asked and gave pages with the same numbers.
abbrev pub IsReplaced :
    ExtractedText
    → Result TextExtraction ExtractedText
    → OcrFallbackPolicy
    → SelectedPdfText
    → Type 0
IsReplaced e ocr policy s =
    IsAsked e policy
    × (o : ExtractedText) × (ocr ≡ ok o)
    × (numbers o.pages ≡ numbers e.pages)
    × (s.text_source ≡ local_ocr)
    × (s.extracted.pages ≡ o.pages)
    × (s.extracted.warnings ≡ e.warnings ++ (used_warning ∷ [] ++ o.warnings))

-- The OCR was asked and gave pages with other numbers.
abbrev pub IsMismatched :
    ExtractedText
    → Result TextExtraction ExtractedText
    → OcrFallbackPolicy
    → SelectedPdfText
    → Type 0
IsMismatched e ocr policy s =
    IsAsked e policy
    × (o : ExtractedText) × (ocr ≡ ok o)
    × (numbers o.pages ≢ numbers e.pages)
    × (s.text_source ≡ embedded_pdf_text)
    × (s.extracted.pages ≡ e.pages)
    × (s.extracted.warnings ≡ e.warnings ++ incompatible_warning ∷ [])

-- The OCR was not asked, or failed without being cancelled.
abbrev pub IsKept :
    ExtractedText
    → Result TextExtraction ExtractedText
    → OcrFallbackPolicy
    → SelectedPdfText
    → Type 0
IsKept e ocr policy s =
    ((e.warnings ≡ []) ⊎ (policy ≡ off) ⊎ ((x : TextExtraction) × (ocr ≡ err x) × ¬ IsCancelled x))
    × (s.text_source ≡ embedded_pdf_text)
    × (s.extracted.pages ≡ e.pages)
    × (s.extracted.warnings ≡ e.warnings)

abbrev pub IsSelection :
    ExtractedText
    → Result TextExtraction ExtractedText
    → OcrFallbackPolicy
    → Result TextExtraction SelectedPdfText
    → Type 0
IsSelection e ocr policy (ok s) =
    IsReplaced e ocr policy s ⊎ IsMismatched e ocr policy s ⊎ IsKept e ocr policy s
IsSelection e ocr policy (err x) = IsAsked e policy × (ocr ≡ err x) × IsCancelled x

is_empty-nil : (ws : List String) → is_empty ws ≡ true → ws ≡ []
is_empty-nil [] h = refl
is_empty-nil (w ∷ ws) h = cc

module _ (e : ExtractedText) (policy : OcrFallbackPolicy) (asked : IsAsked e policy) where
  kept :
      (x : TextExtraction)
      → ¬ IsCancelled x
      → IsSelection e
          (err x)
          policy
          (ok (record { extracted = e; text_source = embedded_pdf_text }))
  kept x other = inr (inr (inr (inr (x, refl, other)), refl, refl, refl))

  quality-IsSelection :
      (ocr : Result TextExtraction ExtractedText) → IsSelection e ocr policy (select_quality e ocr)
  quality-IsSelection (ok o) = elim (Bool-cases (compatible_page_boundaries e o)) [
    | inl same ↦ rw same (
        inl (
          asked,
          o,
          refl,
          same_numbers-numbers e.pages o.pages (ground arith) (ground arith),
          refl,
          refl,
          refl,
        ))
    | inr other ↦ rw other (
        inr (
          inl (
            asked,
            o,
            refl,
            (λ equal. ground (arith, numbers-same_numbers e.pages o.pages equal)),
            refl,
            refl,
            refl,
          )))
  ]
  quality-IsSelection (err (cancelled binary stderr)) = (asked, refl, (binary, stderr, refl))
  quality-IsSelection (err (TextExtraction.io m)) = kept _ (λ h. cc)
  quality-IsSelection (err TextExtraction.empty_input) = kept _ (λ h. cc)
  quality-IsSelection (err (TextExtraction.unavailable_binary b)) = kept _ (λ h. cc)
  quality-IsSelection (err (TextExtraction.command_failed b s m)) = kept _ (λ h. cc)
  quality-IsSelection (err (TextExtraction.timed_out b t s)) = kept _ (λ h. cc)
  quality-IsSelection (err (TextExtraction.invalid_output_path p r)) = kept _ (λ h. cc)

selected :
    (e : ExtractedText) (ocr : Result TextExtraction ExtractedText) (policy : OcrFallbackPolicy)
    → IsSelection e ocr policy (select_after_embedded_success e ocr policy)
unfolding select_after_embedded_success
selected e ocr off = elim (Bool-cases (is_empty e.warnings)) [
  | inl plain ↦ rw plain (inr (inr (inr (inl refl), refl, refl, refl)))
  | inr doubtful ↦ rw doubtful (inr (inr (inr (inl refl), refl, refl, refl)))
]
selected e ocr on_quality_warning = elim (Bool-cases (is_empty e.warnings)) [
  | inl plain ↦ rw plain (inr (inr (inl (is_empty-nil e.warnings plain), refl, refl, refl)))
  | inr doubtful ↦ rw doubtful (
      quality-IsSelection e on_quality_warning ((λ none_left. ground (arith, none_left)), refl) ocr)
]

-- Where the embedded text of a PDF was extracted, the OCR is asked exactly if that text has warnings
-- and the policy is on. If it then gives pages with the same numbers, these are selected, and its
-- warnings follow those of the embedded text; if it gives pages with other numbers, the embedded text
-- is selected with a warning more; if it is cancelled, so is the selection. In every other case the
-- embedded text is selected as it is.
pub select_pdf_text-IsSelection :
    (path : String) (embedded ocr : String → Result TextExtraction ExtractedText)
    (policy : OcrFallbackPolicy) (e : ExtractedText)
    → embedded path ≡ ok e
    → IsSelection e (ocr path) policy (select_pdf_text_with_cancel path embedded ocr policy)
unfolding select_pdf_text_with_cancel select_after_embedded_success
select_pdf_text-IsSelection path embedded ocr policy e got =
    rw (select_pdf_text_with_cancel, got) (selected e (ocr path) policy)
