-- ===== src/Extract/Select.antt =====
-- src/ingest/pdf_text.rs: `select_pdf_text_with_cancel`.
use foia_search_mcp.Prelude.{
  String, Bool, true, false, not, ◌&&◌, ◌||◌, List, [], ◌∷◌, ◌++◌, ◌==◌, if◌then◌else◌, length,
  is_empty, Result, ok, err,
}
use foia_search_mcp.Chunk.Pages.{PageText}
use foia_search_mcp.Documents.Tables.{TextSource, embedded_pdf_text, local_ocr}
use foia_search_mcp.Extract.FormFeed.{ExtractedText, TextExtraction, cancelled}

pub record SelectedPdfText : Type 0 where
  pub extracted : ExtractedText
  pub text_source : TextSource

pub data OcrFallbackPolicy : Type 0 where
  off on_quality_warning : OcrFallbackPolicy

abbrev pub is_enabled : OcrFallbackPolicy → Bool
is_enabled off = false
is_enabled on_quality_warning = true

abbrev pub used_warning : String
used_warning = "local OCR fallback was used after embedded PDF text quality warnings"

abbrev pub rescued_warning : String
rescued_warning = "local OCR fallback was used after embedded PDF text extraction failed"

abbrev pub incompatible_warning : String
incompatible_warning =
    "local OCR fallback output was ignored because OCR page boundaries/page numbers did not match embedded PDF text"

-- `zip` and `all` on the page numbers.
abbrev pub same_numbers : List PageText → List PageText → Bool
same_numbers [] qs = true
same_numbers (p ∷ ps) [] = true
same_numbers (p ∷ ps) (q ∷ qs) = p.page_number == q.page_number && same_numbers ps qs

abbrev pub compatible_page_boundaries : ExtractedText → ExtractedText → Bool
compatible_page_boundaries embedded ocr =
    length embedded.pages == length ocr.pages && same_numbers embedded.pages ocr.pages

abbrev pub with_warnings : ExtractedText → List String → TextSource → SelectedPdfText
with_warnings e warnings source = record {
  extracted = record e { warnings = warnings };
  text_source = source;
}

-- The answer of the OCR after an embedded text of doubtful quality.
abbrev pub select_quality :
    ExtractedText → Result TextExtraction ExtractedText → Result TextExtraction SelectedPdfText
select_quality embedded (ok ocr) =
    if compatible_page_boundaries embedded ocr
    then ok (with_warnings ocr (embedded.warnings ++ (used_warning ∷ [] ++ ocr.warnings)) local_ocr)
    else ok
        (with_warnings embedded (embedded.warnings ++ incompatible_warning ∷ []) embedded_pdf_text)
select_quality embedded (err (cancelled binary stderr)) = err (cancelled binary stderr)
select_quality embedded (err _) =
    ok (record { extracted = embedded; text_source = embedded_pdf_text })

unfoldable pub select_after_embedded_success :
    ExtractedText
    → Result TextExtraction ExtractedText
    → OcrFallbackPolicy
    → Result TextExtraction SelectedPdfText
select_after_embedded_success embedded ocr policy =
    if is_empty embedded.warnings || not (is_enabled policy)
    then ok (record { extracted = embedded; text_source = embedded_pdf_text })
    else select_quality embedded ocr

-- The answer of the OCR after a failed extraction.
abbrev pub rescue :
    TextExtraction → Result TextExtraction ExtractedText → Result TextExtraction SelectedPdfText
rescue embedded_error (ok ocr) = ok (with_warnings ocr (rescued_warning ∷ ocr.warnings) local_ocr)
rescue embedded_error (err (cancelled binary stderr)) = err (cancelled binary stderr)
rescue embedded_error (err _) = err embedded_error

unfoldable pub select_pdf_text_with_cancel :
    String
    → (String → Result TextExtraction ExtractedText)
    → (String → Result TextExtraction ExtractedText)
    → OcrFallbackPolicy
    → Result TextExtraction SelectedPdfText
unfolding select_after_embedded_success
select_pdf_text_with_cancel path embedded_extractor ocr_extractor policy =
    elim (embedded_extractor path) [
      | ok embedded ↦ select_after_embedded_success embedded (ocr_extractor path) policy
      | err (cancelled binary stderr) ↦ err (cancelled binary stderr)
      | err e ↦ if is_enabled policy then rescue e (ocr_extractor path) else err e
    ]
