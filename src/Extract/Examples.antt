-- ===== src/Extract/Examples.antt =====
-- Two pages after a blank one, and an embedded text of low density that OCR replaces.
use foia_search_mcp.Prelude.{
  ℕ, String, [], ◌∷◌, ◌≡◌, refl, arith, Chars, codes, Result, ok, trim, trim_start, trim_end,
  is_whitespace, split_at, decimal, digits, digit,
}
use foia_search_mcp.Chunk.Pages.{PageText}
use foia_search_mcp.Documents.Tables.{local_ocr}
use foia_search_mcp.Extract.FormFeed.{
  ExtractedText, TextExtraction, extracted_text_from_form_feed, normalize_page_text,
  embedded_text_quality_warnings, density_warning,
}
use foia_search_mcp.Extract.Pieces.{IsFile, extracted_text-IsFile}
use foia_search_mcp.Extract.Select.{
  on_quality_warning, used_warning, select_after_embedded_success, select_pdf_text_with_cancel,
}
use foia_search_mcp.Extract.Choice.{IsSelection, select_pdf_text-IsSelection}

abbrev file : Chars
file = 0x20 ∷ 0xc ∷ 0x61 ∷ 0x20 ∷ 0xa ∷ 0x62 ∷ 0xc ∷ 0x63 ∷ 0xa ∷ 0xc ∷ []

abbrev page : ℕ → Chars → PageText
page n text = record { page_number = n; text = text }

two_pages :
    extracted_text_from_form_feed file
    ≡ ok (record {
      pages = page 2 (0x61 ∷ 0xa ∷ 0x62 ∷ []) ∷ page 3 (0x63 ∷ []) ∷ [];
      warnings = density_warning 1 ∷ [];
    })
unfolding extracted_text_from_form_feed normalize_page_text embedded_text_quality_warnings trim
    trim_start trim_end is_whitespace decimal digits digit
two_pages = refl

extracted_text-IsFile_example : IsFile (split_at 0xc file) (extracted_text_from_form_feed file)
extracted_text-IsFile_example = extracted_text-IsFile file (omega arith)

abbrev thin : ExtractedText
thin = record { pages = page 1 (codes "a") ∷ []; warnings = "thin" ∷ [] }

abbrev full : ExtractedText
full = record { pages = page 1 (codes "all of it") ∷ []; warnings = "ocr" ∷ [] }

abbrev embedded : String → Result TextExtraction ExtractedText
embedded path = ok thin

abbrev ocr : String → Result TextExtraction ExtractedText
ocr path = ok full

replaced :
    select_pdf_text_with_cancel "a.pdf" embedded ocr on_quality_warning
    ≡ ok (record {
      extracted = record full { warnings = "thin" ∷ used_warning ∷ "ocr" ∷ [] };
      text_source = local_ocr;
    })
unfolding select_pdf_text_with_cancel select_after_embedded_success
replaced = refl

select_pdf_text-IsSelection_example :
    IsSelection thin
      (ok full)
      on_quality_warning
      (select_pdf_text_with_cancel "a.pdf" embedded ocr on_quality_warning)
select_pdf_text-IsSelection_example =
    select_pdf_text-IsSelection "a.pdf" embedded ocr on_quality_warning thin refl
