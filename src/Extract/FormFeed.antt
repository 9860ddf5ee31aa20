-- ===== src/Extract/FormFeed.antt =====
-- src/ingest/pdf.rs: `extracted_text_from_form_feed` and the reading of a text file.
use foia_search_mcp.Prelude.{
  ℕ, ◌+◌, ◌-◌, ◌/◌, ◌%◌, ◌^◌, String, Bool, not, Option, none, some, List, [], ◌∷◌, ◌++◌, map, ltb,
  ◌==◌, if◌then◌else◌, length, is_empty, keep, Chars, trim, trim_end, is_whitespace, format,
  decimal, split_at, Result, ok, err, ◌>>=◌, map_err,
}
use foia_search_mcp.Chunk.Pages.{PageText, join}

pub record ExtractedText : Type 0 where
  pub pages : List PageText
  pub warnings : List String

-- Paths and the texts of errors are not looked into.
pub data TextExtraction : Type 0 where
  io : String → TextExtraction
  empty_input : TextExtraction
  unavailable_binary : (binary : String) → TextExtraction
  command_failed : (binary status stderr : String) → TextExtraction
  timed_out : (binary timeout stderr : String) → TextExtraction
  cancelled : (binary stderr : String) → TextExtraction
  invalid_output_path : (path reason : String) → TextExtraction

-- `str::lines`: the pieces between newlines, without a last empty one. A carriage return before a
-- newline goes with the other white space at the end of the line.
abbrev pub lines_of : List Chars → List Chars
lines_of [] = []
lines_of ([] ∷ []) = []
lines_of (l ∷ ls) = l ∷ lines_of ls

unfoldable pub normalize_page_text : Chars → Chars
unfolding trim trim_end is_whitespace
normalize_page_text text =
    trim (join (0xa ∷ []) (map (trim_end is_whitespace) (lines_of (split_at 0xa text))))

-- The pieces with their numbers, `(index + 1) as u32`.
abbrev pub normalized_pages : ℕ → List Chars → List PageText
normalized_pages index [] = []
normalized_pages index (page ∷ pages) =
    record { page_number = (index + 1) % 2 ^ 32; text = normalize_page_text page }
    ∷ normalized_pages (index + 1) pages

-- `Iterator::position` and `rposition`.
abbrev pub position {ℓ} : {A : Type ℓ} → (A → Bool) → List A → Option ℕ
position p [] = none
position p (x ∷ xs) =
    let rest = position p xs in
    if p x then some 0 else elim rest [ none ↦ none | some n ↦ some (n + 1) ]

abbrev pub rposition {ℓ} : {A : Type ℓ} → (A → Bool) → List A → Option ℕ
rposition p [] = none
rposition p (x ∷ xs) = elim (rposition p xs) [
  | some n ↦ some (n + 1)
  | none ↦ if p x then some 0 else none
]

abbrev pub from_index {ℓ} : {A : Type ℓ} → ℕ → List A → List A
from_index n [] = []
from_index n (x ∷ xs) = let rest = from_index (n - 1) xs in if n == 0 then x ∷ xs else rest

abbrev pub up_to {ℓ} : {A : Type ℓ} → ℕ → List A → List A
up_to n [] = []
up_to n (x ∷ xs) = let rest = up_to (n - 1) xs in if n == 0 then [] else x ∷ rest

abbrev pub unwrap_or : Option ℕ → ℕ → ℕ
unwrap_or none d = d
unwrap_or (some n) d = n

abbrev pub has_text : PageText → Bool
has_text page = not (is_empty page.text)

abbrev pub is_blank : PageText → Bool
is_blank page = is_empty (trim page.text)

abbrev pub visible_chars : List PageText → ℕ
visible_chars [] = 0
visible_chars (page ∷ pages) =
    length (keep (λ c. not (is_whitespace c)) page.text) + visible_chars pages

abbrev pub blank_warning : ℕ → ℕ → String
blank_warning blank all = format (
    "embedded PDF text contains "
    ∷ decimal blank
    ∷ " blank page(s) among "
    ∷ decimal all
    ∷ " parsed page(s); OCR fallback may improve coverage"
    ∷ [])

abbrev pub density_warning : ℕ → String
density_warning average = format (
    "embedded PDF text has low density ("
    ∷ decimal average
    ∷ " visible chars/page); OCR fallback may improve quality"
    ∷ [])

-- The average over no page is not asked for.
unfoldable pub embedded_text_quality_warnings : List PageText → List String
embedded_text_quality_warnings pages =
    let blank_pages = length (keep is_blank pages) in
    let non_blank_pages = length pages - blank_pages in
    let average = visible_chars (keep (λ p. not (is_blank p)) pages) / non_blank_pages in
    (if ltb 0 blank_pages then blank_warning blank_pages (length pages) ∷ [] else [])
    ++ (if ltb 0 non_blank_pages
        then (if ltb average 40 then density_warning average ∷ [] else [])
        else [])

-- `pages[first..=last]` and its warnings.
abbrev pub text_pages : List PageText → Option ℕ → Option ℕ → Result TextExtraction ExtractedText
text_pages pages none last = err empty_input
text_pages pages (some first) last =
    let kept = from_index first (up_to (unwrap_or last first + 1) pages) in
    ok (record { pages = kept; warnings = embedded_text_quality_warnings kept })

unfoldable pub extracted_text_from_form_feed : Chars → Result TextExtraction ExtractedText
unfolding normalize_page_text embedded_text_quality_warnings
extracted_text_from_form_feed text =
    let pages = normalized_pages 0 (split_at 0xc text) in
    text_pages pages (position has_text pages) (rposition has_text pages)

-- `TextFileExtractor`, on what `fs::read_to_string` answers.
abbrev pub extract_text_file :
    (String → Result String Chars) → String → Result TextExtraction ExtractedText
extract_text_file read_to_string path =
    map_err io (read_to_string path) >>= λ text. extracted_text_from_form_feed text
