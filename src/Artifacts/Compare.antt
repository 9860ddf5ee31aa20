-- ===== src/Artifacts/Compare.antt =====
-- src/ingest/reconcile_compare.rs: a file compared with what it should hold, without reading it
-- whole; and `render_document_text` of src/ingest/reconcile_repair_apply.rs, which writes it.
use foia_search_mcp.Prelude.{
  zero, min, length, chars_eq, ℕ, suc, ltb, Bool, false, if◌then◌else◌, String, Option, none, some,
  List, [], ◌∷◌, ◌++◌, is_empty, Chars, codes, decimal, Result, ok, err,
}
use foia_search_mcp.Documents.Read.{StoredPageText}

abbrev pub take : ℕ → Chars → Chars
take zero s = []
take (suc n) [] = []
take (suc n) (c ∷ s) = c ∷ take n s

abbrev pub drop : ℕ → Chars → Chars
drop zero s = s
drop (suc n) [] = []
drop (suc n) (c ∷ s) = drop n s

-- `read_exact`: the bytes read and those left, or `none` for an unexpected end.
abbrev pub read_exact : ℕ → Chars → Option (Chars × Chars)
read_exact zero file = some ([], file)
read_exact (suc n) [] = none
read_exact (suc n) (c ∷ file) = elim (read_exact n file) [
  | none ↦ none
  | some (buffer, rest) ↦ some (c ∷ buffer, rest)
]

-- What is left behind the bytes read, if these are the expected ones.
abbrev pub if_expected : Chars → Option (Chars × Chars) → Option Chars
if_expected expected none = none
if_expected expected (some (buffer, rest)) = if chars_eq buffer expected then some rest else none

abbrev pub buffer_length : ℕ
buffer_length = 8192

-- The loop of `FileComparator::consume`, on fuel: what is left of the file behind the expected
-- bytes, or `none` if it has others or ends before.
unfoldable pub consume_blocks : ℕ → Chars → Chars → Option Chars
consume_blocks fuel [] file = some file
consume_blocks zero (c ∷ cs) file = none
consume_blocks (suc fuel) (c ∷ cs) file =
    let read_len = min (length (c ∷ cs)) buffer_length in
    elim (if_expected (take read_len (c ∷ cs)) (read_exact read_len file)) [
      | none ↦ none
      | some rest ↦ consume_blocks fuel (drop read_len (c ∷ cs)) rest
    ]

-- A block has at least one byte, so the length of what is expected is fuel enough.
unfoldable pub consume : Chars → Chars → Option Chars
unfolding consume_blocks
consume expected file = consume_blocks (length expected) expected file

-- `finish`: nothing is left.
abbrev pub finish : Option Chars → Bool
finish none = false
finish (some rest) = is_empty rest

abbrev pub then_consume : Chars → Option Chars → Option Chars
then_consume expected none = none
then_consume expected (some file) = consume expected file

unfoldable pub file_matches_bytes : Chars → Chars → Bool
unfolding consume
file_matches_bytes expected file = finish (consume expected file)

module _ (as_bytes : Chars → Chars) where
  -- The steps for one page, each of which returns early. `index` is that of the page.
  abbrev pub consume_page : ℕ → StoredPageText → Option Chars → Option Chars
  consume_page index page file = then_consume (as_bytes page.text) (
      then_consume (codes "]\n") (
        then_consume (codes (decimal page.page_number)) (
          then_consume (codes "[page ")
            (if ltb 0 index then then_consume (codes "\n\n") file else file))))

  unfoldable pub consume_pages : ℕ → List StoredPageText → Option Chars → Option Chars
  unfolding consume
  consume_pages index [] file = file
  consume_pages index (page ∷ pages) file =
      consume_pages (suc index) pages (consume_page index page file)

  unfoldable pub file_matches_rendered_pages : List StoredPageText → Chars → Bool
  unfolding consume_pages
  file_matches_rendered_pages pages file = finish (consume_pages 0 pages (some file))

  -- What the loop of `render_document_text` pushes for a page.
  abbrev pub push_page : ℕ → StoredPageText → Chars → Chars
  push_page index page rendered =
      (((if ltb 0 index then rendered ++ codes "\n\n" else rendered) ++ codes "[page ")
        ++ codes (decimal page.page_number))
      ++ codes "]\n"
      ++ as_bytes page.text

  unfoldable pub push_pages : ℕ → List StoredPageText → Chars → Chars
  push_pages index [] rendered = rendered
  push_pages index (page ∷ pages) rendered =
      push_pages (suc index) pages (push_page index page rendered)

  unfoldable pub render_document_text : List StoredPageText → Result String Chars
  unfolding push_pages
  render_document_text [] = err "document text rewrite requires at least one stored page"
  render_document_text (page ∷ pages) = ok (push_pages 0 (page ∷ pages) [])
