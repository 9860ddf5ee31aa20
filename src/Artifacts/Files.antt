-- ===== src/Artifacts/Files.antt =====
-- The files below the data directory, and the paths of those that are derived from a document.
use foia_search_mcp.Prelude.{
  ◌≡◌, ◌≢◌, refl, arith, chars_eq_iff, All, All-impl, Bool-cases, inl, inr, ℕ, ◌+◌, ◌-◌, ◌*◌, ◌^◌,
  leb, ◌==◌, Bool, true, false, not, ◌&&◌, if◌then◌else◌, String, Option, none, some, List, [], ◌∷◌,
  ◌++◌, all, is_empty, Chars, codes, chars_eq, decimal, format, map_get,
}
use foia_search_mcp.Documents.Read.{}

-- The components below the data directory.
abbrev pub FilePath : Type 0
FilePath = List Chars

-- What stands at a path. A regular file that cannot be opened or read has the error's text.
pub data Node : Type 0 where
  regular : Chars → Node
  unreadable : String → Node
  directory : Node
  special : Node

abbrev pub Files : Type 0
Files = List (FilePath × Node)

abbrev pub path_eq : FilePath → FilePath → Bool
path_eq [] [] = true
path_eq [] (d ∷ q) = false
path_eq (c ∷ p) [] = false
path_eq (c ∷ p) (d ∷ q) = chars_eq c d && path_eq p q

abbrev pub node_at : FilePath → Files → Option Node
node_at p files = map_get path_eq p files

abbrev pub text_name : String → Chars
text_name stem = codes (format (stem ∷ ".txt" ∷ []))

abbrev pub derived_document_text_path : String → FilePath
derived_document_text_path key = codes "text" ∷ codes "documents" ∷ text_name key ∷ []

abbrev pub text_page_dir : String → FilePath
text_page_dir key = codes "text" ∷ codes "pages" ∷ codes key ∷ []

abbrev pub ocr_page_dir : String → FilePath
ocr_page_dir key = codes "ocr" ∷ codes "pages" ∷ codes key ∷ []

abbrev pub derived_page_text_path : String → ℕ → FilePath
derived_page_text_path key n = text_page_dir key ++ text_name (decimal n) ∷ []

abbrev pub derived_ocr_page_text_path : String → ℕ → FilePath
derived_ocr_page_text_path key n = ocr_page_dir key ++ text_name (decimal n) ∷ []

abbrev u32_max : ℕ
u32_max = 2 ^ 32 - 1

abbrev is_digit : ℕ → Bool
is_digit c = leb b'0' c && leb c b'9'

abbrev digits_value : ℕ → Chars → ℕ
digits_value a [] = a
digits_value a (c ∷ s) = digits_value (a * 10 + (c - b'0')) s

abbrev without_plus : Chars → Chars
without_plus [] = []
without_plus (c ∷ s) = if c == b'+' then s else c ∷ s

-- `str::parse::<u32>`: digits, after a plus if there is one.
abbrev parse_u32 : Chars → Option ℕ
parse_u32 s =
    let t = without_plus s in
    if not (is_empty t) && all is_digit t && leb (digits_value 0 t) u32_max
    then some (digits_value 0 t)
    else none

-- `strip_suffix`
abbrev strip_suffix : Chars → Chars → Option Chars
strip_suffix suffix [] = if chars_eq [] suffix then some [] else none
strip_suffix suffix (c ∷ s) =
    if chars_eq (c ∷ s) suffix
    then some []
    else elim (strip_suffix suffix s) [ none ↦ none | some t ↦ some (c ∷ t) ]

abbrev positive : Option ℕ → Option ℕ
positive none = none
positive (some n) = if n == 0 then none else some n

unfoldable pub parse_page_number : Chars → Option ℕ
parse_page_number file_name = elim (strip_suffix (codes ".txt") file_name) [
  | none ↦ none
  | some stem ↦ positive (parse_u32 stem)
]

abbrev pub is_file : Node → Bool
is_file (regular file) = true
is_file (unreadable e) = true
is_file directory = false
is_file special = false

-- The name of an entry of the directory, if the path is one.
abbrev pub entry_name : FilePath → FilePath → Option Chars
entry_name [] [] = none
entry_name [] (name ∷ []) = some name
entry_name [] (c ∷ d ∷ p) = none
entry_name (c ∷ dir) [] = none
entry_name (c ∷ dir) (d ∷ p) = if chars_eq c d then entry_name dir p else none

pub path_eq_refl : (p : FilePath) → path_eq p p ≡ true
path_eq_refl [] = refl
path_eq_refl (c ∷ p) = ground (arith, (chars_eq_iff c c).1 refl, path_eq_refl p)

-- Something stands at the path of each entry.
pub found_at_own : (files : Files) → All (λ f. node_at f.0 files ≢ none) files
found_at_own [] = tt
found_at_own (f ∷ files) = (
  (λ gone. ground (arith, path_eq_refl f.0)),
  All-impl files
      (λ g there gone. elim (Bool-cases (path_eq f.0 g.0)) [
        | inl same ↦ absurd (ground arith)
        | inr other ↦ there (ground arith)
      ])
      (found_at_own files),
)
