-- ===== src/Documents/Read.antt =====
-- What is read back: `get_document_metadata` and `get_page_text`.
use foia_search_mcp.Prelude.{
  ℕ, ◌+◌, ◌-◌, ◌%◌, ◌^◌, String, Bool, ◌&&◌, ◌||◌, none, some, List, [], ◌∷◌, ◌==◌, leb, ltb,
  if◌then◌else◌, find, keep, map, length, str_eq, Chars, Result, ok, err, ◌>>=◌,
}
use foia_search_mcp.Store.{StoreError, missing_document, missing_pages, invalid_page_range}
use foia_search_mcp.Documents.Tables.{UpsertDocument, DocumentRow, PageRow, Database}

pub record StoredDocumentMetadata : Type 0 where
  pub id : ℕ
  pub document : UpsertDocument
  pub page_count : ℕ

pub record StoredPageText : Type 0 where
  pub page_number : ℕ
  pub text : Chars
  pub text_source : String

-- d.public_id = ?1 OR d.document_key = ?1
abbrev pub is_named : String → DocumentRow → Bool
is_named name r = str_eq r.document.public_id name || str_eq r.document.document_key name

abbrev pub pages_of : ℕ → List PageRow → List PageRow
pages_of id rows = keep (λ r. r.document_id == id) rows

-- The first row of the query, which groups by the id: the rows stand in the order of their ids.
unfoldable pub get_document_metadata : String → Database → Result StoreError StoredDocumentMetadata
get_document_metadata name db = elim (find (is_named name) db.documents) [
  | none ↦ err (missing_document name)
  | some r ↦ ok (record {
    id = r.id;
    document = r.document;
    page_count = length (pages_of r.id db.pages) % 2 ^ 32;
  })
]

-- ORDER BY page_number.
abbrev pub insert_by_number : PageRow → List PageRow → List PageRow
insert_by_number p [] = p ∷ []
insert_by_number p (q ∷ qs) =
    if leb p.page_number q.page_number then p ∷ q ∷ qs else q ∷ insert_by_number p qs

abbrev pub sort_by_number : List PageRow → List PageRow
sort_by_number [] = []
sort_by_number (p ∷ ps) = insert_by_number p (sort_by_number ps)

abbrev pub between : ℕ → ℕ → PageRow → Bool
between a b r = leb a r.page_number && leb r.page_number b

abbrev pub read_page_text : PageRow → StoredPageText
read_page_text r = record {
  page_number = r.page_number % 2 ^ 32;
  text = r.text;
  text_source = r.text_source;
}

-- `page_start` and `page_end` are u32, and the sum cannot pass `u32::MAX` behind the guards.
unfoldable pub get_page_text : String → ℕ → ℕ → Database → Result StoreError (List StoredPageText)
unfolding get_document_metadata
get_page_text name page_start page_end db =
    if page_start == 0 || page_end == 0
    then err (invalid_page_range "page_start and page_end must be one-based")
    else if ltb page_end page_start
    then err (invalid_page_range "page_start must be less than or equal to page_end")
    else get_document_metadata name db >>= λ document.
        let pages = map read_page_text (
          sort_by_number
            (keep (λ r. r.document_id == document.id && between page_start page_end r) db.pages)) in
        if length pages == page_end - page_start + 1
        then ok pages
        else err (missing_pages name page_start page_end)
