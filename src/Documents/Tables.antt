-- ===== src/Documents/Tables.antt =====
-- The rows of `documents`, `pages`, `chunks`, `chunk_fts` and `assets`, and the values that are
-- written to them. The timestamps of creation and update, and the ids of pages and chunks, which no
-- statement here reads, have no column.
use foia_search_mcp.Prelude.{
  ℕ, String, Bool, false, ◌&&◌, ◌||◌, Option, List, Chars, codes, leb, not, is_empty, ◌==◌, length,
  all, if◌then◌else◌, head?, last?, none, some, trim_start, trim_end, is_whitespace, Result, ok,
  err,
}
use foia_search_mcp.Store.{StoreError, invalid_document_key, invalid_json}

pub data AssetRole : Type 0 where
  pdf html ocr_text transcript image other : AssetRole

abbrev pub role_text : AssetRole → String
role_text pdf = "pdf"
role_text html = "html"
role_text ocr_text = "ocr_text"
role_text transcript = "transcript"
role_text image = "image"
role_text other = "other"

pub data TextSource : Type 0 where
  embedded_pdf_text source_ocr local_ocr html_text tei api_text : TextSource

abbrev pub source_text : TextSource → String
source_text embedded_pdf_text = "embedded_pdf_text"
source_text source_ocr = "source_ocr"
source_text local_ocr = "local_ocr"
source_text html_text = "html"
source_text tei = "tei"
source_text api_text = "api_text"

abbrev is_key_char : ℕ → Bool
is_key_char c =
    leb b'0' c && leb c b'9'
    || leb b'A' c && leb c b'Z'
    || leb b'a' c && leb c b'z'
    || c == b'_'
    || c == b'-'

-- A text that passes is ASCII, so its bytes are its characters.
unfoldable pub is_document_key_safe : Chars → Bool
is_document_key_safe value = not (is_empty value) && leb (length value) 160 && all is_key_char value

-- `DocumentKey::new`; a key that was made is its text.
unfoldable pub document_key_new : String → Result StoreError String
unfolding is_document_key_safe
document_key_new value =
    if is_document_key_safe (codes value) then ok value else err (invalid_document_key value)

pub record UpsertDocument : Type 0 where
  pub public_id : String
  pub document_key : String
  pub source : String
  pub source_id : String
  pub title : String
  pub date : Option String
  pub collection : Option String
  pub record_group : Option String
  pub description : Option String
  pub origin_url : Option String
  pub document_url : Option String
  pub pdf_url : Option Chars
  pub metadata_json : Chars
  pub citation_note : Option String
  pub terms_note : Option String

pub record DocumentRow : Type 0 where
  pub id : ℕ
  pub document : UpsertDocument

pub record PageInput : Type 0 where
  pub document_key : String
  pub page_number : ℕ  -- i64, which the pipeline fills from u32
  pub text : Chars
  pub text_source : TextSource
  pub quality_score : Option ℕ  -- in hundredths
  pub warnings_json : Chars

pub record PageRow : Type 0 where
  pub document_id : ℕ
  pub page_number : ℕ
  pub text : Chars
  pub text_source : String
  pub quality_score : Option ℕ
  pub warnings : Chars

pub record ChunkInput : Type 0 where
  pub document_key : String
  pub chunk_id : String
  pub page_start : ℕ
  pub page_end : ℕ
  pub text : Chars
  pub token_estimate : Option ℕ
  pub metadata_json : Chars

pub record ChunkRow : Type 0 where
  pub document_id : ℕ
  pub chunk_id : String
  pub page_start : ℕ
  pub page_end : ℕ
  pub text : Chars
  pub token_estimate : Option ℕ
  pub metadata_json : Chars

-- A row of the full-text index.
pub record FtsRow : Type 0 where
  pub document_key : String
  pub chunk_id : String
  pub source : String
  pub title : String
  pub body : Chars
  pub page_start : ℕ
  pub page_end : ℕ

pub record AssetInput : Type 0 where
  pub document_key : String
  pub asset_url : Chars
  pub mime_type : Option Chars
  pub role : AssetRole
  pub sha256 : Option String
  pub size_bytes : Option ℕ
  pub etag : Option Chars
  pub last_modified : Option Chars
  pub fetched_at : Option String
  pub cache_policy : Option String

pub record AssetRow : Type 0 where
  pub id : ℕ
  pub document_id : ℕ
  pub asset_url : Chars
  pub mime_type : Option Chars
  pub role : String
  pub sha256 : Option String
  pub size_bytes : Option ℕ
  pub etag : Option Chars
  pub last_modified : Option Chars
  pub fetched_at : Option String
  pub cache_policy : Option String

pub record Database : Type 0 where
  pub documents : List DocumentRow
  pub pages : List PageRow
  pub chunks : List ChunkRow
  pub chunk_fts : List FtsRow
  pub assets : List AssetRow

pub record StoredDocument : Type 0 where
  pub id : ℕ
  pub public_id : String
  pub document_key : String
  pub source : String
  pub source_id : String
  pub title : String

abbrev is_char : Option ℕ → ℕ → Bool
is_char none c = false
is_char (some d) c = d == c

-- `value.trim_start().starts_with(open) && value.trim_end().ends_with(close)`
abbrev encloses : ℕ → ℕ → Chars → Bool
unfolding trim_start trim_end is_whitespace
encloses first last value =
    is_char (head? (trim_start is_whitespace value)) first
    && is_char (last? (trim_end is_whitespace value)) last

unfoldable pub ensure_json_object : String → Chars → Result StoreError (Unit {0})
unfolding trim_start trim_end is_whitespace
ensure_json_object field value =
    if encloses b'{' b'}' value then ok tt else err (invalid_json field value)

unfoldable pub ensure_json_array : String → Chars → Result StoreError (Unit {0})
unfolding trim_start trim_end is_whitespace
ensure_json_array field value =
    if encloses b'[' b']' value then ok tt else err (invalid_json field value)
