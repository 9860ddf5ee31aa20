-- ===== src/SourcePlan/Assets.antt =====
-- The record of a source, and `select_asset` with its tests.
use foia_search_mcp.Prelude.{
  ℕ, String, Bool, true, false, not, ◌&&◌, ◌||◌, Option, none, some, List, [], ◌∷◌, ◌==◌,
  if◌then◌else◌, find, map, is_empty, Chars, codes, chars_eq, trim, to_ascii_lowercase,
  eq_ignore_ascii_case, Result, ok, err,
}
use foia_search_mcp.Store.{StoreError}
use foia_search_mcp.Documents.Tables.{
  TextSource, embedded_pdf_text, source_ocr, local_ocr, html_text, tei, api_text,
}
use foia_search_mcp.Download.Types.{
  SourceAsset, SourceAssetRole, pdf, html, ocr_text, transcript, image, other,
}

-- `text_preview`, which is not stored, is left out; the metadata is the map's entries in order.
pub record SourceRecord : Type 0 where
  pub id : String
  pub document_key : String
  pub source : String
  pub source_id : String
  pub title : String
  pub date : Option String
  pub collection : Option String
  pub record_group : Option String
  pub description : Option String
  pub origin_url : String
  pub document_url : String
  pub pdf_url : Option Chars
  pub metadata : List (String × String)
  pub attachments : List SourceAsset
  pub citation_note : Option String
  pub terms_note : Option String

pub record PlannedSourceAsset : Type 0 where
  pub url : Chars
  pub label : String
  pub mime_type : Option Chars
  pub role : SourceAssetRole
  pub text_source : TextSource

pub data SourcePlanError : Type 0 where
  unsafe_document_key : (source source_id document_key : String) → StoreError → SourcePlanError
  no_ingestible :
      (source source_id document_url : String) (asset_roles : List String)
      → String
      → SourcePlanError

abbrev role_number : SourceAssetRole → ℕ
role_number pdf = 0
role_number html = 1
role_number ocr_text = 2
role_number transcript = 3
role_number image = 4
role_number other = 5

-- The derived equality of the roles.
abbrev pub role_eq : SourceAssetRole → SourceAssetRole → Bool
role_eq a b = role_number a == role_number b

-- `starts_with` and `ends_with` on texts.
abbrev pub starts_with : Chars → Chars → Bool
starts_with prefix [] = is_empty prefix
starts_with [] (c ∷ s) = true
starts_with (d ∷ prefix) (c ∷ s) = c == d && starts_with prefix s

abbrev pub ends_with : Chars → Chars → Bool
ends_with suffix [] = is_empty suffix
ends_with suffix (c ∷ s) = chars_eq (c ∷ s) suffix || ends_with suffix s

abbrev pub has_url : SourceAsset → Bool
has_url asset = not (is_empty (trim asset.asset_url))

-- The text before the first `?` or `#`.
abbrev pub before_query : Chars → Chars
before_query [] = []
before_query (c ∷ s) = if c == b'?' || c == b'#' then [] else c ∷ before_query s

unfoldable pub url_without_query : Chars → Chars
url_without_query url = to_ascii_lowercase (before_query url)

-- `is_some_and`
abbrev pub mime_is : (Chars → Bool) → Option Chars → Bool
mime_is p none = false
mime_is p (some mime) = p mime

unfoldable pub is_pdf_asset : SourceAsset → Bool
unfolding url_without_query trim
is_pdf_asset asset =
    has_url asset
    && (role_eq asset.role pdf
        || mime_is (λ mime. eq_ignore_ascii_case mime (codes "application/pdf")) asset.mime_type
        || ends_with (codes ".pdf") (url_without_query asset.asset_url))

unfoldable pub is_plain_text_asset : SourceAsset → Bool
unfolding url_without_query
is_plain_text_asset asset =
    mime_is (λ mime. starts_with (codes "text/plain") (to_ascii_lowercase mime)) asset.mime_type
    || ends_with (codes ".txt") (url_without_query asset.asset_url)

abbrev pub is_tei_mime : Chars → Bool
is_tei_mime mime =
    let normalized = to_ascii_lowercase mime in
    chars_eq normalized (codes "application/tei+xml") || chars_eq normalized (codes "text/tei+xml")

unfoldable pub is_tei_asset : SourceAsset → Bool
unfolding url_without_query
is_tei_asset asset =
    mime_is is_tei_mime asset.mime_type
    || ends_with (codes ".xml") (url_without_query asset.asset_url)

abbrev pub text_source_of_role : SourceAssetRole → (is_tei is_plain : Bool) → TextSource
text_source_of_role pdf is_tei is_plain = embedded_pdf_text
text_source_of_role ocr_text is_tei is_plain = source_ocr
text_source_of_role html is_tei is_plain = html_text
text_source_of_role transcript is_tei is_plain = if is_tei then tei else api_text
text_source_of_role image is_tei is_plain = if is_plain then api_text else local_ocr
text_source_of_role other is_tei is_plain = if is_plain then api_text else local_ocr

unfoldable pub text_source_for_asset : SourceAsset → TextSource
unfolding is_tei_asset is_plain_text_asset
text_source_for_asset asset =
    text_source_of_role asset.role (is_tei_asset asset) (is_plain_text_asset asset)

abbrev pub plan_asset : SourceAsset → PlannedSourceAsset
plan_asset asset = record {
  url = asset.asset_url;
  label = asset.label;
  mime_type = asset.mime_type;
  role = asset.role;
  text_source = text_source_for_asset asset;
}

abbrev pub mime_or_pdf : Option Chars → Chars
mime_or_pdf none = codes "application/pdf"
mime_or_pdf (some mime) = mime

abbrev pub plan_pdf_asset : SourceAsset → PlannedSourceAsset
plan_pdf_asset asset = record {
  url = asset.asset_url;
  label = asset.label;
  mime_type = some (mime_or_pdf asset.mime_type);
  role = pdf;
  text_source = embedded_pdf_text;
}

abbrev pub plan_text_asset : SourceAsset → PlannedSourceAsset
plan_text_asset asset = record (plan_asset asset) { text_source = api_text }

abbrev pub pdf_at : Chars → PlannedSourceAsset
pdf_at url = record {
  url = url;
  label = "PDF";
  mime_type = some (codes "application/pdf");
  role = pdf;
  text_source = embedded_pdf_text;
}

abbrev pub fallback_of : Option Chars → Option PlannedSourceAsset
fallback_of none = none
fallback_of (some url) = if is_empty (trim url) then none else some (pdf_at (trim url))

unfoldable pub fallback_pdf_asset : SourceRecord → Option PlannedSourceAsset
unfolding trim
fallback_pdf_asset r = fallback_of r.pdf_url

abbrev pub planned {ℓ κ} : {A : Type ℓ} {B : Type κ} → (A → B) → Option A → Option B
planned f none = none
planned f (some a) = some (f a)

-- The attachments that the steps after the PDFs look for.
unfoldable pub has_role : SourceAssetRole → SourceAsset → Bool
unfolding trim
has_role role asset = has_url asset && role_eq asset.role role

unfoldable pub is_text_file : SourceAsset → Bool
unfolding trim is_plain_text_asset
is_text_file asset = has_url asset && is_plain_text_asset asset

unfoldable pub find_role_asset : SourceRecord → SourceAssetRole → Option PlannedSourceAsset
unfolding has_role
find_role_asset r role = planned plan_asset (find (has_role role) r.attachments)

unfoldable pub find_plain_text_asset : SourceRecord → Option PlannedSourceAsset
unfolding is_text_file
find_plain_text_asset r = planned plan_text_asset (find is_text_file r.attachments)

abbrev pub asset_role_name : SourceAssetRole → String
asset_role_name pdf = "pdf"
asset_role_name html = "html"
asset_role_name ocr_text = "ocr_text"
asset_role_name transcript = "transcript"
asset_role_name image = "image"
asset_role_name other = "other"

abbrev guidance : String
guidance =
    "fetch the source record in a browser or update the adapter so it exposes a PDF, OCR text, transcript, plain-text, or HTML asset"

abbrev pub no_ingestible_asset : SourceRecord → SourcePlanError
no_ingestible_asset r =
    no_ingestible r.source r.source_id r.document_url
      (map (λ (a : SourceAsset). asset_role_name a.role) r.attachments) guidance

-- `Option::or_else` and `ok_or_else`, the next step being tried where the one before found nothing.
abbrev pub otherwise :
    Option PlannedSourceAsset → Option PlannedSourceAsset → Option PlannedSourceAsset
otherwise none next = next
otherwise (some a) next = some a

abbrev pub found_or :
    SourcePlanError → Option PlannedSourceAsset → Result SourcePlanError PlannedSourceAsset
found_or e none = err e
found_or e (some a) = ok a

unfoldable pub select_asset : SourceRecord → Result SourcePlanError PlannedSourceAsset
unfolding is_pdf_asset fallback_pdf_asset find_role_asset find_plain_text_asset
select_asset r = found_or (no_ingestible_asset r) (
    otherwise (planned plan_pdf_asset (find is_pdf_asset r.attachments)) (
      otherwise (fallback_pdf_asset r) (
        otherwise (find_role_asset r ocr_text) (
          otherwise (find_role_asset r transcript)
            (otherwise (find_plain_text_asset r) (find_role_asset r html))))))
