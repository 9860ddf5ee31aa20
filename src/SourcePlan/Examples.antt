-- ===== src/SourcePlan/Examples.antt =====
-- A record with an HTML page, a plain text and no PDF: the text is selected.
use foia_search_mcp.Prelude.{
  none, some, [], ◌∷◌, ◌≡◌, refl, codes, ok, trim, trim_start, trim_end, is_whitespace,
}
use foia_search_mcp.Download.Types.{SourceAsset, html, other}
use foia_search_mcp.SourcePlan.Assets.{
  SourceRecord, select_asset, is_pdf_asset, fallback_pdf_asset, find_role_asset, has_role,
  find_plain_text_asset, is_text_file, is_plain_text_asset, url_without_query,
  text_source_for_asset, is_tei_asset, plan_text_asset,
}
use foia_search_mcp.SourcePlan.Selection.{IsChoice, select_asset-IsChoice}

abbrev page : SourceAsset
page = record {
  asset_url = codes "https://example.test/a";
  label = "page";
  mime_type = some (codes "text/html");
  role = html;
}

abbrev text_file : SourceAsset
text_file = record {
  asset_url = codes "https://example.test/A.TXT?v=1";
  label = "text";
  mime_type = none;
  role = other;
}

abbrev two_assets : SourceRecord
two_assets = record {
  id = "cia:A";
  document_key = "cia_A";
  source = "cia";
  source_id = "A";
  title = "Report";
  date = none;
  collection = none;
  record_group = none;
  description = none;
  origin_url = "https://example.test/a";
  document_url = "https://example.test/a";
  pdf_url = some (codes " ");
  metadata = [];
  attachments = page ∷ text_file ∷ [];
  citation_note = none;
  terms_note = none;
}

text_first : select_asset two_assets ≡ ok (plan_text_asset text_file)
unfolding select_asset is_pdf_asset fallback_pdf_asset find_role_asset has_role
    find_plain_text_asset is_text_file is_plain_text_asset url_without_query text_source_for_asset
    is_tei_asset trim trim_start trim_end is_whitespace
text_first = refl

select_asset-IsChoice_example : IsChoice two_assets (select_asset two_assets)
select_asset-IsChoice_example = select_asset-IsChoice two_assets
