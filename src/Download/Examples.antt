-- ===== src/Download/Examples.antt =====
-- A server that answers with a body in two pieces, and the same server later, when it answers that
-- nothing was modified. A URL here is a host under https.
use foia_search_mcp.Prelude.{
  ℕ, false, none, some, List, [], ◌∷◌, ◌≡◌, ◌↔◌, refl, Chars, trim, codes, Result, ok,
}
use foia_search_mcp.Cache.{
  CacheRow, respect_source_headers, put, get, policy_text, policy_from_text,
}
use foia_search_mcp.Redirect.Url.{UrlApi, Headers}
use foia_search_mcp.Redirect.Validate.{deny}
use foia_search_mcp.Redirect.Follow.{send_with_redirects, hop_loop}
use foia_search_mcp.Download.Types.{
  pdf, AssetDownloadRequest, DownloadedAsset, DownloadEnv, fetched, revalidated,
}
use foia_search_mcp.Download.Persist.{
  load_cached_entry, persist_download, build_revalidated_download, build_fetched_download,
  effective_cache_policy,
}
use foia_search_mcp.Download.Http.{
  cache_key, validate_asset_url, read_bounded, fetch_body, receive_response, download_http,
  download,
}
use foia_search_mcp.Download.Body.{IsBody, read_bounded-IsBody}
use foia_search_mcp.Download.Stored.{IsOutcome, download-IsOutcome}
use foia_search_mcp.Download.Reuse.{CacheAfter, download-CacheAfter, revalidated-eq-fetched}

abbrev hosts : UrlApi Chars
hosts = record {
  parse = λ s. ok s;
  join = λ u location. ok location;
  as_str = λ u. u;
  scheme = λ u. codes "https";
  username = λ u. [];
  password = λ u. none;
  host_str = λ u. some u;
  parse_ip = λ s. none;
}

abbrev headers : Headers
headers = record {
  location = none;
  etag = some (codes "v1");
  last_modified = none;
  content_type = some (codes "application/pdf");
  cache_control = some (codes "max-age=60");
  json = ok (codes "{}");
}

abbrev pieces : List (Result Chars (List ℕ))
pieces = ok (1 ∷ 2 ∷ []) ∷ ok (3 ∷ []) ∷ []

abbrev answering : ℕ → List (Result Chars (List ℕ)) → DownloadEnv Chars
answering status body = record {
  api = hosts;
  send = λ hop r.
      ok (record { status = status; headers = headers; content_length = none; body = body });
  put_blob = λ kind bytes. ok (record { sha256 = "aa"; path = "/blobs/aa.pdf"; size_bytes = 3 });
  file_len = λ path. some 3;
  to_json = λ provenance. ok (codes "{}");
  sha256_hex = λ text. "00";
}

abbrev pub before : DownloadEnv Chars
before = answering 200 pieces

abbrev later_on : DownloadEnv Chars
later_on = answering 304 []

abbrev asset_request : AssetDownloadRequest
asset_request = record {
  source = "cia";
  asset = record { asset_url = codes "example.test"; label = "PDF"; mime_type = none; role = pdf };
  cache_policy = respect_source_headers;
  redirect_policy = deny;
  force = false;
}

abbrev downloaded : DownloadedAsset
downloaded = record {
  cache_key = "asset:sha256:00";
  source = "cia";
  asset_url = codes "example.test";
  final_url = codes "example.test";
  mime_type = some (codes "application/pdf");
  role = pdf;
  status_code = 200;
  sha256 = "aa";
  path = "/blobs/aa.pdf";
  size_bytes = 3;
  etag = some (codes "v1");
  last_modified = none;
  cache_policy = respect_source_headers;
  cache_status = fetched;
  response_headers_json = codes "{}";
  provenance_json = codes "{}";
}

abbrev downloaded_again : DownloadedAsset
downloaded_again = record downloaded {
  mime_type = none;
  status_code = 304;
  cache_status = revalidated;
}

abbrev row : CacheRow
row = record {
  entry = record {
    cache_key = "asset:sha256:00";
    source = "cia";
    url = codes "example.test";
    method = "GET";
    status_code = some 200;
    response_headers_json = codes "{}";
    body_sha256 = some "aa";
    body_path = some "/blobs/aa.pdf";
    etag = some (codes "v1");
    last_modified = none;
    expires_at = none;
    cache_policy = respect_source_headers;
    provenance_json = codes "{}";
  };
  policy = "respect_source_headers";
}

first_result : download before 3 asset_request "2026" [] ≡ (row ∷ [], ok downloaded)
unfolding download download_http validate_asset_url cache_key send_with_redirects hop_loop
    receive_response fetch_body read_bounded build_fetched_download effective_cache_policy
    load_cached_entry persist_download get put policy_text policy_from_text trim
first_result = refl

second_result :
    download later_on 3 asset_request "2027" (row ∷ []) ≡ (row ∷ [], ok downloaded_again)
unfolding download download_http validate_asset_url cache_key send_with_redirects hop_loop
    receive_response build_revalidated_download load_cached_entry persist_download get put
    policy_text policy_from_text trim
second_result = refl

same_key :
    cache_key before "cia" (codes "example.test") ≡ cache_key later_on "cia" (codes "example.test")
unfolding cache_key
same_key = refl

read_bounded-IsBody_example :
    (read_bounded 3 (codes "u") pieces [] ≡ ok (1 ∷ 2 ∷ 3 ∷ [])) ↔ IsBody 3 pieces (1 ∷ 2 ∷ 3 ∷ [])
read_bounded-IsBody_example = read_bounded-IsBody 3 (codes "u") pieces (1 ∷ 2 ∷ 3 ∷ [])

download-IsOutcome_example :
    IsOutcome later_on 3 asset_request "2027"
      (row ∷ [])
      (download later_on 3 asset_request "2027" (row ∷ []))
download-IsOutcome_example = download-IsOutcome later_on 3 asset_request "2027" (row ∷ [])

download-CacheAfter_example :
    CacheAfter before 3
      (cache_key before "cia" (codes "example.test"))
      downloaded
      fetched
      (λ k later. get k later [])
      (λ k later. get k later (row ∷ []))
download-CacheAfter_example =
    download-CacheAfter before 3 asset_request "2026" [] (row ∷ []) downloaded first_result

revalidated-eq-fetched_example :
    (downloaded_again.sha256 ≡ downloaded.sha256)
    × (downloaded_again.path ≡ downloaded.path)
    × Path (List CacheRow) (row ∷ []) (row ∷ [])
revalidated-eq-fetched_example =
    revalidated-eq-fetched before later_on 3 asset_request asset_request "2026" "2027" [] (row ∷ [])
      (row ∷ []) downloaded downloaded_again first_result refl same_key second_result refl
