-- ===== src/Cache/Examples.antt =====
-- One entry, put and read back.
use foia_search_mcp.Prelude.{none, some, [], ◌≡◌, codes}
use foia_search_mcp.Cache.{CacheEntry, respect_source_headers, get, put}
use foia_search_mcp.Cache.ReadBack.{after_put, get-put}

abbrev entry : CacheEntry
entry = record {
  cache_key = "asset:sha256:00";
  source = "cia";
  url = codes "https://example.test/a.pdf";
  method = "GET";
  status_code = some 200;
  response_headers_json = codes "{}";
  body_sha256 = some "aa";
  body_path = some "/blobs/aa.pdf";
  etag = none;
  last_modified = none;
  expires_at = some "2026-01-01T00:00:00.000Z";
  cache_policy = respect_source_headers;
  provenance_json = codes "{}";
}

get-put_example :
    get "asset:sha256:00" "2025-06-01T00:00:00.000Z" (put entry [])
    ≡ after_put entry "asset:sha256:00" "2025-06-01T00:00:00.000Z"
        (get "asset:sha256:00" "2025-06-01T00:00:00.000Z" [])
get-put_example = get-put entry "asset:sha256:00" "2025-06-01T00:00:00.000Z" []
