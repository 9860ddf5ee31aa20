-- ===== src/Download/Http.antt =====
-- `AssetDownloader::download` and what it calls.
use foia_search_mcp.Prelude.{
  ℕ, ◌+◌, String, ◌++◌, Bool, ◌||◌, ◌&&◌, Option, none, some, List, [], ◌∷◌, ◌==◌, ltb, leb,
  if◌then◌else◌, length, format, Chars, codes, chars_eq, Result, ok, err, ◌>>=◌, map_err,
}
use foia_search_mcp.Cache.{CacheEntry, CacheRow}
use foia_search_mcp.Redirect.Url.{Response}
use foia_search_mcp.Redirect.Follow.{send_with_redirects}
use foia_search_mcp.Download.Types.{
  AssetDownloadRequest, DownloadedAsset, DownloadError, invalid_url, http_status, too_large,
  request_failed, file_store, serialize, from_redirect, blob_kind, DownloadEnv, PendingCachePersist,
}
use foia_search_mcp.Download.Persist.{
  load_cached_entry, persist_download, build_revalidated_download, build_fetched_download, or_else,
}

abbrev pub user_agent : Chars
user_agent = codes "foia-search-mcp/0.1 (+https://github.com/modelcontextprotocol)"

abbrev pub default_max_bytes : ℕ
default_max_bytes = 104857600

-- The bytes that come, as long as they are not too many.
unfoldable pub read_bounded :
    ℕ → Chars → List (Result Chars (List ℕ)) → List ℕ → Result DownloadError (List ℕ)
read_bounded max_bytes url [] body = ok body
read_bounded max_bytes url (err e ∷ pieces) body = err (request_failed e)
read_bounded max_bytes url (ok piece ∷ pieces) body =
    let rest = read_bounded max_bytes url pieces (body ++ piece) in
    if ltb max_bytes (length body + length piece)
    then err (too_large url max_bytes (length body + length piece))
    else rest

abbrev pub is_success : ℕ → Bool
is_success s = leb 200 s && leb s 299

-- The guard on the length that the response announces.
abbrev pub announced : ℕ → Chars → Option ℕ → Result DownloadError (Unit {0})
announced max_bytes url none = ok tt
announced max_bytes url (some n) =
    if ltb max_bytes n then err (too_large url max_bytes n) else ok tt

module _ {Url : Type 0} (env : DownloadEnv Url) where
  unfoldable pub cache_key : String → Chars → String
  cache_key source url = format (
      "asset:sha256:"
      ∷ env.sha256_hex
          (codes "asset-download:v1" ++ (0 ∷ codes source ++ (0 ∷ codes "GET" ++ (0 ∷ url))))
      ∷ [])

  unfoldable pub validate_asset_url : Chars → Result DownloadError Url
  validate_asset_url url =
      map_err (λ message. invalid_url url message) (env.api.parse url) >>= λ parsed.
      if chars_eq (env.api.scheme parsed) (codes "http")
        || chars_eq (env.api.scheme parsed) (codes "https")
      then ok parsed
      else err (invalid_url url (codes "only http and https asset URLs are supported"))

abbrev pub persisted :
    List CacheRow
    → Result DownloadError PendingCachePersist
    → List CacheRow × Result DownloadError DownloadedAsset
persisted rows (err e) = (rows, err e)
persisted rows (ok pending) =
    ((persist_download pending rows).0, ok (persist_download pending rows).1)

module _ {Url : Type 0} (env : DownloadEnv Url) (max_bytes : ℕ) where
  -- The part after the test of the status: the body is read, stored, and described.
  unfoldable pub fetch_body :
      AssetDownloadRequest
      → String
      → Response × Url
      → Chars
      → Result DownloadError PendingCachePersist
  fetch_body request key (response, final) json =
      announced max_bytes (env.api.as_str final) response.content_length >>= λ _.
      read_bounded max_bytes (env.api.as_str final) response.body [] >>= λ body.
      map_err file_store (env.put_blob (blob_kind request.asset.role) body) >>= λ stored.
      build_fetched_download env request key (env.api.as_str final) response.status json
        response.headers.etag response.headers.last_modified
        (or_else request.asset.mime_type response.headers.content_type) response.headers stored

  -- A response that was not redirected.
  unfoldable pub receive_response :
      AssetDownloadRequest
      → Option CacheEntry
      → String
      → Response × Url
      → Result DownloadError PendingCachePersist
  receive_response request cached key (response, final) =
      map_err serialize response.headers.json >>= λ json.
      if response.status == 304
      then build_revalidated_download env request cached key json response.headers.etag
          response.headers.last_modified
      else if is_success response.status
      then fetch_body request key (response, final) json
      else err (http_status (env.api.as_str final) response.status)

  unfoldable pub download_http :
      AssetDownloadRequest → Option CacheEntry → Result DownloadError PendingCachePersist
  download_http request cached = validate_asset_url env request.asset.asset_url >>= λ initial.
      map_err from_redirect
        (send_with_redirects env.api env.send initial cached request.redirect_policy user_agent).1
      >>= λ answer.
          receive_response request cached (cache_key env request.source request.asset.asset_url)
            answer

  -- The table after a download, and its result.
  unfoldable pub download :
      AssetDownloadRequest
      → String
      → List CacheRow
      → List CacheRow × Result DownloadError DownloadedAsset
  download request now rows =
      let key = cache_key env request.source request.asset.asset_url in
      persisted rows (download_http request (load_cached_entry request key now rows))
