-- ===== src/Download/Persist.antt =====
-- src/ingest/download_persist.rs.
use foia_search_mcp.Prelude.{
  ℕ, String, Bool, not, ◌&&◌, ◌||◌, Option, none, some, List, [], if◌then◌else◌, any, map, Chars,
  codes, chars_eq, trim, split_at, to_ascii_lowercase, Result, ok, err, ◌>>=◌, map_err,
}
use foia_search_mcp.Cache.{
  CachePolicy, respect_source_headers, do_not_persist, CacheEntry, CacheRow, policy_text, get, put,
  is_do_not_persist,
}
use foia_search_mcp.Redirect.Url.{Headers}
use foia_search_mcp.Download.Types.{
  AssetDownloadRequest, DownloadedAsset, DownloadError, missing_cached_body, serialize, DownloadEnv,
  PendingCachePersist, StoredBlob, DownloadCacheStatus, fetched, revalidated, not_persisted,
  status_text,
}

unfoldable pub load_cached_entry :
    AssetDownloadRequest → String → String → List CacheRow → Option CacheEntry
load_cached_entry request key now rows =
    if not (is_do_not_persist request.cache_policy) && not request.force
    then get key now rows
    else none

unfoldable pub persist_download :
    PendingCachePersist → List CacheRow → List CacheRow × DownloadedAsset
persist_download pending rows =
    (elim pending.cache_entry [ none ↦ rows | some entry ↦ put entry rows ], pending.downloaded)

abbrev pub forbids_storing : Chars → Bool
forbids_storing directive =
    chars_eq directive (codes "no-store") || chars_eq directive (codes "private")

abbrev pub text_or_empty : Option Chars → Chars
text_or_empty none = []
text_or_empty (some s) = s

unfoldable pub effective_cache_policy : CachePolicy → Headers → CachePolicy
effective_cache_policy do_not_persist headers = do_not_persist
effective_cache_policy respect_source_headers headers =
    if any forbids_storing
      (map trim (split_at b',' (to_ascii_lowercase (text_or_empty headers.cache_control))))
    then do_not_persist
    else respect_source_headers

-- `Option::or` and `ok_or_else`.
abbrev pub or_else {ℓ} : {A : Type ℓ} → Option A → Option A → Option A
or_else none o = o
or_else (some a) o = some a

abbrev pub ok_or {ℓ κ} : {A : Type ℓ} {E : Type κ} → E → Option A → Result E A
ok_or e none = err e
ok_or e (some a) = ok a

module _ {Url : Type 0} (env : DownloadEnv Url) where
  unfoldable pub build_revalidated_download :
      AssetDownloadRequest
      → Option CacheEntry
      → String
      → Chars
      → Option Chars
      → Option Chars
      → Result DownloadError PendingCachePersist
  build_revalidated_download request cached key headers_json response_etag response_modified =
      ok_or (missing_cached_body key) cached >>= λ entry.
      ok_or (missing_cached_body key) entry.body_sha256 >>= λ sha256.
      ok_or (missing_cached_body key) entry.body_path >>= λ path.
      ok_or (missing_cached_body key) (env.file_len path) >>= λ size_bytes.
      let etag = or_else response_etag entry.etag in
      let last_modified = or_else response_modified entry.last_modified in
      map_err serialize (
        env.to_json (record {
          cache_key = key;
          source = request.source;
          asset_url = request.asset.asset_url;
          final_url = request.asset.asset_url;
          method = "GET";
          status_code = 304;
          cache_status = status_text revalidated;
          cache_policy = policy_text entry.cache_policy;
          sha256 = sha256;
          size_bytes = size_bytes;
          body_path = some path;
          etag = etag;
          last_modified = last_modified;
          response_headers_json = headers_json;
        }))
      >>= λ provenance_json. ok (record {
        downloaded = record {
          cache_key = key;
          source = request.source;
          asset_url = request.asset.asset_url;
          final_url = request.asset.asset_url;
          mime_type = request.asset.mime_type;
          role = request.asset.role;
          status_code = 304;
          sha256 = sha256;
          path = path;
          size_bytes = size_bytes;
          etag = etag;
          last_modified = last_modified;
          cache_policy = entry.cache_policy;
          cache_status = revalidated;
          response_headers_json = headers_json;
          provenance_json = provenance_json;
        };
        cache_entry = none;
      })

  abbrev pub status_of : CachePolicy → DownloadCacheStatus
  status_of do_not_persist = not_persisted
  status_of respect_source_headers = fetched

  unfoldable pub build_fetched_download :
      AssetDownloadRequest
      → String
      → Chars
      → ℕ
      → Chars
      → Option Chars
      → Option Chars
      → Option Chars
      → Headers
      → StoredBlob
      → Result DownloadError PendingCachePersist
  build_fetched_download request key final_url status headers_json etag last_modified mime headers
        stored =
      let policy = effective_cache_policy request.cache_policy headers in
      map_err serialize (
        env.to_json (record {
          cache_key = key;
          source = request.source;
          asset_url = request.asset.asset_url;
          final_url = final_url;
          method = "GET";
          status_code = status;
          cache_status = status_text (status_of policy);
          cache_policy = policy_text policy;
          sha256 = stored.sha256;
          size_bytes = stored.size_bytes;
          body_path = some stored.path;
          etag = etag;
          last_modified = last_modified;
          response_headers_json = headers_json;
        }))
      >>= λ provenance_json. ok (record {
        downloaded = record {
          cache_key = key;
          source = request.source;
          asset_url = request.asset.asset_url;
          final_url = final_url;
          mime_type = mime;
          role = request.asset.role;
          status_code = status;
          sha256 = stored.sha256;
          path = stored.path;
          size_bytes = stored.size_bytes;
          etag = etag;
          last_modified = last_modified;
          cache_policy = policy;
          cache_status = status_of policy;
          response_headers_json = headers_json;
          provenance_json = provenance_json;
        };
        cache_entry = some (record {
          cache_key = key;
          source = request.source;
          url = request.asset.asset_url;
          method = "GET";
          status_code = some status;
          response_headers_json = headers_json;
          body_sha256 = some stored.sha256;
          body_path = some stored.path;
          etag = etag;
          last_modified = last_modified;
          expires_at = none;
          cache_policy = policy;
          provenance_json = provenance_json;
        });
      })
