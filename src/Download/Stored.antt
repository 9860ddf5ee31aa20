-- ===== src/Download/Stored.antt =====
-- What a download returns, and what it puts into the cache.
use foia_search_mcp.Prelude.{
  ◌||◌, chars_eq, codes, ℕ, String, true, Option, none, some, List, [], ◌≡◌, refl, sym, ap, ◌∙◌,
  arith, ==_iff, if_eq, inl, inr, ◌⊎◌, Result, ok, err, bind_ok, map_err_ok, map_err, ok_injective,
  Chars, ◌==◌,
}
use foia_search_mcp.Cache.{CacheEntry, CacheRow, put}
use foia_search_mcp.Redirect.Url.{Headers, Response}
use foia_search_mcp.Redirect.Follow.{send_with_redirects}
use foia_search_mcp.Download.Types.{
  AssetDownloadRequest, DownloadedAsset, DownloadError, DownloadEnv, PendingCachePersist,
  StoredBlob, revalidated, missing_cached_body, serialize, file_store, blob_kind, from_redirect,
}
use foia_search_mcp.Download.Persist.{
  load_cached_entry, persist_download, build_revalidated_download, build_fetched_download, ok_or,
  status_of, effective_cache_policy,
}
use foia_search_mcp.Download.Body.{IsBody, read_bounded-IsBody}
use foia_search_mcp.Download.Http.{
  cache_key, validate_asset_url, fetch_body, receive_response, download_http, persisted, download,
  announced, read_bounded, is_success, user_agent,
}

ok_or_ok : {A : Type 0} {E : Type 0} (e : E) (o : Option A) (a : A) → ok_or e o ≡ ok a → o ≡ some a
ok_or_ok e none a h = ground arith
ok_or_ok e (some b) a h = ap some (ok_injective h)

module _ {Url : Type 0} (env : DownloadEnv Url) (max_bytes : ℕ) where
  -- A download that the cached entry stands for.
  abbrev pub IsCached : Option CacheEntry → DownloadedAsset → Type 0
  IsCached cached d =
      (e : CacheEntry) × (cached ≡ some e)
      × (e.body_sha256 ≡ some d.sha256)
      × (e.body_path ≡ some d.path)
      × (env.file_len d.path ≡ some d.size_bytes)

  -- An entry that describes a download.
  abbrev pub Describes : CacheEntry → DownloadedAsset → Type 0
  Describes e d =
      (e.cache_key ≡ d.cache_key)
      × (e.expires_at ≡ none)
      × (e.cache_policy ≡ d.cache_policy)
      × (e.body_sha256 ≡ some d.sha256)
      × (e.body_path ≡ some d.path)
      × (e.etag ≡ d.etag)
      × (e.last_modified ≡ d.last_modified)
      × (e.provenance_json ≡ d.provenance_json)

  abbrev pub IsRevalidated : Option CacheEntry → PendingCachePersist → Type 0
  IsRevalidated cached p =
      (p.cache_entry ≡ none)
      × (p.downloaded.cache_status ≡ revalidated)
      × IsCached cached p.downloaded

  abbrev pub IsStored : StoredBlob → DownloadedAsset → Type 0
  IsStored stored d =
      (d.sha256 ≡ stored.sha256) × (d.path ≡ stored.path) × (d.size_bytes ≡ stored.size_bytes)

  -- A download with the row that is to be put for it.
  abbrev pub IsPending : AssetDownloadRequest → String → Headers → PendingCachePersist → Type 0
  IsPending request key headers p =
      (e : CacheEntry) × (p.cache_entry ≡ some e)
      × Describes e p.downloaded
      × (p.downloaded.cache_key ≡ key)
      × (p.downloaded.cache_policy ≡ effective_cache_policy request.cache_policy headers)
      × (p.downloaded.cache_status ≡ status_of env p.downloaded.cache_policy)

  -- A download whose body came in a response, within the limit, and was put into the blob store.
  abbrev pub IsFetched : AssetDownloadRequest → String → Response → PendingCachePersist → Type 0
  IsFetched request key response p =
      (body : List ℕ) × IsBody max_bytes response.body body
      × (stored : StoredBlob) × (env.put_blob (blob_kind request.asset.role) body ≡ ok stored)
      × IsStored stored p.downloaded
      × IsPending request key response.headers p

  revalidated_lem :
      (request : AssetDownloadRequest) (cached : Option CacheEntry) (key : String) (json : Chars)
      (etag modified : Option Chars) (p : PendingCachePersist)
      → build_revalidated_download env request cached key json etag modified ≡ ok p
      → IsRevalidated cached p
  unfolding build_revalidated_download
  revalidated_lem request cached key json etag modified p h =
      let (entry, h0, h1) = bind_ok (ok_or (missing_cached_body key) cached) _ p h in
      let (sha, h2, h3) = bind_ok (ok_or (missing_cached_body key) entry.body_sha256) _ p h1 in
      let (path, h4, h5) = bind_ok (ok_or (missing_cached_body key) entry.body_path) _ p h3 in
      let (size, h6, h7) = bind_ok (ok_or (missing_cached_body key) (env.file_len path)) _ p h5 in
      let (text, h8, h9) = bind_ok (map_err serialize (env.to_json _)) _ p h7 in
      let same = ok_injective h9 in
      rw (sym same) (
        refl,
        refl,
        (
          entry,
          ok_or_ok (missing_cached_body key) cached entry h0,
          ok_or_ok (missing_cached_body key) entry.body_sha256 sha h2,
          ok_or_ok (missing_cached_body key) entry.body_path path h4,
          ok_or_ok (missing_cached_body key) (env.file_len path) size h6,
        ),
      )

  fetched_lem :
      (request : AssetDownloadRequest) (key : String) (final : Chars) (status : ℕ) (json : Chars)
      (etag modified mime : Option Chars) (headers : Headers) (stored : StoredBlob)
      (p : PendingCachePersist)
      → build_fetched_download env request key final status json etag modified mime headers stored
        ≡ ok p
      → IsStored stored p.downloaded × IsPending request key headers p
  unfolding build_fetched_download
  fetched_lem request key final status json etag modified mime headers stored p h =
      let (text, h0, h1) = bind_ok (map_err serialize (env.to_json _)) _ p h in
      let same = ok_injective h1 in
      rw (sym same) (
        (refl, refl, refl),
        (_, refl, (refl, refl, refl, refl, refl, refl, refl, refl), refl, refl, refl),
      )

  fetch_lem :
      (request : AssetDownloadRequest) (key : String) (response : Response) (final : Url)
      (json : Chars) (p : PendingCachePersist)
      → fetch_body env max_bytes request key (response, final) json ≡ ok p
      → IsFetched request key response p
  unfolding fetch_body
  fetch_lem request key response final json p h =
      let (u, h0, h1) =
        bind_ok (announced max_bytes (env.api.as_str final) response.content_length) _ p h in
      let (body, h2, h3) =
        bind_ok (read_bounded max_bytes (env.api.as_str final) response.body []) _ p h1 in
      let (stored, h4, h5) =
        bind_ok (map_err file_store (env.put_blob (blob_kind request.asset.role) body)) _ p h3 in
      let (kept, pending) = fetched_lem request key _ _ _ _ _ _ response.headers stored p h5 in
      (
        body,
        (read_bounded-IsBody max_bytes (env.api.as_str final) response.body body).0 h2,
        stored,
        map_err_ok file_store _ stored h4,
        kept,
        pending,
      )

  -- What a response comes to, by its status.
  abbrev pub IsReceived :
      AssetDownloadRequest → Option CacheEntry → String → Response → PendingCachePersist → Type 0
  IsReceived request cached key response p =
      (response.status ≡ 304) × IsRevalidated cached p
      ⊎ (is_success response.status ≡ true) × IsFetched request key response p

  receive_lem :
      (request : AssetDownloadRequest) (cached : Option CacheEntry) (key : String)
      (response : Response) (final : Url) (p : PendingCachePersist)
      → receive_response env max_bytes request cached key (response, final) ≡ ok p
      → IsReceived request cached key response p
  unfolding receive_response
  receive_lem request cached key response final p h =
      let (json, h0, h1) = bind_ok (map_err serialize response.headers.json) _ p h in
      elim (if_eq (response.status == 304) _ _ _ h1) [
        | inl (same, e) ↦
            inl
              ((==_iff response.status 304).0 same, revalidated_lem request cached key json _ _ p e)
        | inr (other, e) ↦ elim (if_eq (is_success response.status) _ _ _ e) [
          | inl (fine, k) ↦ inr (fine, fetch_lem request key response final json p k)
          | inr (bad, k) ↦ absurd (ground arith)
        ]
      ]

  -- The row of the table that a download reads, and the run of its requests.
  abbrev pub cached_for : AssetDownloadRequest → String → List CacheRow → Option CacheEntry
  cached_for request now rows =
      load_cached_entry request (cache_key env request.source request.asset.asset_url) now rows

  -- A pending download answers what the server answered last, and not by a redirect.
  abbrev pub IsDownloaded : AssetDownloadRequest → Option CacheEntry → PendingCachePersist → Type 0
  IsDownloaded request cached p =
      (initial : Url) × (env.api.parse request.asset.asset_url ≡ ok initial)
      × (response : Response) × (final : Url) × ((send_with_redirects env.api env.send initial
            cached request.redirect_policy user_agent).1
          ≡ ok (response, final))
      × IsReceived request cached (cache_key env request.source request.asset.asset_url) response p

  validated_lem :
      (url : Chars) (initial : Url)
      → validate_asset_url env url ≡ ok initial
      → env.api.parse url ≡ ok initial
  unfolding validate_asset_url
  validated_lem url initial h =
      let (parsed, h0, h1) = bind_ok (map_err _ (env.api.parse url)) _ initial h in
      map_err_ok _ (env.api.parse url) parsed h0
      ∙ elim (if_eq
          (chars_eq (env.api.scheme parsed) (codes "http")
            || chars_eq (env.api.scheme parsed) (codes "https"))
          (ok parsed) _ _ h1) [
            | inl (_, e) ↦ ap ok (ok_injective e)
            | inr (_, e) ↦ absurd (ground arith)
          ]

  download_http_lem :
      (request : AssetDownloadRequest) (cached : Option CacheEntry) (p : PendingCachePersist)
      → download_http env max_bytes request cached ≡ ok p
      → IsDownloaded request cached p
  unfolding download_http
  download_http_lem request cached p h =
      let (initial, h0, h1) = bind_ok (validate_asset_url env request.asset.asset_url) _ p h in
      let (answer, h2, h3) =
        bind_ok
          (map_err from_redirect
            (send_with_redirects env.api env.send initial cached request.redirect_policy
              user_agent).1)
          _ p h1 in
      (
        initial,
        validated_lem request.asset.asset_url initial h0,
        answer.0,
        answer.1,
        map_err_ok from_redirect _ answer h2,
        receive_lem request cached _ answer.0 answer.1 p h3,
      )

  -- The table after a download that has come this far.
  abbrev pub rows_after : Option CacheEntry → List CacheRow → List CacheRow
  rows_after none rows = rows
  rows_after (some e) rows = put e rows

  -- What a download comes to.
  abbrev pub IsOutcome :
      AssetDownloadRequest
      → String
      → List CacheRow
      → List CacheRow × Result DownloadError DownloadedAsset
      → Type 0
  IsOutcome request now rows (after, err e) = after ≡ rows
  IsOutcome request now rows (after, ok d) =
      (p : PendingCachePersist) × (p.downloaded ≡ d)
      × IsDownloaded request (cached_for request now rows) p
      × (after ≡ rows_after p.cache_entry rows)

  -- A download that fails leaves the cache as it was. One that succeeds returns what the server
  -- answered to the last request of its run: either 304, and then the body is the one that the
  -- unexpired entry of the cache names, a file of the reported size, and the cache stays; or a status
  -- of success, and then the body's pieces all came, were within the limit together and were put
  -- into the blob store, whose digest, path and size are reported, and the entry that is put
  -- into the cache describes the download under the policy that the headers leave.
  pub download-IsOutcome :
      (request : AssetDownloadRequest) (now : String) (rows : List CacheRow)
      → IsOutcome request now rows (download env max_bytes request now rows)
  unfolding download persist_download
  download-IsOutcome request now rows =
      go (download_http env max_bytes request (cached_for request now rows)) refl
    where
      go :
          (r : Result DownloadError PendingCachePersist)
          → download_http env max_bytes request (cached_for request now rows) ≡ r
          → IsOutcome request now rows (persisted rows r)
      go (err e) h = refl
      go (ok p) h = (
        p,
        refl,
        download_http_lem request _ p h,
        elim p.cache_entry
            as (λ c. elim c [ none ↦ rows | some e ↦ put e rows ] ≡ rows_after c rows) [
              | none ↦ refl
              | some e ↦ refl
            ],
      )
