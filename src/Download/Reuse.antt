-- ===== src/Download/Reuse.antt =====
-- How downloads serve the ones after them: what the cache answers after a download, and the
-- revalidation of a body that an earlier download fetched.
use foia_search_mcp.Prelude.{
  ℕ, String, not, ◌&&◌, Option, none, some, List, if◌then◌else◌, ◌≡◌, refl, sym, ap, ◌∙◌, arith,
  inl, inr, eq_refl, ok, str_eq, if_eq, ◌≢◌,
}
use foia_search_mcp.Cache.{
  CachePolicy, respect_source_headers, do_not_persist, CacheEntry, CacheRow, put, get,
  is_do_not_persist,
}
use foia_search_mcp.Cache.ReadBack.{get-put}
use foia_search_mcp.Download.Types.{
  AssetDownloadRequest, DownloadedAsset, DownloadEnv, PendingCachePersist, DownloadCacheStatus,
  fetched, revalidated, not_persisted,
}
use foia_search_mcp.Download.Persist.{load_cached_entry, status_of}
use foia_search_mcp.Download.Http.{cache_key, download}
use foia_search_mcp.Download.Stored.{
  Describes, IsCached, IsDownloaded, IsOutcome, cached_for, rows_after, download-IsOutcome,
}

module _ {Url : Type 0} (env : DownloadEnv Url) (max_bytes : ℕ) where
  abbrev Answer : Type 0
  Answer = String → String → Option CacheEntry

  -- What the cache answers after a download, by its status.
  abbrev pub CacheAfter : String → DownloadedAsset → DownloadCacheStatus → Answer → Answer → Type 0
  CacheAfter key d revalidated before after = (k later : String) → after k later ≡ before k later
  CacheAfter key d not_persisted before after =
      (k later : String) → after k later ≡ (if str_eq key k then none else before k later)
  CacheAfter key d fetched before after =
      (e : CacheEntry) × Describes env max_bytes e d
      × ((k later : String) → after k later ≡ (if str_eq key k then some e else before k later))

  put_lem :
      (e : CacheEntry) (key : String) (d : DownloadedAsset) (policy : CachePolicy)
      (rows : List CacheRow)
      → e.cache_key ≡ key
      → e.cache_policy ≡ policy
      → Describes env max_bytes e d
      → CacheAfter key d
          (status_of env policy)
          (λ k later. get k later rows)
          (λ k later. get k later (put e rows))
  put_lem e key d respect_source_headers rows named kept about =
      (e, about, λ k later. get-put e k later rows ∙ rw (named, kept, about.1) refl)
  put_lem e key d do_not_persist rows named kept about =
      λ k later. get-put e k later rows ∙ rw (named, kept) refl

  pending_lem :
      (request : AssetDownloadRequest) (now : String) (rows after : List CacheRow)
      (p : PendingCachePersist)
      → IsDownloaded env max_bytes request (cached_for env max_bytes request now rows) p
      → after ≡ rows_after env max_bytes p.cache_entry rows
      → CacheAfter
          (cache_key env request.source request.asset.asset_url)
          p.downloaded
          p.downloaded.cache_status
          (λ k later. get k later rows)
          (λ k later. get k later after)
  pending_lem request now rows after p
        (initial, _, response, final, _, inl (_, (nothing, status, _))) same =
      rw status (λ k later. rw same (rw nothing refl))
  pending_lem request now rows after p
        (
          initial,
          _,
          response,
          final,
          _,
          inr (_, (body, _, stored, _, _, (e, entry, about, key, _, status))),
        )
        same =
      rw (status, same, entry)
        (put_lem e (cache_key env request.source request.asset.asset_url) p.downloaded
          p.downloaded.cache_policy rows (about.0 ∙ key) about.2 about)

  -- After a download that succeeds the cache answers, under the key of the source and the URL: what
  -- it answered before, if the body was revalidated; nothing, if the response is not to be stored;
  -- and otherwise an entry that describes the download, at any later time. Under every other key
  -- it answers what it did before.
  pub download-CacheAfter :
      (request : AssetDownloadRequest) (now : String) (rows after : List CacheRow)
      (d : DownloadedAsset)
      → download env max_bytes request now rows ≡ (after, ok d)
      → CacheAfter
          (cache_key env request.source request.asset.asset_url)
          d
          d.cache_status
          (λ k later. get k later rows)
          (λ k later. get k later after)
  download-CacheAfter request now rows after d h =
      let (p, same, downloaded, kept) =
        rw h at (download-IsOutcome env max_bytes request now rows) in
      rw (sym same) (pending_lem request now rows after p downloaded kept)

status_of-ne-revalidated :
    {Url : Type 0} (env : DownloadEnv Url) (policy : CachePolicy)
    → status_of env policy ≢ revalidated
status_of-ne-revalidated env respect_source_headers h = cc
status_of-ne-revalidated env do_not_persist h = cc

loaded_lem :
    (request : AssetDownloadRequest) (key now : String) (rows : List CacheRow) (e : CacheEntry)
    → load_cached_entry request key now rows ≡ some e
    → get key now rows ≡ some e
unfolding load_cached_entry
loaded_lem request key now rows e h =
    elim (if_eq (not (is_do_not_persist request.cache_policy) && not request.force) _ _ _ h) [
      | inl (_, found) ↦ found
      | inr (_, nothing) ↦ absurd (ground arith)
    ]

same_body :
    (e e' : CacheEntry) (d d' : DownloadedAsset)
    → Path (Option CacheEntry) (some e) (some e')
    → e.body_sha256 ≡ some d.sha256
    → e.body_path ≡ some d.path
    → e'.body_sha256 ≡ some d'.sha256
    → e'.body_path ≡ some d'.path
    → (d'.sha256 ≡ d.sha256) × (d'.path ≡ d.path)
same_body e e' d d' same sha path sha' path' = (ground arith, ground arith)

module _ {Url : Type 0} (env next : DownloadEnv Url) (max_bytes : ℕ) where
  revalidated_entry :
      (request : AssetDownloadRequest) (now : String) (rows after : List CacheRow)
      (d : DownloadedAsset)
      → download next max_bytes request now rows ≡ (after, ok d)
      → d.cache_status ≡ revalidated
      → (after ≡ rows) × IsCached next max_bytes (cached_for next max_bytes request now rows) d
  revalidated_entry request now rows after d h status =
      go (rw h at (download-IsOutcome next max_bytes request now rows))
    where
      go :
          IsOutcome next max_bytes request now rows (after, ok d)
          → (after ≡ rows) × IsCached next max_bytes (cached_for next max_bytes request now rows) d
      go (p, same, (_, _, _, _, _, inl (_, (nothing, _, cached))), kept) =
          (kept ∙ rw nothing refl, rw same at cached)
      go (p, same, (_, _, _, _, _, inr (_, (_, _, _, _, _, (_, _, _, _, _, other)))), kept) =
          absurd (
            status_of-ne-revalidated next p.downloaded.cache_policy
              (sym other ∙ (ap (λ (x : DownloadedAsset). x.cache_status) same ∙ status)))

  -- A download that fetches a body, and any later one under the same key that the server answers by
  -- 304, over the table that the first left and whatever else the world has become: the second
  -- returns the digest and the path of the body that the first stored, and leaves the table alone.
  pub revalidated-eq-fetched :
      (first second : AssetDownloadRequest) (now later : String)
      (rows between after : List CacheRow) (d d' : DownloadedAsset)
      → download env max_bytes first now rows ≡ (between, ok d)
      → d.cache_status ≡ fetched
      → cache_key env first.source first.asset.asset_url
        ≡ cache_key next second.source second.asset.asset_url
      → download next max_bytes second later between ≡ (after, ok d')
      → d'.cache_status ≡ revalidated
      → (d'.sha256 ≡ d.sha256) × (d'.path ≡ d.path) × (after ≡ between)
  revalidated-eq-fetched first second now later rows between after d d' h fresh same_key h' again =
      let (e, (_, _, _, sha, path, _, _, _), answer) =
        rw fresh at (download-CacheAfter env max_bytes first now rows between d h) in
      let (same, (e', loaded, sha', path', _)) =
        revalidated_entry second later between after d' h' again in
      let found = loaded_lem second _ later between e' loaded in
      let entry : some e ≡ some e' =
        sym (answer _ later ∙ rw (eq_refl _) refl) ∙ (rw (sym same_key) at found) in
      let bodies = same_body e e' d d' entry sha path sha' path' in (bodies.0, bodies.1, same)
