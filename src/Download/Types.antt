-- ===== src/Download/Types.antt =====
-- Requests, results, errors, and the outside world of a download.
use foia_search_mcp.Prelude.{ℕ, String, Bool, Option, List, Chars, Result}
use foia_search_mcp.Cache.{CachePolicy, CacheEntry}
use foia_search_mcp.Redirect.Url.{UrlApi, Response, Request}
use foia_search_mcp.Redirect.Validate.{RedirectPolicy}
use foia_search_mcp.Redirect.Follow.{RedirectFollowError, request, denied, unsafe, too_many}

pub data SourceAssetRole : Type 0 where
  pdf html ocr_text transcript image other : SourceAssetRole

pub record SourceAsset : Type 0 where
  pub asset_url : Chars
  pub label : String
  pub mime_type : Option Chars
  pub role : SourceAssetRole

pub record AssetDownloadRequest : Type 0 where
  pub source : String
  pub asset : SourceAsset
  pub cache_policy : CachePolicy
  pub redirect_policy : RedirectPolicy
  pub force : Bool

pub data DownloadCacheStatus : Type 0 where
  fetched revalidated not_persisted : DownloadCacheStatus

abbrev pub status_text : DownloadCacheStatus → String
status_text fetched = "fetched"
status_text revalidated = "revalidated"
status_text not_persisted = "not_persisted"

pub record DownloadedAsset : Type 0 where
  pub cache_key : String
  pub source : String
  pub asset_url : Chars
  pub final_url : Chars
  pub mime_type : Option Chars
  pub role : SourceAssetRole
  pub status_code : ℕ
  pub sha256 : String
  pub path : String
  pub size_bytes : ℕ
  pub etag : Option Chars
  pub last_modified : Option Chars
  pub cache_policy : CachePolicy
  pub cache_status : DownloadCacheStatus
  pub response_headers_json : Chars
  pub provenance_json : Chars

-- The last four carry the text of a library's error.
pub data DownloadError : Type 0 where
  invalid_url : (url message : Chars) → DownloadError
  http_status : (url : Chars) (status : ℕ) → DownloadError
  redirect_denied : (url : Chars) (location : Option Chars) (message : Chars) → DownloadError
  unsafe_redirect : (url location message : Chars) → DownloadError
  too_many_redirects : (url : Chars) (max_hops : ℕ) → DownloadError
  too_large : (url : Chars) (limit actual : ℕ) → DownloadError
  missing_cached_body : (cache_key : String) → DownloadError
  request_failed : Chars → DownloadError
  file_store : Chars → DownloadError
  serialize : Chars → DownloadError

abbrev pub from_redirect : RedirectFollowError → DownloadError
from_redirect (request e) = request_failed e
from_redirect (denied url location message) = redirect_denied url location message
from_redirect (unsafe url location message) = unsafe_redirect url location message
from_redirect (too_many url max_hops) = too_many_redirects url max_hops

pub data BlobKind : Type 0 where
  pdf_blob html_blob other_blob : BlobKind

abbrev pub blob_kind : SourceAssetRole → BlobKind
blob_kind pdf = pdf_blob
blob_kind html = html_blob
blob_kind _ = other_blob

pub record StoredBlob : Type 0 where
  pub sha256 : String
  pub path : String
  pub size_bytes : ℕ

pub record Provenance : Type 0 where
  pub cache_key : String
  pub source : String
  pub asset_url : Chars
  pub final_url : Chars
  pub method : String
  pub status_code : ℕ
  pub cache_status : String
  pub cache_policy : String
  pub sha256 : String
  pub size_bytes : ℕ
  pub body_path : Option String
  pub etag : Option Chars
  pub last_modified : Option Chars
  pub response_headers_json : Chars

-- What a download asks of the world: the network, the blob store's `put_reader` on the bytes of a
-- body, the length of a file if there is one, `serde_json` on a provenance, and the digest of a
-- text's UTF-8 bytes in hexadecimal.
pub record DownloadEnv (Url : Type 0) : Type 0 where
  pub api : UrlApi Url
  pub send : ℕ → Request Url → Result Chars Response
  pub put_blob : BlobKind → List ℕ → Result Chars StoredBlob
  pub file_len : String → Option ℕ
  pub to_json : Provenance → Result Chars Chars
  pub sha256_hex : Chars → String

-- A pending row of the cache beside the download it is about.
pub record PendingCachePersist : Type 0 where
  pub downloaded : DownloadedAsset
  pub cache_entry : Option CacheEntry
