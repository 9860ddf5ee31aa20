-- ===== src/Cache.antt =====
-- src/store/cache.rs: the HTTP cache, a table of entries under their keys. `fetched_at`, which
-- nothing reads, has no column here; the clock of SQLite is the argument `now`.
pub mod ReadBack
mod Examples
use foia_search_mcp.Prelude.{
  ℕ, String, Bool, true, false, not, ◌&&◌, Option, none, some, List, [], ◌∷◌, ◌++◌, if◌then◌else◌,
  any, find, str_eq, str_lt, update_where, delete_where, Chars, ◌≡◌, refl, arith, find-update_where,
  ap, ◌∙◌, Bool-cases, Option-cases, inl, inr, eq_refl, eq_iff, sym, ◌≢◌,
}

pub data CachePolicy : Type 0 where
  respect_source_headers : CachePolicy
  do_not_persist : CachePolicy

unfoldable pub policy_text : CachePolicy → String
policy_text respect_source_headers = "respect_source_headers"
policy_text do_not_persist = "do_not_persist"

unfoldable pub policy_from_text : String → CachePolicy
policy_from_text value =
    if str_eq value "do_not_persist" then do_not_persist else respect_source_headers

pub record CacheEntry : Type 0 where
  pub cache_key : String
  pub source : String
  pub url : Chars
  pub method : String
  pub status_code : Option ℕ
  pub response_headers_json : Chars
  pub body_sha256 : Option String
  pub body_path : Option String
  pub etag : Option Chars
  pub last_modified : Option Chars
  pub expires_at : Option String
  pub cache_policy : CachePolicy
  pub provenance_json : Chars

-- A row of `cache_entries`: the policy is its text.
pub record CacheRow : Type 0 where
  pub entry : CacheEntry
  pub policy : String

abbrev pub is_do_not_persist : CachePolicy → Bool
is_do_not_persist respect_source_headers = false
is_do_not_persist do_not_persist = true

abbrev pub has_key : String → CacheRow → Bool
has_key k row = str_eq row.entry.cache_key k

abbrev pub row_of : CacheEntry → CacheRow
unfolding policy_text
row_of entry = record { entry = entry; policy = policy_text entry.cache_policy }

-- INSERT … ON CONFLICT(cache_key) DO UPDATE: the key stays, the other columns are the new ones.
abbrev pub upsert : CacheEntry → List CacheRow → List CacheRow
unfolding policy_text
upsert entry rows =
    if any (has_key entry.cache_key) rows
    then update_where (has_key entry.cache_key) (λ _. row_of entry) rows
    else rows ++ row_of entry ∷ []

unfoldable pub put : CacheEntry → List CacheRow → List CacheRow
unfolding policy_text
put entry rows =
    if is_do_not_persist entry.cache_policy
    then delete_where (has_key entry.cache_key) rows
    else upsert entry rows

abbrev pub is_fresh : Option String → String → Bool
is_fresh none now = true
is_fresh (some t) now = str_lt now t

-- The conditions of the query.
abbrev pub is_live : String → CacheRow → Bool
is_live now row = not (str_eq row.policy "do_not_persist") && is_fresh row.entry.expires_at now

abbrev pub readable : String → String → CacheRow → Bool
readable k now row = has_key k row && is_live now row

abbrev pub read_row : CacheRow → CacheEntry
unfolding policy_from_text
read_row row = record {
  cache_key = row.entry.cache_key;
  source = row.entry.source;
  url = row.entry.url;
  method = row.entry.method;
  status_code = row.entry.status_code;
  response_headers_json = row.entry.response_headers_json;
  body_sha256 = row.entry.body_sha256;
  body_path = row.entry.body_path;
  etag = row.entry.etag;
  last_modified = row.entry.last_modified;
  expires_at = row.entry.expires_at;
  cache_policy = policy_from_text row.policy;
  provenance_json = row.entry.provenance_json;
}

abbrev pub read_found : Option CacheRow → Option CacheEntry
unfolding policy_from_text
read_found none = none
read_found (some row) = some (read_row row)

unfoldable pub get : String → String → List CacheRow → Option CacheEntry
unfolding policy_from_text
get k now rows = read_found (find (readable k now) rows)
