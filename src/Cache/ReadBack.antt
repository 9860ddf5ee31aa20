-- ===== src/Cache/ReadBack.antt =====
-- What the cache answers once an entry is put.
use foia_search_mcp.Prelude.{
  String, Bool, true, false, not, ◌&&◌, Option, none, some, List, [], ◌∷◌, ◌++◌, if◌then◌else◌, any,
  find, str_eq, update_where, delete_where, ◌≡◌, refl, ap, ◌∙◌, arith, Bool-cases, inl, inr, eq_iff,
}
use foia_search_mcp.Cache.{
  CachePolicy, respect_source_headers, do_not_persist, CacheEntry, CacheRow, policy_text,
  policy_from_text, is_live, row_of, put, is_do_not_persist, is_fresh, readable, read_row,
  read_found, get,
}

policy_round_trip : (p : CachePolicy) → policy_from_text (policy_text p) ≡ p
unfolding policy_text policy_from_text
policy_round_trip respect_source_headers = refl
policy_round_trip do_not_persist = refl

read_row-row_of : (e : CacheEntry) → read_row (row_of e) ≡ e
unfolding policy_text policy_from_text
read_row-row_of e = ap (λ p. record e { cache_policy = p }) (policy_round_trip e.cache_policy)

-- Queries of a table by a text column, among the rows that are live.
module _ {A : Type 0} (key : A → String) (live : A → Bool) where
  abbrev under : String → A → Bool
  under k r = str_eq (key r) k

  abbrev query : String → List A → Option A
  query k rows = find (λ r. under k r && live r) rows

  query-delete :
      (k l : String) (rows : List A)
      → query k (delete_where (under l) rows) ≡ (if str_eq l k then none else query k rows)
  query-delete k l [] = ground arith
  query-delete k l (r ∷ rows) =
      ground (arith, query-delete k l rows, eq_iff (key r) l, eq_iff (key r) k, eq_iff l k)

  module _ (s : A) (k : String) where
    abbrev only_live : Option A
    only_live = if live s then some s else none

    query-update :
        (rows : List A)
        → query k (update_where (under (key s)) (λ _. s) rows) ≡ (
            if str_eq (key s) k
            then (if any (under (key s)) rows then only_live else none)
            else query k rows)
    query-update [] = ground arith
    query-update (r ∷ rows) =
        ground
          (arith, query-update rows, eq_iff (key r) (key s), eq_iff (key r) k, eq_iff (key s) k)

    query-append :
        (rows : List A)
        → any (under (key s)) rows ≡ false
        → query k (rows ++ s ∷ []) ≡ (if str_eq (key s) k then only_live else query k rows)
    query-append [] absent = ground arith
    query-append (r ∷ rows) absent =
        ground
          (arith, query-append rows, eq_iff (key r) (key s), eq_iff (key r) k, eq_iff (key s) k)

    query-upsert :
        (rows : List A)
        → query k (
            if any (under (key s)) rows
            then update_where (under (key s)) (λ _. s) rows
            else rows ++ s ∷ [])
          ≡ (if str_eq (key s) k then only_live else query k rows)
    query-upsert rows = elim (Bool-cases (any (under (key s)) rows)) [
      | inl there ↦ rw there (query-update rows ∙ rw there refl)
      | inr absent ↦ rw absent (query-append rows absent)
    ]

storable :
    (p : CachePolicy)
    → is_do_not_persist p ≡ false
    → str_eq (policy_text p) "do_not_persist" ≡ false
unfolding policy_text
storable respect_source_headers h = refl
storable do_not_persist h = cc

read_none :
    (b : Bool) (q : Option CacheRow)
    → read_found (if b then none else q) ≡ (if b then none else read_found q)
unfolding policy_from_text
read_none true q = refl
read_none false q = refl

read_one :
    (b f : Bool) (e : CacheEntry) (q : Option CacheRow)
    → read_found (if b then (if f then some (row_of e) else none) else q)
      ≡ (if b then (if f then some e else none) else read_found q)
unfolding policy_text policy_from_text
read_one true true e q = ap some (read_row-row_of e)
read_one true false e q = refl
read_one false f e q = refl

-- What the cache answers under a key once an entry is put.
abbrev pub after_put : CacheEntry → String → String → Option CacheEntry → Option CacheEntry
after_put e k now before =
    if str_eq e.cache_key k
    then (if not (is_do_not_persist e.cache_policy) && is_fresh e.expires_at now
        then some e
        else none)
    else before

-- After an entry is put, the cache answers under its key the entry itself, if its policy lets it be
-- stored and it does not expire before the query, and nothing otherwise; under every other key it
-- answers what it did before.
pub get-put :
    (e : CacheEntry) (k now : String) (rows : List CacheRow)
    → get k now (put e rows) ≡ after_put e k now (get k now rows)
unfolding get put policy_text policy_from_text
get-put e k now rows = elim (Bool-cases (is_do_not_persist e.cache_policy)) [
  | inl dropped ↦ rw dropped (
      ap read_found (query-delete (λ r. r.entry.cache_key) (is_live now) k e.cache_key rows)
      ∙ read_none (str_eq e.cache_key k) (find (readable k now) rows))
  | inr kept ↦ rw kept (
      ap read_found (query-upsert (λ r. r.entry.cache_key) (is_live now) (row_of e) k rows)
      ∙ rw (storable e.cache_policy kept) (
          read_one (str_eq e.cache_key k) (is_fresh e.expires_at now) e
            (find (readable k now) rows)))
]
