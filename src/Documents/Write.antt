-- ===== src/Documents/Write.antt =====
-- What is written: `upsert_document`, `replace_pages_and_chunks` and `add_asset`. A violated
-- constraint of the schema is SQLite's error, and leaves the tables as they were.
use foia_search_mcp.Prelude.{
  ℕ, suc, max, String, Bool, not, ◌&&◌, ◌||◌, Option, none, some, List, [], ◌∷◌, ◌++◌, ◌==◌, ltb,
  if◌then◌else◌, any, find, str_eq, chars_eq, update_where, delete_where, Result, ok, err, ◌>>=◌,
}
use foia_search_mcp.Store.{StoreError, sqlite, invalid_document_key, missing_document}
use foia_search_mcp.Documents.Tables.{
  UpsertDocument, DocumentRow, PageInput, PageRow, ChunkInput, ChunkRow, FtsRow, AssetInput,
  AssetRow, Database, StoredDocument, role_text, source_text, ensure_json_object, ensure_json_array,
}

abbrev pub has_document_key : String → DocumentRow → Bool
has_document_key k r = str_eq r.document.document_key k

abbrev pub read_document : DocumentRow → StoredDocument
read_document r = record {
  id = r.id;
  public_id = r.document.public_id;
  document_key = r.document.document_key;
  source = r.document.source;
  source_id = r.document.source_id;
  title = r.document.title;
}

unfoldable pub get_document_by_key : String → List DocumentRow → Result StoreError StoredDocument
get_document_by_key k rows = elim (find (has_document_key k) rows) [
  | none ↦ err (missing_document k)
  | some r ↦ ok (read_document r)
]

-- The AUTOINCREMENT id; no statement deletes a document.
abbrev pub next_document_id : List DocumentRow → ℕ
next_document_id [] = 1
next_document_id (r ∷ rows) = max (suc r.id) (next_document_id rows)

-- UNIQUE(public_id) and the unique index on (source, source_id), on the rows with other keys.
abbrev pub same_public_id : UpsertDocument → DocumentRow → Bool
same_public_id d r =
    not (has_document_key d.document_key r) && str_eq r.document.public_id d.public_id

abbrev pub same_source_id : UpsertDocument → DocumentRow → Bool
same_source_id d r =
    not (has_document_key d.document_key r)
    && (str_eq r.document.source d.source && str_eq r.document.source_id d.source_id)

-- INSERT … ON CONFLICT(document_key) DO UPDATE.
abbrev pub put_document : UpsertDocument → List DocumentRow → List DocumentRow
put_document d rows =
    if any (has_document_key d.document_key) rows
    then update_where (has_document_key d.document_key) (λ r. record r { document = d }) rows
    else rows ++ record { id = next_document_id rows; document = d } ∷ []

unfoldable pub write_document :
    UpsertDocument → List DocumentRow → Result StoreError (List DocumentRow)
write_document d rows =
    if str_eq d.document_key ""
    then err (sqlite "CHECK constraint failed: length(document_key) > 0")
    else if any (same_public_id d) rows
    then err (sqlite "UNIQUE constraint failed: documents.public_id")
    else if any (same_source_id d) rows
    then err (sqlite "UNIQUE constraint failed: documents.source, documents.source_id")
    else ok (put_document d rows)

-- The guards of `upsert_document`, and its statement.
unfoldable pub checked_document :
    UpsertDocument → List DocumentRow → Result StoreError (List DocumentRow)
unfolding ensure_json_object write_document
checked_document d rows = ensure_json_object "metadata_json" d.metadata_json >>= λ _.
    if str_eq d.public_id d.document_key || str_eq d.source_id d.document_key
    then err (invalid_document_key d.document_key)
    else write_document d rows

unfoldable pub upsert_document :
    UpsertDocument → Database → Database × Result StoreError StoredDocument
unfolding checked_document get_document_by_key
upsert_document d db = elim (checked_document d db.documents) [
  | err e ↦ (db, err e)
  | ok rows ↦ (record db { documents = rows }, get_document_by_key d.document_key rows)
]

abbrev pub page_row : ℕ → PageInput → PageRow
page_row id p = record {
  document_id = id;
  page_number = p.page_number;
  text = p.text;
  text_source = source_text p.text_source;
  quality_score = p.quality_score;
  warnings = p.warnings_json;
}

abbrev pub is_page : ℕ → ℕ → PageRow → Bool
is_page id n r = r.document_id == id && r.page_number == n

unfoldable pub insert_page : ℕ → PageInput → List PageRow → Result StoreError (List PageRow)
insert_page id p rows =
    if p.page_number == 0
    then err (sqlite "CHECK constraint failed: page_number > 0")
    else if any (is_page id p.page_number) rows
    then err (sqlite "UNIQUE constraint failed: pages.document_id, pages.page_number")
    else ok (rows ++ page_row id p ∷ [])

unfoldable pub insert_pages : ℕ → List PageInput → List PageRow → Result StoreError (List PageRow)
insert_pages id [] rows = ok rows
insert_pages id (p ∷ ps) rows = ensure_json_array "warnings_json" p.warnings_json >>= λ _.
    insert_page id p rows >>= λ rows'. insert_pages id ps rows'

abbrev pub chunk_row : ℕ → ChunkInput → ChunkRow
chunk_row id c = record {
  document_id = id;
  chunk_id = c.chunk_id;
  page_start = c.page_start;
  page_end = c.page_end;
  text = c.text;
  token_estimate = c.token_estimate;
  metadata_json = c.metadata_json;
}

abbrev pub fts_row : StoredDocument → ChunkInput → FtsRow
fts_row doc c = record {
  document_key = doc.document_key;
  chunk_id = c.chunk_id;
  source = doc.source;
  title = doc.title;
  body = c.text;
  page_start = c.page_start;
  page_end = c.page_end;
}

abbrev pub is_chunk : ℕ → String → ChunkRow → Bool
is_chunk id k r = r.document_id == id && str_eq r.chunk_id k

unfoldable pub insert_chunk : ℕ → ChunkInput → List ChunkRow → Result StoreError (List ChunkRow)
insert_chunk id c rows =
    if c.page_start == 0
    then err (sqlite "CHECK constraint failed: page_start > 0")
    else if ltb c.page_end c.page_start
    then err (sqlite "CHECK constraint failed: page_end >= page_start")
    else if any (is_chunk id c.chunk_id) rows
    then err (sqlite "UNIQUE constraint failed: chunks.document_id, chunks.chunk_id")
    else ok (rows ++ chunk_row id c ∷ [])

-- Each chunk goes into `chunks`, then into the index.
unfoldable pub insert_chunks :
    StoredDocument
    → List ChunkInput
    → List ChunkRow
    → List FtsRow
    → Result StoreError (List ChunkRow × List FtsRow)
insert_chunks doc [] rows fts = ok (rows, fts)
insert_chunks doc (c ∷ cs) rows fts = ensure_json_object "metadata_json" c.metadata_json >>= λ _.
    insert_chunk doc.id c rows >>= λ rows'. insert_chunks doc cs rows' (fts ++ fts_row doc c ∷ [])

-- The body of the transaction, from the document on.
unfoldable pub replace_in :
    StoredDocument
    → String
    → List PageInput
    → List ChunkInput
    → Database
    → Result StoreError Database
replace_in doc key pages chunks db =
    insert_pages doc.id pages (delete_where (λ (r : PageRow). r.document_id == doc.id) db.pages)
    >>= λ page_rows.
        insert_chunks doc chunks
          (delete_where (λ (r : ChunkRow). r.document_id == doc.id) db.chunks)
          (delete_where (λ (r : FtsRow). str_eq r.document_key key) db.chunk_fts)
        >>= λ chunk_rows.
            ok (record db { pages = page_rows; chunks = chunk_rows.0; chunk_fts = chunk_rows.1 })

-- A transaction that fails before its COMMIT is rolled back.
abbrev pub commit : Database → Result StoreError Database → Database × Result StoreError (Unit {0})
commit db (err e) = (db, err e)
commit db (ok db') = (db', ok tt)

unfoldable pub replace_pages_and_chunks :
    String → List PageInput → List ChunkInput → Database → Database × Result StoreError (Unit {0})
unfolding replace_in
replace_pages_and_chunks key pages chunks db =
    commit db (get_document_by_key key db.documents >>= λ doc. replace_in doc key pages chunks db)

abbrev pub is_asset : ℕ → AssetInput → AssetRow → Bool
is_asset id a r =
    r.document_id == id && (chars_eq r.asset_url a.asset_url && str_eq r.role (role_text a.role))

abbrev pub next_asset_id : List AssetRow → ℕ
next_asset_id [] = 1
next_asset_id (r ∷ rows) = max (suc r.id) (next_asset_id rows)

abbrev pub asset_row : ℕ → ℕ → AssetInput → AssetRow
asset_row id document_id a = record {
  id = id;
  document_id = document_id;
  asset_url = a.asset_url;
  mime_type = a.mime_type;
  role = role_text a.role;
  sha256 = a.sha256;
  size_bytes = a.size_bytes;
  etag = a.etag;
  last_modified = a.last_modified;
  fetched_at = a.fetched_at;
  cache_policy = a.cache_policy;
}

-- INSERT … ON CONFLICT(document_id, asset_url, role) DO UPDATE.
abbrev pub put_asset : ℕ → AssetInput → List AssetRow → List AssetRow
put_asset id a rows =
    if any (is_asset id a) rows
    then update_where (is_asset id a) (λ r. asset_row r.id r.document_id a) rows
    else rows ++ asset_row (next_asset_id rows) id a ∷ []

abbrev asset_id : Option AssetRow → Result StoreError ℕ
asset_id none = err (sqlite "Query returned no rows")
asset_id (some r) = ok r.id

unfoldable pub add_asset : AssetInput → Database → Database × Result StoreError ℕ
unfolding get_document_by_key
add_asset a db = elim (get_document_by_key a.document_key db.documents) [
  | err e ↦ (db, err e)
  | ok doc ↦
      let rows = put_asset doc.id a db.assets in
      (record db { assets = rows }, asset_id (find (is_asset doc.id a) rows))
]
