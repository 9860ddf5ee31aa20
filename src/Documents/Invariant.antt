-- ===== src/Documents/Invariant.antt =====
-- What holds of the tables between any two statements.
use foia_search_mcp.Prelude.{
  ℕ, String, Bool, true, List, [], ◌∷◌, any, find, map, str_eq, eq_iff, eq_refl, All, All-append,
  All-impl, delete_where-All, find-Memᴰ, any-Memᴰ, any-append, any-update_where, Bool-cases, inl,
  inr, ◌≡◌, refl, sym, ap, arith, Result, ok, err, some, Result-cases,
}
use foia_search_mcp.Store.{StoreError}
use foia_search_mcp.Documents.Tables.{
  UpsertDocument, DocumentRow, PageInput, PageRow, ChunkInput, ChunkRow, AssetInput, Database,
}
use foia_search_mcp.Documents.Write.{
  has_document_key, read_document, get_document_by_key, put_document, checked_document,
  upsert_document, replace_pages_and_chunks, add_asset, page_row, chunk_row, fts_row,
}
use foia_search_mcp.Documents.Columns.{key_of, has_id, KeysOk, write_document-KeysOk}
use foia_search_mcp.Documents.Upsert.{checked-write}
use foia_search_mcp.Documents.Insert.{PagesOk, ChunksOk}
use foia_search_mcp.Documents.Replace.{
  replaced, IsReplacement, replace-IsReplacement, replace-constraints, other_pages, other_chunks,
  other_entries,
}
use foia_search_mcp.Documents.Index.{
  IsIndexed, KeysOwned, IdsOwned, replaced-IsIndexed, put-IsIndexed,
}

-- The constraints of the schema, the foreign keys, and the index.
pub record DatabaseOk (db : Database) : Type 0 where
  pub keys : KeysOk db.documents
  pub pages : PagesOk db.pages
  pub chunks : ChunksOk db.chunks
  pub pages_owned : IdsOwned (λ (r : PageRow). r.document_id) db.documents db.pages
  pub chunks_owned : IdsOwned (λ (r : ChunkRow). r.document_id) db.documents db.chunks
  pub entries_owned : KeysOwned db.documents db.chunk_fts
  pub indexed : All (IsIndexed db.chunks db.chunk_fts) db.documents

any-put :
    (p : DocumentRow → Bool) (d : UpsertDocument) (docs : List DocumentRow)
    → ((r : DocumentRow)
        → has_document_key d.document_key r ≡ true
        → p (record r { document = d }) ≡ p r)
    → any p docs ≡ true
    → any p (put_document d docs) ≡ true
any-put p d docs keeps h = elim (Bool-cases (any (has_document_key d.document_key) docs)) [
  | inl there ↦ rw there (any-update_where p _ _ docs keeps h)
  | inr absent ↦ rw absent (any-append p docs _ h)
]

put-DatabaseOk :
    (d : UpsertDocument) (db : Database) (rows : List DocumentRow)
    → checked_document d db.documents ≡ ok rows
    → DatabaseOk db
    → DatabaseOk (record db { documents = rows })
put-DatabaseOk d db rows h good =
    let (same, keeps) =
      write_document-KeysOk d db.documents rows (checked-write d db.documents rows h) in
    let owned = λ (i : ℕ) (e : any (has_id i) db.documents ≡ true).
      any-put (has_id i) d db.documents (λ r hit. refl) e in
    record {
      keys = keeps good.keys;
      pages = good.pages;
      chunks = good.chunks;
      pages_owned = rw same (All-impl db.pages (λ r e. owned r.document_id e) good.pages_owned);
      chunks_owned = rw same (All-impl db.chunks (λ r e. owned r.document_id e) good.chunks_owned);
      entries_owned = rw same (
          All-impl db.chunk_fts
            (λ f e.
              any-put (has_document_key f.document_key) d db.documents
                (λ r hit.
                  ap (λ k. str_eq k f.document_key)
                    (sym ((eq_iff (key_of r) d.document_key).0 hit)))
                e)
            good.entries_owned);
      indexed = rw same (
          put-IsIndexed d db.documents db.chunks db.chunk_fts good.chunks_owned good.entries_owned
            good.indexed);
    }

All-map :
    {A B : Type 0} (P : B → Type 0) (f : A → B) (t : List A) → ((a : A) → P (f a)) → All P (map f t)
All-map P f [] h = tt
All-map P f (a ∷ t) h = (h a, All-map P f t h)

replaced-DatabaseOk :
    (key : String) (r : DocumentRow) (pages : List PageInput) (chunks : List ChunkInput)
    (db : Database)
    → find (has_document_key key) db.documents ≡ some r
    → PagesOk (replaced r key pages chunks db).pages
    → ChunksOk (replaced r key pages chunks db).chunks
    → DatabaseOk db
    → DatabaseOk (replaced r key pages chunks db)
replaced-DatabaseOk key r pages chunks db found pages_ok chunks_ok good =
    let (there, hit) = find-Memᴰ (has_document_key key) db.documents r found in
    let id_there = any-Memᴰ (has_id r.id) db.documents r (ground arith) there in
    let key_there =
      any-Memᴰ (has_document_key (key_of r)) db.documents r (eq_refl (key_of r)) there in
    record {
      keys = good.keys;
      pages = pages_ok;
      chunks = chunks_ok;
      pages_owned =
          All-append _ (other_pages r.id db.pages) _
            (delete_where-All _ _ db.pages good.pages_owned)
            (All-map _ (page_row r.id) pages (λ p. id_there));
      chunks_owned =
          All-append _ (other_chunks r.id db.chunks) _
            (delete_where-All _ _ db.chunks good.chunks_owned)
            (All-map _ (chunk_row r.id) chunks (λ c. id_there));
      entries_owned =
          All-append _ (other_entries key db.chunk_fts) _
            (delete_where-All _ _ db.chunk_fts good.entries_owned)
            (All-map _ (fts_row (read_document r)) chunks (λ c. key_there));
      indexed =
          replaced-IsIndexed r key chunks db.chunks db.chunk_fts db.documents good.keys found
            good.indexed;
    }

upsert-DatabaseOk :
    (d : UpsertDocument) (db : Database) → DatabaseOk db → DatabaseOk (upsert_document d db).0
unfolding upsert_document
upsert-DatabaseOk d db good = elim (Result-cases (checked_document d db.documents)) [
  | inl (rows, e) ↦ rw (upsert_document, e) (put-DatabaseOk d db rows e good)
  | inr (x, e) ↦ rw (upsert_document, e) good
]

replace-DatabaseOk :
    (key : String) (pages : List PageInput) (chunks : List ChunkInput) (db : Database)
    → DatabaseOk db
    → DatabaseOk (replace_pages_and_chunks key pages chunks db).0
replace-DatabaseOk key pages chunks db good =
    go (replace_pages_and_chunks key pages chunks db) (replace-IsReplacement key pages chunks db)
      (replace-constraints key pages chunks db good.pages good.chunks)
  where
    go :
        (result : Database × Result StoreError (Unit {0}))
        → IsReplacement key pages chunks db result
        → PagesOk result.0.pages × ChunksOk result.0.chunks
        → DatabaseOk result.0
    go (after, err e) same kept = rw same good
    go (after, ok u) (r, found, same) kept = rw same (
        replaced-DatabaseOk key r pages chunks db found (rw same at kept.0) (rw same at kept.1)
          good)

asset-DatabaseOk : (a : AssetInput) (db : Database) → DatabaseOk db → DatabaseOk (add_asset a db).0
unfolding add_asset
asset-DatabaseOk a db good = elim (Result-cases (get_document_by_key a.document_key db.documents)) [
  | inl (doc, e) ↦
      rw (add_asset, e)
        (record {
          keys = good.keys;
          pages = good.pages;
          chunks = good.chunks;
          pages_owned = good.pages_owned;
          chunks_owned = good.chunks_owned;
          entries_owned = good.entries_owned;
          indexed = good.indexed;
        })
  | inr (x, e) ↦ rw (add_asset, e) good
]

-- The statements of the store that write, as commands that anybody may issue at any time.
pub data Statement : Type 0 where
  upsert : UpsertDocument → Statement
  replace : String → List PageInput → List ChunkInput → Statement
  attach : AssetInput → Statement

abbrev pub execute : Statement → Database → Database
execute (upsert d) db = (upsert_document d db).0
execute (replace key pages chunks) db = (replace_pages_and_chunks key pages chunks db).0
execute (attach a) db = (add_asset a db).0

abbrev pub execute_all : List Statement → Database → Database
execute_all [] db = db
execute_all (s ∷ rest) db = execute_all rest (execute s db)

abbrev pub empty_database : Database
empty_database = record { documents = []; pages = []; chunks = []; chunk_fts = []; assets = [] }

pub execute-DatabaseOk : (s : Statement) (db : Database) → DatabaseOk db → DatabaseOk (execute s db)
execute-DatabaseOk (upsert d) db good = upsert-DatabaseOk d db good
execute-DatabaseOk (replace key pages chunks) db good = replace-DatabaseOk key pages chunks db good
execute-DatabaseOk (attach a) db good = asset-DatabaseOk a db good

pub execute_all-DatabaseOk :
    (statements : List Statement) (db : Database)
    → DatabaseOk db
    → DatabaseOk (execute_all statements db)
execute_all-DatabaseOk [] db good = good
execute_all-DatabaseOk (s ∷ rest) db good =
    execute_all-DatabaseOk rest (execute s db) (execute-DatabaseOk s db good)

-- Whatever statements are executed, in whatever order and whether they succeed or fail, from the
-- empty database on: ids, keys, public ids and pairs of source and id in it are unique; pages are
-- numbered from 1 and once in a document, chunks cover ranges in order under ids that differ; pages,
-- chunks and entries of the index belong to documents; and for every document the index has, under
-- its key, an entry for each of its chunks with the chunk's id, text and range, in order, and no other.
pub reachable-DatabaseOk :
    (statements : List Statement) → DatabaseOk (execute_all statements empty_database)
reachable-DatabaseOk statements = execute_all-DatabaseOk statements empty_database (record {
  keys = record { ids = tt; keys = tt; public_ids = tt; source_ids = tt };
  pages = (tt, tt);
  chunks = (tt, tt);
  pages_owned = tt;
  chunks_owned = tt;
  entries_owned = tt;
  indexed = tt;
})
