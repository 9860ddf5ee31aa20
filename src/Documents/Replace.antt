-- ===== src/Documents/Replace.antt =====
-- What `replace_pages_and_chunks` leaves in the tables.
use foia_search_mcp.Prelude.{
  [], ◌∷◌, delete_where-All, Bool, Bool-cases, ℕ, String, some, List, ◌++◌, ◌==◌, map, find, str_eq,
  delete_where, Option-cases, inl, inr, ◌≡◌, refl, sym, ap, ◌∙◌, arith, Result, ok, err, ◌>>=◌,
  ok_injective, bind_ok,
}
use foia_search_mcp.Store.{StoreError}
use foia_search_mcp.Documents.Tables.{
  DocumentRow, PageInput, PageRow, ChunkInput, ChunkRow, FtsRow, Database, StoredDocument,
}
use foia_search_mcp.Documents.Write.{
  has_document_key, read_document, get_document_by_key, page_row, chunk_row, fts_row, insert_pages,
  insert_chunks, replace_in, commit, replace_pages_and_chunks,
}
use foia_search_mcp.Documents.Sorted.{OnePerNumber}
use foia_search_mcp.Documents.Insert.{
  PagesOk, ChunksOk, OnePerChunk, insert_pages-ok, insert_chunks-ok,
}

abbrev pub other_pages : ℕ → List PageRow → List PageRow
other_pages id rows = delete_where (λ (r : PageRow). r.document_id == id) rows

abbrev pub other_chunks : ℕ → List ChunkRow → List ChunkRow
other_chunks id rows = delete_where (λ (r : ChunkRow). r.document_id == id) rows

abbrev pub other_entries : String → List FtsRow → List FtsRow
other_entries key rows = delete_where (λ (r : FtsRow). str_eq r.document_key key) rows

-- The tables with the pages and the chunks of one document replaced.
abbrev pub replaced : DocumentRow → String → List PageInput → List ChunkInput → Database → Database
replaced r key pages chunks db = record db {
  pages = other_pages r.id db.pages ++ map (page_row r.id) pages;
  chunks = other_chunks r.id db.chunks ++ map (chunk_row r.id) chunks;
  chunk_fts = other_entries key db.chunk_fts ++ map (fts_row (read_document r)) chunks;
}

abbrev pub IsReplacement :
    String
    → List PageInput
    → List ChunkInput
    → Database
    → Database × Result StoreError (Unit {0})
    → Type 0
IsReplacement key pages chunks db (after, err e) = after ≡ db
IsReplacement key pages chunks db (after, ok u) =
    (r : DocumentRow) × (find (has_document_key key) db.documents ≡ some r)
    × (after ≡ replaced r key pages chunks db)

pub get_document-ok :
    (key : String) (rows : List DocumentRow) (doc : StoredDocument)
    → get_document_by_key key rows ≡ ok doc
    → (r : DocumentRow) × (find (has_document_key key) rows ≡ some r) × (doc ≡ read_document r)
unfolding get_document_by_key
get_document-ok key rows doc h = elim (Option-cases (find (has_document_key key) rows)) [
  | inl gone ↦ absurd (ground arith)
  | inr (r, found) ↦ (r, found, ground arith)
]

replace_in-ok :
    (doc : StoredDocument) (key : String) (pages : List PageInput) (chunks : List ChunkInput)
    (db after : Database)
    → replace_in doc key pages chunks db ≡ ok after
    → after ≡ record db {
      pages = other_pages doc.id db.pages ++ map (page_row doc.id) pages;
      chunks = other_chunks doc.id db.chunks ++ map (chunk_row doc.id) chunks;
      chunk_fts = other_entries key db.chunk_fts ++ map (fts_row doc) chunks;
    }
unfolding replace_in
replace_in-ok doc key pages chunks db after h =
    let (page_rows, h0, h1) =
      bind_ok (insert_pages doc.id pages (other_pages doc.id db.pages)) _ after h in
    let (chunk_rows, h2, h3) =
      bind_ok
        (insert_chunks doc chunks (other_chunks doc.id db.chunks) (other_entries key db.chunk_fts))
        _ after h1 in
    let stored = insert_pages-ok doc.id pages _ page_rows h0 in
    let (chunked, indexed, _) = insert_chunks-ok doc chunks _ _ chunk_rows h2 in
    sym (ok_injective h3)
    ∙ (λ i. record db { pages = stored.0 i; chunks = chunked i; chunk_fts = indexed i })

OnePerNumber-delete :
    (p : PageRow → Bool) (rows : List PageRow)
    → OnePerNumber rows
    → OnePerNumber (delete_where p rows)
OnePerNumber-delete p [] h = tt
OnePerNumber-delete p (r ∷ rows) h = elim (Bool-cases (p r)) [
  | inl gone ↦ rw gone (OnePerNumber-delete p rows h.1)
  | inr left_ ↦ rw left_ (delete_where-All _ p rows h.0, OnePerNumber-delete p rows h.1)
]

OnePerChunk-delete :
    (p : ChunkRow → Bool) (rows : List ChunkRow)
    → OnePerChunk rows
    → OnePerChunk (delete_where p rows)
OnePerChunk-delete p [] h = tt
OnePerChunk-delete p (r ∷ rows) h = elim (Bool-cases (p r)) [
  | inl gone ↦ rw gone (OnePerChunk-delete p rows h.1)
  | inr left_ ↦ rw left_ (delete_where-All _ p rows h.0, OnePerChunk-delete p rows h.1)
]

replace_in-constraints :
    (doc : StoredDocument) (key : String) (pages : List PageInput) (chunks : List ChunkInput)
    (db after : Database)
    → replace_in doc key pages chunks db ≡ ok after
    → (PagesOk db.pages → PagesOk after.pages) × (ChunksOk db.chunks → ChunksOk after.chunks)
unfolding replace_in
replace_in-constraints doc key pages chunks db after h =
    let (page_rows, h0, h1) =
      bind_ok (insert_pages doc.id pages (other_pages doc.id db.pages)) _ after h in
    let (chunk_rows, h2, h3) =
      bind_ok
        (insert_chunks doc chunks (other_chunks doc.id db.chunks) (other_entries key db.chunk_fts))
        _ after h1 in
    let stored = (insert_pages-ok doc.id pages _ page_rows h0).1 in
    let chunked = (insert_chunks-ok doc chunks _ _ chunk_rows h2).2 in
    rw (sym (ok_injective h3)) (
      (λ good.
          stored (delete_where-All _ _ db.pages good.0, OnePerNumber-delete _ db.pages good.1)),
      λ good.
          chunked (delete_where-All _ _ db.chunks good.0, OnePerChunk-delete _ db.chunks good.1),
    )

-- A replacement that fails leaves every table as it was. One that succeeds leaves the rows of other
-- documents, the documents and the assets as they were; the document under the key has exactly the
-- given pages and chunks, in order, and the index has an entry for each of the chunks under the
-- document's key, source and title, and no other under this key.
pub replace-IsReplacement :
    (key : String) (pages : List PageInput) (chunks : List ChunkInput) (db : Database)
    → IsReplacement key pages chunks db (replace_pages_and_chunks key pages chunks db)
unfolding replace_pages_and_chunks
replace-IsReplacement key pages chunks db =
    go (get_document_by_key key db.documents >>= λ doc. replace_in doc key pages chunks db) refl
  where
    go :
        (result : Result StoreError Database)
        → (get_document_by_key key db.documents >>= λ doc. replace_in doc key pages chunks db)
          ≡ result
        → IsReplacement key pages chunks db (commit db result)
    go (err e) h = refl
    go (ok after) h =
        let (doc, h0, h1) = bind_ok (get_document_by_key key db.documents) _ after h in
        let (r, found, same) = get_document-ok key db.documents doc h0 in
        (
          r,
          found,
          replace_in-ok doc key pages chunks db after h1
              ∙ ap
                  (λ (d : StoredDocument). record db {
                    pages = other_pages d.id db.pages ++ map (page_row d.id) pages;
                    chunks = other_chunks d.id db.chunks ++ map (chunk_row d.id) chunks;
                    chunk_fts = other_entries key db.chunk_fts ++ map (fts_row d) chunks;
                  })
                  same,
        )

-- A replacement keeps the constraints of `pages` and `chunks`.
pub replace-constraints :
    (key : String) (pages : List PageInput) (chunks : List ChunkInput) (db : Database)
    → PagesOk db.pages
    → ChunksOk db.chunks
    → PagesOk (replace_pages_and_chunks key pages chunks db).0.pages
      × ChunksOk (replace_pages_and_chunks key pages chunks db).0.chunks
unfolding replace_pages_and_chunks
replace-constraints key pages chunks db pages_ok chunks_ok =
    go (get_document_by_key key db.documents >>= λ doc. replace_in doc key pages chunks db) refl
  where
    go :
        (result : Result StoreError Database)
        → (get_document_by_key key db.documents >>= λ doc. replace_in doc key pages chunks db)
          ≡ result
        → PagesOk (commit db result).0.pages × ChunksOk (commit db result).0.chunks
    go (err e) h = (pages_ok, chunks_ok)
    go (ok after) h =
        let (doc, h0, h1) = bind_ok (get_document_by_key key db.documents) _ after h in
        let keeps = replace_in-constraints doc key pages chunks db after h1 in
        (keeps.0 pages_ok, keeps.1 chunks_ok)
