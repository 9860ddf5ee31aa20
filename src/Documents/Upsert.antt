-- ===== src/Documents/Upsert.antt =====
-- What `upsert_document` leaves in the tables.
use foia_search_mcp.Prelude.{
  true, false, ◌||◌, some, List, [], ◌∷◌, ◌++◌, ◌≡◌, refl, ap, arith, Result, ok, err, any, find,
  str_eq, eq_refl, delete_where, Bool-cases, Result-cases, inl, inr, bind_ok, if_eq,
}
use foia_search_mcp.Store.{StoreError}
use foia_search_mcp.Documents.Tables.{
  UpsertDocument, DocumentRow, Database, StoredDocument, ensure_json_object,
}
use foia_search_mcp.Documents.Write.{
  has_document_key, read_document, next_document_id, put_document, get_document_by_key,
  write_document, checked_document, upsert_document,
}
use foia_search_mcp.Documents.Columns.{rewrite, write_document-KeysOk}

-- The guards let through what `write_document` writes.
pub checked-write :
    (d : UpsertDocument) (rows after : List DocumentRow)
    → checked_document d rows ≡ ok after
    → write_document d rows ≡ ok after
unfolding checked_document
checked-write d rows after h =
    let (u, _, h1) = bind_ok (ensure_json_object "metadata_json" d.metadata_json) _ after h in
    elim (if_eq (str_eq d.public_id d.document_key || str_eq d.source_id d.document_key) _ _ _ h1) [
      | inl (_, e) ↦ absurd (ground arith)
      | inr (_, e) ↦ e
    ]

-- The row under the key of a document, and the rows under other keys.
abbrev pub IsPut : UpsertDocument → List DocumentRow → List DocumentRow → DocumentRow → Type 0
IsPut d rows after r =
    (find (has_document_key d.document_key) after ≡ some r)
    × (r.document ≡ d)
    × (delete_where (has_document_key d.document_key) after
        ≡ delete_where (has_document_key d.document_key) rows)

rewrite-IsPut :
    (d : UpsertDocument) (rows : List DocumentRow)
    → any (has_document_key d.document_key) rows ≡ true
    → (r : DocumentRow) × IsPut d rows (rewrite d rows) r
rewrite-IsPut d [] h = cc
rewrite-IsPut d (x ∷ rows) h = elim (Bool-cases (has_document_key d.document_key x)) [
  | inl same ↦
      (record x { document = d }, rw (same, eq_refl d.document_key) (refl, refl, others rows))
  | inr other ↦
      let (r, (found, e, left_)) = rewrite-IsPut d rows (ground arith) in
      (r, rw (other, other) (found, e, ap (λ t. x ∷ t) left_))
]
  where
    others :
        (rest : List DocumentRow)
        → delete_where (has_document_key d.document_key) (rewrite d rest)
          ≡ delete_where (has_document_key d.document_key) rest
    others [] = refl
    others (y ∷ rest) = ground (arith, others rest, eq_refl d.document_key)

new-IsPut :
    (d : UpsertDocument) (rows : List DocumentRow) (x : DocumentRow)
    → x.document ≡ d
    → any (has_document_key d.document_key) rows ≡ false
    → IsPut d rows (rows ++ x ∷ []) x
new-IsPut d [] x e absent =
    let hit : has_document_key d.document_key x ≡ true = rw e (eq_refl d.document_key) in
    rw hit (refl, e, refl)
new-IsPut d (y ∷ rows) x e absent =
    let (found, same, left_) = new-IsPut d rows x e (ground arith) in
    let other : has_document_key d.document_key y ≡ false = ground arith in
    rw other (found, same, ap (λ t. y ∷ t) left_)

pub put_document-IsPut :
    (d : UpsertDocument) (rows : List DocumentRow)
    → (r : DocumentRow) × IsPut d rows (put_document d rows) r
put_document-IsPut d rows = elim (Bool-cases (any (has_document_key d.document_key) rows)) [
  | inl there ↦ rw there (rewrite-IsPut d rows there)
  | inr absent ↦
      rw absent
        ((record { id = next_document_id rows; document = d }, new-IsPut d rows _ refl absent))
]

abbrev pub IsUpsert :
    UpsertDocument → Database → Database × Result StoreError StoredDocument → Type 0
IsUpsert d db (after, err e) = after ≡ db
IsUpsert d db (after, ok stored) =
    (r : DocumentRow) × IsPut d db.documents after.documents r
    × (stored ≡ read_document r)
    × (after ≡ record db { documents = put_document d db.documents })

-- An upsert that fails leaves every table as it was. One that succeeds leaves the document's columns
-- in the row under its key, which is what it returns; the rows under other keys and the other
-- tables stay as they were.
pub upsert_document-IsUpsert :
    (d : UpsertDocument) (db : Database) → IsUpsert d db (upsert_document d db)
unfolding upsert_document get_document_by_key
upsert_document-IsUpsert d db = elim (Result-cases (checked_document d db.documents)) [
  | inr (x, e) ↦ rw (upsert_document, e) refl
  | inl (rows, e) ↦
      let same =
        (write_document-KeysOk d db.documents rows (checked-write d db.documents rows e)).0 in
      let (r, put) = put_document-IsPut d db.documents in
      rw (upsert_document, e, same, get_document_by_key, put.0) (r, put, refl, refl)
]
