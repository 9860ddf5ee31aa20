-- ===== src/Documents/Columns.antt =====
-- The keys of `documents` under an upsert.
use foia_search_mcp.Prelude.{
  ◌≤◌, ℕ, String, Bool, false, List, [], ◌∷◌, ◌==◌, any, str_eq, eq_iff, update_where,
  update_where-All, All, Distinct, Distinct-append, Alters-Distinct, Evolves-update_where,
  Bool-cases, inl, inr, ◌≡◌, ◌≢◌, refl, sym, ap, arith, ok, ok_injective, if_eq,
}
use native.Mathlib.Nat.{le_refl}
use foia_search_mcp.Documents.Tables.{UpsertDocument, DocumentRow}
use foia_search_mcp.Documents.Write.{
  has_document_key, next_document_id, same_public_id, same_source_id, put_document, write_document,
}

abbrev pub key_of : DocumentRow → String
key_of r = r.document.document_key

abbrev pub has_id : ℕ → DocumentRow → Bool
has_id i r = r.id == i

-- `UPDATE … SET` all columns but the id.
abbrev pub rewrite : UpsertDocument → List DocumentRow → List DocumentRow
rewrite d rows =
    update_where (has_document_key d.document_key) (λ r. record r { document = d }) rows

pub no_key :
    (k : String) (rows : List DocumentRow)
    → any (has_document_key k) rows ≡ false
    → All (λ r. key_of r ≢ k) rows
no_key k [] h = tt
no_key k (r ∷ rows) h = ((λ e. ground (arith, eq_iff (key_of r) k)), no_key k rows (ground arith))

rewrite_absent :
    (d : UpsertDocument) (rows : List DocumentRow)
    → All (λ r. key_of r ≢ d.document_key) rows
    → rewrite d rows ≡ rows
rewrite_absent d [] h = refl
rewrite_absent d (r ∷ rows) h =
    ground (arith, eq_iff (key_of r) d.document_key, rewrite_absent d rows h.1)

-- A column that no row with another key shares with the document.
module _ {B : Type 0} (f : UpsertDocument → B) (d : UpsertDocument) where
  abbrev pub IsFree : DocumentRow → Type 0
  IsFree r = has_document_key d.document_key r ≡ false → f r.document ≢ f d

  free-apart :
      (rows : List DocumentRow)
      → All (λ s. key_of s ≢ d.document_key) rows
      → All IsFree rows
      → All (λ s. f s.document ≢ f d) rows
  free-apart [] none_left free = tt
  free-apart (s ∷ rows) none_left free = (
    free.0 (ground (arith, eq_iff (key_of s) d.document_key)),
    free-apart rows none_left.1 free.1,
  )

  rewrite-Distinct :
      (rows : List DocumentRow)
      → Distinct key_of rows
      → All IsFree rows
      → Distinct (λ r. f r.document) rows
      → Distinct (λ r. f r.document) (rewrite d rows)
  rewrite-Distinct [] keys free h = tt
  rewrite-Distinct (r ∷ rows) keys free h = elim (Bool-cases (has_document_key d.document_key r)) [
    | inl same ↦
        let key = (eq_iff (key_of r) d.document_key).0 same in
        let others = rewrite_absent d rows (rw key at keys.0) in
        rw (same, others) (free-apart rows (rw key at keys.0) free.1, h.1)
    | inr other ↦ rw other (
      update_where-All (λ s. f s.document ≢ f r.document) (has_document_key d.document_key)
          (λ s. record s { document = d }) rows (λ s hit ne e. free.0 other (sym e)) h.0,
      rewrite-Distinct rows keys.1 free.1 h.1,
    )
  ]

  pub put-Distinct :
      (rows : List DocumentRow)
      → Distinct key_of rows
      → All IsFree rows
      → Distinct (λ r. f r.document) rows
      → Distinct (λ r. f r.document) (put_document d rows)
  put-Distinct rows keys free h = elim (Bool-cases (any (has_document_key d.document_key) rows)) [
    | inl there ↦ rw there (rewrite-Distinct rows keys free h)
    | inr absent ↦
        rw absent
          (Distinct-append _ rows _ (free-apart rows (no_key d.document_key rows absent) free) h)
  ]

abbrev pub source_pair : UpsertDocument → String × String
source_pair d = (d.source, d.source_id)

-- The keys of the documents, of which no two agree.
pub record KeysOk (rows : List DocumentRow) : Type 0 where
  pub ids : Distinct (λ r. r.id) rows
  pub keys : Distinct key_of rows
  pub public_ids : Distinct (λ r. r.document.public_id) rows
  pub source_ids : Distinct (λ r. source_pair r.document) rows

pub fresh_id :
    (rows : List DocumentRow) (n : ℕ) → next_document_id rows ≤ n → All (λ r. r.id ≢ n) rows
fresh_id [] n h = tt
fresh_id (r ∷ rows) n h = (omega arith, fresh_id rows n (omega arith))

put-ids :
    (d : UpsertDocument) (rows : List DocumentRow)
    → Distinct (λ r. r.id) rows
    → Distinct (λ r. r.id) (put_document d rows)
put-ids d rows h = elim (Bool-cases (any (has_document_key d.document_key) rows)) [
  | inl there ↦ rw there (
      Alters-Distinct (λ r s. s.id ≡ r.id) (λ r. r.id) (λ r s e. e) rows _
        (Evolves-update_where (λ _. ⊥) (λ r s. s.id ≡ r.id) (has_document_key d.document_key)
          (λ r. record r { document = d }) rows (λ r m e. refl))
        h)
  | inr absent ↦ rw absent (Distinct-append _ rows _ (fresh_id rows _ (le_refl _)) h)
]

publics-IsFree :
    (d : UpsertDocument) (rows : List DocumentRow)
    → any (same_public_id d) rows ≡ false
    → All (IsFree (λ x. x.public_id) d) rows
publics-IsFree d [] h = tt
publics-IsFree d (r ∷ rows) h = (
  (λ other e. ground (arith, eq_iff r.document.public_id d.public_id)),
  publics-IsFree d rows (ground arith),
)

sources-IsFree :
    (d : UpsertDocument) (rows : List DocumentRow)
    → any (same_source_id d) rows ≡ false
    → All (IsFree source_pair d) rows
sources-IsFree d [] h = tt
sources-IsFree d (r ∷ rows) h = (
  (λ other e.
      let sources = (eq_iff r.document.source d.source).1 (ap (λ (p : String × String). p.0) e) in
      let ids = (eq_iff r.document.source_id d.source_id).1 (ap (λ (p : String × String). p.1) e) in
      ground arith),
  sources-IsFree d rows (ground arith),
)

keys-IsFree :
    (d : UpsertDocument) (rows : List DocumentRow) → All (IsFree (λ x. x.document_key) d) rows
keys-IsFree d [] = tt
keys-IsFree d (r ∷ rows) =
    ((λ other e. ground (arith, eq_iff (key_of r) d.document_key)), keys-IsFree d rows)

-- A document that is written keeps the keys of the table.
pub write_document-KeysOk :
    (d : UpsertDocument) (rows after : List DocumentRow)
    → write_document d rows ≡ ok after
    → (after ≡ put_document d rows) × (KeysOk rows → KeysOk after)
unfolding write_document
write_document-KeysOk d rows after h = elim (if_eq (str_eq d.document_key "") _ _ _ h) [
  | inl (_, e) ↦ absurd (ground arith)
  | inr (_, e) ↦ elim (if_eq (any (same_public_id d) rows) _ _ _ e) [
    | inl (_, e') ↦ absurd (ground arith)
    | inr (publics, e') ↦ elim (if_eq (any (same_source_id d) rows) _ _ _ e') [
      | inl (_, e'') ↦ absurd (ground arith)
      | inr (sources, e'') ↦
          let same = ok_injective e'' in
          (
            sym same,
            λ good. rw (sym same) (record {
              ids = put-ids d rows good.ids;
              keys =
                  put-Distinct (λ x. x.document_key) d rows good.keys (keys-IsFree d rows)
                    good.keys;
              public_ids =
                  put-Distinct (λ x. x.public_id) d rows good.keys (publics-IsFree d rows publics)
                    good.public_ids;
              source_ids =
                  put-Distinct source_pair d rows good.keys (sources-IsFree d rows sources)
                    good.source_ids;
            }),
          )
    ]
  ]
]
