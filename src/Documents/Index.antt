-- ===== src/Documents/Index.antt =====
-- The full-text index mirrors the chunks.
use foia_search_mcp.Prelude.{
  ℕ, String, Bool, true, false, List, [], ◌∷◌, ◌++◌, ◌==◌, any, find, keep, map, str_eq, eq_iff,
  Chars, All, All-append, All-Memᴰ, All-of-Memᴰ, Distinct-eq, find-Memᴰ, update_where-All,
  Bool-cases, inl, inr, ◌≡◌, ◌≢◌, refl, sym, ap, ◌∙◌, arith, some, keep-append, keep-delete_self,
  keep-delete_other, keep-none, keep-map_all, keep-map_none, append-nil,
}
use mathlib.Core.Path.{subst}
use native.Mathlib.Nat.{le_refl}
use foia_search_mcp.Documents.Tables.{UpsertDocument, DocumentRow, ChunkInput, ChunkRow, FtsRow}
use foia_search_mcp.Documents.Write.{
  has_document_key, read_document, next_document_id, chunk_row, fts_row, put_document,
}
use foia_search_mcp.Documents.Columns.{key_of, has_id, KeysOk, fresh_id}
use foia_search_mcp.Documents.Replace.{other_chunks, other_entries}

-- What is searched for of a chunk, and where its text stands.
abbrev pub Entry : Type 0
Entry = String × Chars × ℕ × ℕ

abbrev pub chunk_entry : ChunkRow → Entry
chunk_entry c = (c.chunk_id, c.text, c.page_start, c.page_end)

abbrev pub fts_entry : FtsRow → Entry
fts_entry f = (f.chunk_id, f.body, f.page_start, f.page_end)

abbrev pub under_key : String → FtsRow → Bool
under_key k f = str_eq f.document_key k

abbrev pub of_document : ℕ → ChunkRow → Bool
of_document i c = c.document_id == i

-- The index has the chunks of a document under its key, in their order.
abbrev pub IsIndexed : List ChunkRow → List FtsRow → DocumentRow → Type 0
IsIndexed chunks fts r =
    map fts_entry (keep (under_key (key_of r)) fts)
    ≡ map chunk_entry (keep (of_document r.id) chunks)

module _ (r : DocumentRow) (key : String) (cs : List ChunkInput) (chunks : List ChunkRow)
    (fts : List FtsRow) where
  abbrev new_chunks : List ChunkRow
  new_chunks = other_chunks r.id chunks ++ map (chunk_row r.id) cs

  abbrev new_fts : List FtsRow
  new_fts = other_entries key fts ++ map (fts_row (read_document r)) cs

  same_entries :
      (ds : List ChunkInput)
      → map fts_entry (map (fts_row (read_document r)) ds)
        ≡ map chunk_entry (map (chunk_row r.id) ds)
  same_entries [] = refl
  same_entries (d ∷ ds) =
      ap (λ t. (d.chunk_id, d.text, d.page_start, d.page_end) ∷ t) (same_entries ds)

  -- The document that is replaced is indexed anew.
  own-IsIndexed : key_of r ≡ key → IsIndexed new_chunks new_fts r
  own-IsIndexed e =
      let searched : keep (under_key key) new_fts ≡ map (fts_row (read_document r)) cs =
        keep-append (under_key key) (other_entries key fts) (map (fts_row (read_document r)) cs)
        ∙ (rw (keep-delete_self (under_key key) fts) (
            keep-map_all (under_key key) (fts_row (read_document r)) cs
              (λ c. (eq_iff (key_of r) key).1 e))) in
      let stored : keep (of_document r.id) new_chunks ≡ map (chunk_row r.id) cs =
        keep-append (of_document r.id) (other_chunks r.id chunks) (map (chunk_row r.id) cs)
        ∙ (rw (keep-delete_self (of_document r.id) chunks)
            (keep-map_all (of_document r.id) (chunk_row r.id) cs (λ c. ground arith))) in
      ap (λ k. map fts_entry (keep (under_key k) new_fts)) e
      ∙ ap (map fts_entry) searched
      ∙ same_entries cs
      ∙ sym (ap (map chunk_entry) stored)

  -- Another document keeps its entries.
  other-IsIndexed :
      (d : DocumentRow)
      → key_of r ≡ key
      → key_of d ≢ key
      → d.id ≢ r.id
      → IsIndexed chunks fts d
      → IsIndexed new_chunks new_fts d
  other-IsIndexed d e key_apart id_apart h =
      let searched : keep (under_key (key_of d)) new_fts ≡ keep (under_key (key_of d)) fts =
        keep-append (under_key (key_of d)) (other_entries key fts)
          (map (fts_row (read_document r)) cs)
        ∙ rw
            (
              keep-delete_other (under_key (key_of d)) (under_key key) fts (λ f hit.
                  ground (arith, eq_iff f.document_key (key_of d), eq_iff f.document_key key)),
              keep-map_none (under_key (key_of d)) (fts_row (read_document r)) cs
                  (λ c. ground (arith, eq_iff (key_of r) (key_of d))),
            )
            (append-nil _) in
      let stored : keep (of_document d.id) new_chunks ≡ keep (of_document d.id) chunks =
        keep-append (of_document d.id) (other_chunks r.id chunks) (map (chunk_row r.id) cs)
        ∙ rw
            (
              keep-delete_other (of_document d.id) (of_document r.id) chunks
                  (λ c hit. ground arith),
              keep-map_none (of_document d.id) (chunk_row r.id) cs (λ c. ground arith),
            )
            (append-nil _) in
      rw (searched, stored) h

  -- All documents are indexed after a replacement.
  pub replaced-IsIndexed :
      (docs : List DocumentRow)
      → KeysOk docs
      → find (has_document_key key) docs ≡ some r
      → All (IsIndexed chunks fts) docs
      → All (IsIndexed new_chunks new_fts) docs
  replaced-IsIndexed docs good found h =
      let (there, hit) = find-Memᴰ (has_document_key key) docs r found in
      let named = (eq_iff (key_of r) key).0 hit in
      All-of-Memᴰ docs (λ d m. elim (Bool-cases (has_document_key key d)) [
        | inl same ↦
            let one =
              Distinct-eq key_of docs r d good.keys there m
                (named ∙ sym ((eq_iff (key_of d) key).0 same)) in
            subst (IsIndexed new_chunks new_fts) one (own-IsIndexed named)
        | inr other ↦
            let apart : key_of d ≢ key = λ e. ground (arith, eq_iff (key_of d) key) in
            other-IsIndexed d named apart
              (λ e. apart (ap key_of (Distinct-eq (λ x. x.id) docs d r good.ids m there e) ∙ named))
              (All-Memᴰ (IsIndexed chunks fts) docs d h m)
      ])

-- Every entry of the index is under the key of a document, every row of a document's.
abbrev pub KeysOwned : List DocumentRow → List FtsRow → Type 0
KeysOwned docs fts = All (λ f. any (has_document_key f.document_key) docs ≡ true) fts

abbrev pub IdsOwned : {A : Type 0} → (A → ℕ) → List DocumentRow → List A → Type 0
IdsOwned f docs rows = All (λ r. any (has_id (f r)) docs ≡ true) rows

no_entry :
    (k : String) (docs : List DocumentRow) (fts : List FtsRow)
    → any (has_document_key k) docs ≡ false
    → KeysOwned docs fts
    → any (under_key k) fts ≡ false
no_entry k docs [] new h = refl
no_entry k docs (f ∷ fts) new h = elim (Bool-cases (under_key k f)) [
  | inl same ↦
      absurd
        (ground (arith, ap (λ j. any (has_document_key j) docs) ((eq_iff f.document_key k).0 same)))
  | inr other ↦ rw other (no_entry k docs fts new h.1)
]

no_chunk :
    (i : ℕ) (docs : List DocumentRow) (chunks : List ChunkRow)
    → any (has_id i) docs ≡ false
    → IdsOwned (λ c. c.document_id) docs chunks
    → any (of_document i) chunks ≡ false
no_chunk i docs [] new h = refl
no_chunk i docs (c ∷ chunks) new h = elim (Bool-cases (of_document i c)) [
  | inl same ↦
      let e : c.document_id ≡ i = ground arith in
      absurd (ground (arith, ap (λ j. any (has_id j) docs) e))
  | inr other ↦ rw other (no_chunk i docs chunks new h.1)
]

any-fresh :
    (i : ℕ) (docs : List DocumentRow) → All (λ r. r.id ≢ i) docs → any (has_id i) docs ≡ false
any-fresh i [] h = refl
any-fresh i (r ∷ docs) h = ground (arith, h.0, any-fresh i docs h.1)

-- All documents are indexed after an upsert.
pub put-IsIndexed :
    (d : UpsertDocument) (docs : List DocumentRow) (chunks : List ChunkRow) (fts : List FtsRow)
    → IdsOwned (λ c. c.document_id) docs chunks
    → KeysOwned docs fts
    → All (IsIndexed chunks fts) docs
    → All (IsIndexed chunks fts) (put_document d docs)
put-IsIndexed d docs chunks fts ids keys h =
    elim (Bool-cases (any (has_document_key d.document_key) docs)) [
      | inl there ↦ rw there (
          update_where-All (IsIndexed chunks fts) (has_document_key d.document_key)
            (λ r. record r { document = d }) docs
            (λ r hit old.
              ap (λ k. map fts_entry (keep (under_key k) fts))
                (sym ((eq_iff (key_of r) d.document_key).0 hit))
              ∙ old)
            h)
      | inr absent ↦
          let i = next_document_id docs in
          let searched =
            keep-none (under_key d.document_key) fts
              (no_entry d.document_key docs fts absent keys) in
          let stored =
            keep-none (of_document i) chunks
              (no_chunk i docs chunks (any-fresh i docs (fresh_id docs i (le_refl i))) ids) in
          rw absent (
            All-append (IsIndexed chunks fts) docs _ h
              (ap (map fts_entry) searched ∙ sym (ap (map chunk_entry) stored), tt))
    ]
