-- ===== src/Index/Canonical.antt =====
-- The join of chunks and documents has one row for an identity.
use foia_search_mcp.Prelude.{
  true, false, none, some, List, [], ◌∷◌, find, keep, eq_iff, All, Distinct, Distinct-eq, last_or,
  has_map_key, find-Memᴰ, Option-cases, Bool-cases, inl, inr, ◌≡◌, ◌≢◌, refl, ap, arith,
}
use foia_search_mcp.Documents.Tables.{DocumentRow, ChunkRow, Database}
use foia_search_mcp.Documents.Write.{is_chunk}
use foia_search_mcp.Documents.Columns.{key_of, has_id}
use foia_search_mcp.Documents.Insert.{OnePerChunk}
use foia_search_mcp.Index.Reconcile.{
  ChunkIdentity, identity_eq, CanonicalRow, identity_of, canonical_row, canonical_rows,
}
use foia_search_mcp.Index.Verdict.{identity_eq_iff, canonical_of}
use foia_search_mcp.Index.Rewrites.{canonical_at}

module _ (docs : List DocumentRow) (keyed : Distinct key_of docs) where
  -- Chunks of two rows of the table with one identity are one chunk.
  same_chunk :
      (d e : DocumentRow) (b c : ChunkRow)
      → find (has_id b.document_id) docs ≡ some d
      → find (has_id c.document_id) docs ≡ some e
      → identity_of (canonical_row e c) ≡ identity_of (canonical_row d b)
      → is_chunk b.document_id b.chunk_id c ≡ true
  same_chunk d e b c at_d at_e same =
      let (in_d, is_d) = find-Memᴰ (has_id b.document_id) docs d at_d in
      let (in_e, is_e) = find-Memᴰ (has_id c.document_id) docs e at_e in
      let keys : key_of e ≡ key_of d = ap (λ (i : ChunkIdentity). i.document_key) same in
      let names : c.chunk_id ≡ b.chunk_id = ap (λ (i : ChunkIdentity). i.chunk_id) same in
      let one = ap (λ (r : DocumentRow). r.id) (Distinct-eq key_of docs e d keyed in_e in_d keys) in
      ground (arith, eq_iff c.chunk_id b.chunk_id)

  apart :
      (d : DocumentRow) (b : ChunkRow) (chunks : List ChunkRow)
      → find (has_id b.document_id) docs ≡ some d
      → All (λ c. is_chunk b.document_id b.chunk_id c ≡ false) chunks
      → All (λ r. identity_of r ≢ identity_of (canonical_row d b)) (canonical_rows docs chunks)
  apart d b [] at h = tt
  apart d b (c ∷ chunks) at h = elim (Option-cases (find (has_id c.document_id) docs)) [
    | inl absent ↦ rw absent (apart d b chunks at h.1)
    | inr (e, found) ↦
        rw found
          ((λ same. ground (arith, same_chunk d e b c at found same, h.0)), apart d b chunks at h.1)
  ]

  canonical_rows-Distinct :
      (chunks : List ChunkRow)
      → OnePerChunk chunks
      → Distinct identity_of (canonical_rows docs chunks)
  canonical_rows-Distinct [] h = tt
  canonical_rows-Distinct (c ∷ chunks) h = elim (Option-cases (find (has_id c.document_id) docs)) [
    | inl absent ↦ rw absent (canonical_rows-Distinct chunks h.1)
    | inr (d, found) ↦ rw found (apart d c chunks found h.0, canonical_rows-Distinct chunks h.1)
  ]

module _ (k : ChunkIdentity) where
  none_else :
      (rows : List CanonicalRow)
      → All (λ r. identity_of r ≢ k) rows
      → keep (has_map_key identity_eq identity_of k) rows ≡ []
  none_else [] h = refl
  none_else (r ∷ rows) h =
      ground (arith, h.0, identity_eq_iff (identity_of r) k, none_else rows h.1)

  first-last :
      (rows : List CanonicalRow)
      → Distinct identity_of rows
      → find (has_map_key identity_eq identity_of k) rows
        ≡ last_or none (keep (has_map_key identity_eq identity_of k) rows)
  first-last [] h = refl
  first-last (r ∷ rows) h = elim (Bool-cases (identity_eq (identity_of r) k)) [
    | inl same ↦
        let at : identity_of r ≡ k = (identity_eq_iff (identity_of r) k).0 same in
        rw (same, none_else rows (rw at at h.0))
    | inr other ↦ rw other (first-last rows h.1)
  ]

  -- So the row that a repair reads is the one that the report compared.
  pub canonical_at-eq :
      (db : Database)
      → Distinct key_of db.documents
      → OnePerChunk db.chunks
      → canonical_at k db ≡ canonical_of k db
  canonical_at-eq db keyed once =
      first-last (canonical_rows db.documents db.chunks)
        (canonical_rows-Distinct db.documents keyed db.chunks once)
