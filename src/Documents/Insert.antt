-- ===== src/Documents/Insert.antt =====
-- What the loops of `replace_pages_and_chunks` insert, and when they get through.
use foia_search_mcp.Prelude.{
  ℕ, ◌≤◌, ◌<◌, false, List, [], ◌∷◌, ◌++◌, ◌==◌, ltb, any, map, append-nil, append_assoc, eq_iff,
  All, All-append, inl, inr, ◌≡◌, sym, ap, ◌∙◌, arith, ok, ok_injective, if_eq, bind_ok,
}
use foia_search_mcp.Documents.Tables.{
  PageInput, PageRow, ChunkInput, ChunkRow, FtsRow, StoredDocument, ensure_json_array,
  ensure_json_object,
}
use foia_search_mcp.Documents.Write.{
  page_row, is_page, insert_page, insert_pages, chunk_row, fts_row, is_chunk, insert_chunk,
  insert_chunks,
}
use foia_search_mcp.Documents.Sorted.{OnePerNumber}

-- The CHECK and UNIQUE constraints of `pages`.
abbrev pub PagesOk : List PageRow → Type 0
PagesOk rows = All (λ r. 0 < r.page_number) rows × OnePerNumber rows

OnePerNumber-append :
    (rows : List PageRow) (r : PageRow)
    → any (is_page r.document_id r.page_number) rows ≡ false
    → OnePerNumber rows
    → OnePerNumber (rows ++ r ∷ [])
OnePerNumber-append [] r new h = (tt, tt)
OnePerNumber-append (s ∷ rows) r new h = (
  All-append _ rows (r ∷ []) h.0 (ground arith, tt),
  OnePerNumber-append rows r (ground arith) h.1,
)

insert_page-ok :
    (id : ℕ) (p : PageInput) (rows after : List PageRow)
    → insert_page id p rows ≡ ok after
    → (after ≡ rows ++ page_row id p ∷ []) × (PagesOk rows → PagesOk after)
unfolding insert_page
insert_page-ok id p rows after h = elim (if_eq (p.page_number == 0) _ _ _ h) [
  | inl (_, e) ↦ absurd (ground arith)
  | inr (positive, e) ↦ elim (if_eq (any (is_page id p.page_number) rows) _ _ _ e) [
    | inl (_, e') ↦ absurd (ground arith)
    | inr (new, e') ↦
        let same = ok_injective e' in
        (
          sym same,
          λ good. rw (sym same) (
            All-append _ rows (page_row id p ∷ []) good.0 (ground arith, tt),
            OnePerNumber-append rows (page_row id p) new good.1,
          ),
        )
  ]
]

-- The pages are appended in order, and keep the constraints.
pub insert_pages-ok :
    (id : ℕ) (ps : List PageInput) (rows after : List PageRow)
    → insert_pages id ps rows ≡ ok after
    → (after ≡ rows ++ map (page_row id) ps) × (PagesOk rows → PagesOk after)
unfolding insert_pages
insert_pages-ok id [] rows after h =
    let same = ok_injective h in (sym same ∙ sym (append-nil rows), λ good. rw (sym same) good)
insert_pages-ok id (p ∷ ps) rows after h =
    let (u, h0, h1) = bind_ok (ensure_json_array "warnings_json" p.warnings_json) _ after h in
    let (between, h2, h3) = bind_ok (insert_page id p rows) _ after h1 in
    let (one, keeps) = insert_page-ok id p rows between h2 in
    let (more, keeps') = insert_pages-ok id ps between after h3 in
    (
      more ∙ (rw one (append_assoc rows (page_row id p ∷ []) (map (page_row id) ps))),
      λ good. keeps' (keeps good),
    )

-- The CHECK and UNIQUE constraints of `chunks`.
abbrev pub OnePerChunk : List ChunkRow → Type 0
OnePerChunk [] = Unit {0}
OnePerChunk (r ∷ rows) =
    All (λ s. is_chunk r.document_id r.chunk_id s ≡ false) rows × OnePerChunk rows

abbrev pub ChunksOk : List ChunkRow → Type 0
ChunksOk rows = All (λ r. (0 < r.page_start) × (r.page_start ≤ r.page_end)) rows × OnePerChunk rows

OnePerChunk-append :
    (rows : List ChunkRow) (r : ChunkRow)
    → any (is_chunk r.document_id r.chunk_id) rows ≡ false
    → OnePerChunk rows
    → OnePerChunk (rows ++ r ∷ [])
OnePerChunk-append [] r new h = (tt, tt)
OnePerChunk-append (s ∷ rows) r new h = (
  All-append _ rows (r ∷ []) h.0
      (ground (arith, eq_iff s.chunk_id r.chunk_id, eq_iff r.chunk_id s.chunk_id), tt),
  OnePerChunk-append rows r (ground arith) h.1,
)

insert_chunk-ok :
    (id : ℕ) (c : ChunkInput) (rows after : List ChunkRow)
    → insert_chunk id c rows ≡ ok after
    → (after ≡ rows ++ chunk_row id c ∷ []) × (ChunksOk rows → ChunksOk after)
unfolding insert_chunk
insert_chunk-ok id c rows after h = elim (if_eq (c.page_start == 0) _ _ _ h) [
  | inl (_, e) ↦ absurd (ground arith)
  | inr (positive, e) ↦ elim (if_eq (ltb c.page_end c.page_start) _ _ _ e) [
    | inl (_, e') ↦ absurd (ground arith)
    | inr (ordered, e') ↦ elim (if_eq (any (is_chunk id c.chunk_id) rows) _ _ _ e') [
      | inl (_, e'') ↦ absurd (ground arith)
      | inr (new, e'') ↦
          let same = ok_injective e'' in
          (
            sym same,
            λ good. rw (sym same) (
              All-append _ rows (chunk_row id c ∷ []) good.0 ((ground arith, ground arith), tt),
              OnePerChunk-append rows (chunk_row id c) new good.1,
            ),
          )
    ]
  ]
]

-- Each chunk is appended to its table and to the index.
pub insert_chunks-ok :
    (doc : StoredDocument) (cs : List ChunkInput) (rows : List ChunkRow) (fts : List FtsRow)
    (after : List ChunkRow × List FtsRow)
    → insert_chunks doc cs rows fts ≡ ok after
    → (after.0 ≡ rows ++ map (chunk_row doc.id) cs)
      × (after.1 ≡ fts ++ map (fts_row doc) cs)
      × (ChunksOk rows → ChunksOk after.0)
unfolding insert_chunks
insert_chunks-ok doc [] rows fts after h =
    let same = ok_injective h in
    (
      ap (λ (t : List ChunkRow × List FtsRow). t.0) (sym same) ∙ sym (append-nil rows),
      ap (λ (t : List ChunkRow × List FtsRow). t.1) (sym same) ∙ sym (append-nil fts),
      λ good. rw (sym same) good,
    )
insert_chunks-ok doc (c ∷ cs) rows fts after h =
    let (u, h0, h1) = bind_ok (ensure_json_object "metadata_json" c.metadata_json) _ after h in
    let (between, h2, h3) = bind_ok (insert_chunk doc.id c rows) _ after h1 in
    let (one, keeps) = insert_chunk-ok doc.id c rows between h2 in
    let (more, index, keeps') =
      insert_chunks-ok doc cs between (fts ++ fts_row doc c ∷ []) after h3 in
    (
      more ∙ (rw one (append_assoc rows (chunk_row doc.id c ∷ []) (map (chunk_row doc.id) cs))),
      index ∙ append_assoc fts (fts_row doc c ∷ []) (map (fts_row doc) cs),
      λ good. keeps' (keeps good),
    )
