-- ===== src/Artifacts/Rendered.antt =====
-- The comparison agrees with what is rendered.
use foia_search_mcp.Prelude.{
  Option, none, some, ℕ, suc, ltb, List, [], ◌∷◌, ◌++◌, append_assoc, Chars, chars_eq, Bool-cases,
  inl, inr, ok, ok_injective, ◌≡◌, refl, ap, ◌∙◌, arith,
}
use foia_search_mcp.Documents.Read.{StoredPageText}
use foia_search_mcp.Artifacts.Blocks.{
  rest_after, then_rest_after, rest_after-append, consume-rest_after,
}
use foia_search_mcp.Artifacts.Compare.{
  consume, finish, then_consume, file_matches_bytes, consume_page, consume_pages,
  file_matches_rendered_pages, push_page, push_pages, render_document_text,
}

then_consume-rest_after : (s : Chars) (o : Option Chars) → then_consume s o ≡ then_rest_after s o
then_consume-rest_after s none = refl
then_consume-rest_after s (some file) = consume-rest_after s file

consume-append : (cs ds file : Chars) → then_consume ds (consume cs file) ≡ consume (cs ++ ds) file
consume-append cs ds file =
    rw (consume-rest_after cs file, consume-rest_after (cs ++ ds) file)
      (then_consume-rest_after ds (rest_after cs file) ∙ rest_after-append cs ds file)

finish-rest_after : (cs file : Chars) → finish (rest_after cs file) ≡ chars_eq file cs
unfolding rest_after
finish-rest_after [] [] = refl
finish-rest_after [] (d ∷ file) = refl
finish-rest_after (c ∷ cs) [] = refl
finish-rest_after (c ∷ cs) (d ∷ file) = ground (arith, finish-rest_after cs file)

consume-eq : (cs file : Chars) → finish (consume cs file) ≡ chars_eq file cs
consume-eq cs file = ap finish (consume-rest_after cs file) ∙ finish-rest_after cs file

-- A file passes exactly if it has the expected bytes and no others.
pub file_matches_bytes-eq :
    (expected file : Chars) → file_matches_bytes expected file ≡ chars_eq file expected
unfolding file_matches_bytes
file_matches_bytes-eq expected file = consume-eq expected file

module _ (as_bytes : Chars → Chars) where
  page-consumed :
      (index : ℕ) (page : StoredPageText) (done file : Chars)
      → consume_page as_bytes index page (consume done file)
        ≡ consume (push_page as_bytes index page done) file
  page-consumed index page done file = elim (Bool-cases (ltb 0 index)) [
    | inl later ↦ rw later simp (consume-append, append_assoc)
    | inr first ↦ rw first simp (consume-append, append_assoc)
  ]

  pages-consumed :
      (index : ℕ) (pages : List StoredPageText) (done file : Chars)
      → consume_pages as_bytes index pages (consume done file)
        ≡ consume (push_pages as_bytes index pages done) file
  unfolding consume_pages push_pages
  pages-consumed index [] done file = refl
  pages-consumed index (page ∷ pages) done file =
      ap (consume_pages as_bytes (suc index) pages) (page-consumed index page done file)
      ∙ pages-consumed (suc index) pages (push_page as_bytes index page done) file

  -- A file passes the comparison with the pages exactly if it holds, byte for byte, the document text
  -- that a repair would render of them.
  pub matches_rendered-eq :
      (pages : List StoredPageText) (file text : Chars)
      → render_document_text as_bytes pages ≡ ok text
      → file_matches_rendered_pages as_bytes pages file ≡ chars_eq file text
  unfolding file_matches_rendered_pages render_document_text consume
  matches_rendered-eq [] file text h = absurd (ground arith)
  matches_rendered-eq (page ∷ pages) file text h =
      ap finish (pages-consumed 0 (page ∷ pages) [] file)
      ∙ consume-eq (push_pages as_bytes 0 (page ∷ pages) []) file
      ∙ ap (chars_eq file) (ok_injective h)
