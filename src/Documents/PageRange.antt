-- ===== src/Documents/PageRange.antt =====
-- When `get_page_text` answers a range of pages, and with what.
use foia_search_mcp.Prelude.{
  ℕ, zero, suc, ◌+◌, ◌-◌, ◌≤◌, ◌<◌, ◌^◌, String, Bool, true, false, ◌&&◌, ◌||◌, some, List, [], ◌∷◌,
  ◌==◌, ltb, any, find, keep, map, length, if◌then◌else◌, All, All-impl, Bool-cases, inl, inr, ◌≡◌,
  ◌↔◌, ◌⊎◌, refl, ap, ◌∙◌, arith, ok, err, any-Memᴰ,
}
use mathlib.Core.List.{Memᴰ}
use native.Mathlib.Nat.{mod-eq_of_lt}
use foia_search_mcp.Store.{missing_pages}
use foia_search_mcp.Documents.Tables.{DocumentRow, PageRow, Database}
use foia_search_mcp.Documents.Write.{is_page}
use foia_search_mcp.Documents.Read.{
  StoredPageText, is_named, between, insert_by_number, sort_by_number, read_page_text,
  get_document_metadata, get_page_text,
}
use foia_search_mcp.Documents.Sorted.{
  OnePerNumber, Rising, count_from, keep-All, keep-DistinctNumbers, sort-All, sort-Rising,
  Rising-full, Rising-covers,
}

abbrev pub IsU32 : PageRow → Type 0
IsU32 r = r.page_number < 2 ^ 32

-- The rows of the query, before they are read.
abbrev pub in_range : ℕ → ℕ → ℕ → PageRow → Bool
in_range id a b r = r.document_id == id && between a b r

abbrev pub range_rows : ℕ → ℕ → ℕ → List PageRow → List PageRow
range_rows id a b rows = sort_by_number (keep (in_range id a b) rows)

self-Memᴰ : (rows : List PageRow) → All (λ r. Memᴰ r rows) rows
self-Memᴰ [] = tt
self-Memᴰ (r ∷ rows) = (Memᴰ.head refl, All-impl rows (λ x m. Memᴰ.tail m) (self-Memᴰ rows))

module _ (id a b : ℕ) (rows : List PageRow) (one : OnePerNumber rows) where
  range-low : All (λ p. a ≤ p.page_number) (range_rows id a b rows)
  range-low =
      sort-All _ _ (keep-All (in_range id a b) rows (λ r h _. ground arith) (self-Memᴰ rows))

  range-high : All (λ p. p.page_number ≤ b) (range_rows id a b rows)
  range-high =
      sort-All _ _ (keep-All (in_range id a b) rows (λ r h _. ground arith) (self-Memᴰ rows))

  range-small : All IsU32 rows → All IsU32 (range_rows id a b rows)
  range-small small = sort-All _ _ (keep-All (in_range id a b) rows (λ r h u. u) small)

  range-Rising : Rising a (range_rows id a b rows)
  range-Rising =
      sort-Rising a (keep (in_range id a b) rows)
        (keep-All (in_range id a b) rows (λ r h _. ground arith) (self-Memᴰ rows))
        (keep-DistinctNumbers id (in_range id a b) rows (λ r h. ground arith) one)

  range-rows : All (λ p. Memᴰ p rows × (p.document_id ≡ id)) (range_rows id a b rows)
  range-rows =
      sort-All _ _ (keep-All (in_range id a b) rows (λ r h m. (m, ground arith)) (self-Memᴰ rows))

abbrev numbered : ℕ → PageRow → Bool
numbered n p = p.page_number == n

any-insert :
    (q : PageRow → Bool) (p : PageRow) (ps : List PageRow)
    → any q (insert_by_number p ps) ≡ (q p || any q ps)
any-insert q p [] = refl
any-insert q p (r ∷ ps) = ground (arith, any-insert q p ps)

any-sort : (q : PageRow → Bool) (ps : List PageRow) → any q (sort_by_number ps) ≡ any q ps
any-sort q [] = refl
any-sort q (p ∷ ps) = any-insert q p (sort_by_number ps) ∙ ap (λ t. q p || t) (any-sort q ps)

any-keep :
    (id a b n : ℕ) (rows : List PageRow)
    → a ≤ n
    → n ≤ b
    → any (is_page id n) rows ≡ true
    → any (numbered n) (keep (in_range id a b) rows) ≡ true
any-keep id a b n [] low high h = h
any-keep id a b n (r ∷ rows) low high h = elim (Bool-cases (in_range id a b r)) [
  | inl there ↦ rw there (ground (arith, any-keep id a b n rows low high))
  | inr apart ↦ rw apart (any-keep id a b n rows low high (ground arith))
]

any-count :
    (a k n : ℕ) (ps : List PageRow)
    → map (λ (p : PageRow). p.page_number) ps ≡ count_from a k
    → a ≤ n
    → n < a + k
    → any (numbered n) ps ≡ true
any-count a zero n ps e low high = absurd (omega arith)
any-count a (suc k) n [] e low high = ground arith
any-count a (suc k) n (p ∷ ps) e low high = elim (Bool-cases (a == n)) [
  | inl here_ ↦ ground arith
  | inr later ↦ ground (arith, any-count (suc a) k n ps)
]

any-rows :
    (id n : ℕ) (rows ps : List PageRow)
    → All (λ p. Memᴰ p rows × (p.document_id ≡ id)) ps
    → any (numbered n) ps ≡ true
    → any (is_page id n) rows ≡ true
any-rows id n rows [] h e = cc
any-rows id n rows (p ∷ ps) h e = elim (Bool-cases (numbered n p)) [
  | inl here_ ↦ any-Memᴰ (is_page id n) rows p (ground arith) h.0.0
  | inr later ↦ any-rows id n rows ps h.1 (ground arith)
]

-- The document has every page of the range.
abbrev pub HasPages : ℕ → ℕ → ℕ → List PageRow → Type 0
HasPages id a b rows = (n : ℕ) → a ≤ n → n ≤ b → any (is_page id n) rows ≡ true

module _ (id a b : ℕ) (rows : List PageRow) (one : OnePerNumber rows) (order : a ≤ b) where
  length-HasPages : (length (range_rows id a b rows) ≡ b - a + 1) ↔ HasPages id a b rows
  length-HasPages = (
    λ full n low high. any-rows id n rows (range_rows id a b rows) (range-rows id a b rows one) (
        any-count a (length (range_rows id a b rows)) n (range_rows id a b rows)
          (Rising-full b a (range_rows id a b rows) (range-high id a b rows one)
            (range-Rising id a b rows one) (omega arith))
          low (omega arith)),
    λ has.
        let covered =
          Rising-covers b a (range_rows id a b rows) (omega arith) (range-high id a b rows one)
            (range-Rising id a b rows one)
            (λ n low high.
              any-sort (numbered n) (keep (in_range id a b) rows)
              ∙ any-keep id a b n rows low high (has n low high)) in
        omega arith,
  )

-- The texts of the pages from `a` to `b`, in order and each once.
abbrev pub IsPages : ℕ → ℕ → ℕ → List PageRow → List StoredPageText → Type 0
IsPages id a b rows pages =
    (map (λ (p : StoredPageText). p.page_number) pages ≡ count_from a (b - a + 1))
    × All (λ p. (r : PageRow) × Memᴰ r rows × (r.document_id ≡ id) × (p ≡ read_page_text r)) pages

read_numbers :
    (ps : List PageRow)
    → All IsU32 ps
    → map (λ (p : StoredPageText). p.page_number) (map read_page_text ps)
      ≡ map (λ (p : PageRow). p.page_number) ps
read_numbers [] h = refl
read_numbers (p ∷ ps) h = cc (mod-eq_of_lt h.0, read_numbers ps h.1)

read_rows :
    (id : ℕ) (rows ps : List PageRow)
    → All (λ p. Memᴰ p rows × (p.document_id ≡ id)) ps
    → All
        (λ p. (r : PageRow) × Memᴰ r rows × (r.document_id ≡ id) × (p ≡ read_page_text r))
        (map read_page_text ps)
read_rows id rows [] h = tt
read_rows id rows (p ∷ ps) h = ((p, h.0.0, h.0.1, refl), read_rows id rows ps h.1)

length-map-read : (ps : List PageRow) → length (map read_page_text ps) ≡ length ps
length-map-read [] = refl
length-map-read (p ∷ ps) = ap suc (length-map-read ps)

module _ (name : String) (a b : ℕ) (db : Database) (r : DocumentRow) where
  abbrev rows_read : List StoredPageText
  rows_read = map read_page_text (range_rows r.id a b db.pages)

  -- A query past its guards.
  guarded :
      find (is_named name) db.documents ≡ some r
      → 0 < a
      → a ≤ b
      → get_page_text name a b db
        ≡ (if length rows_read == b - a + 1 then ok rows_read else err (missing_pages name a b))
  unfolding get_page_text
  guarded found positive order =
      let one_based : (a == 0 || b == 0) ≡ false = ground arith in
      let ordered : ltb b a ≡ false = ground arith in
      rw (one_based, ordered, found, get_document_metadata) refl

  -- A query for pages `a` to `b` of a stored document, with 0 < a ≤ b, returns pages exactly if the
  -- document has every page of the range, and reports missing pages otherwise. The pages returned
  -- are numbered a, a + 1, …, b, and each is the text of the document's row with that number.
  pub get_page_text-IsPages :
      find (is_named name) db.documents ≡ some r
      → 0 < a
      → a ≤ b
      → OnePerNumber db.pages
      → All IsU32 db.pages
      → (((pages : List StoredPageText) × (get_page_text name a b db ≡ ok pages))
          ↔ HasPages r.id a b db.pages)
        × ((get_page_text name a b db ≡ err (missing_pages name a b))
            ⊎ ((pages : List StoredPageText) × (get_page_text name a b db ≡ ok pages)
                × IsPages r.id a b db.pages pages))
  get_page_text-IsPages found positive order one small =
      let counted = length-HasPages r.id a b db.pages one order in
      let same = length-map-read (range_rows r.id a b db.pages) in
      rw (guarded found positive order) (elim (Bool-cases (length rows_read == b - a + 1)) [
        | inl full ↦
            let exact : length (range_rows r.id a b db.pages) ≡ b - a + 1 = ground arith in
            rw full (
              ((λ _. counted.0 exact), λ _. (rows_read, refl)),
              inr (
                rows_read,
                refl,
                (
                  read_numbers (range_rows r.id a b db.pages)
                        (range-small r.id a b db.pages one small)
                      ∙ Rising-full b a (range_rows r.id a b db.pages)
                          (range-high r.id a b db.pages one) (range-Rising r.id a b db.pages one)
                          (omega arith)
                      ∙ ap (count_from a) exact,
                  read_rows r.id db.pages (range_rows r.id a b db.pages)
                      (range-rows r.id a b db.pages one),
                ),
              ),
            )
        | inr short ↦ rw short (
          (
            (λ (pages, answered). absurd (ground arith)),
            λ has. absurd (ground (arith, counted.1 has)),
          ),
          inl refl,
        )
      ])
