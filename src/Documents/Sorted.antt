-- ===== src/Documents/Sorted.antt =====
-- The pages of a document in the order of their numbers, as `get_page_text` reads them.
use foia_search_mcp.Prelude.{
  ℕ, zero, suc, ◌+◌, ◌≤◌, ◌<◌, Bool, true, false, List, [], ◌∷◌, ◌==◌, leb, any, keep, map, length,
  All, Bool-cases, inl, inr, ◌≡◌, ◌≢◌, refl, arith, ap,
}
use foia_search_mcp.Documents.Tables.{PageRow}
use foia_search_mcp.Documents.Write.{is_page}
use foia_search_mcp.Documents.Read.{insert_by_number, sort_by_number}

-- UNIQUE(document_id, page_number).
abbrev pub OnePerNumber : List PageRow → Type 0
OnePerNumber [] = Unit {0}
OnePerNumber (r ∷ rows) =
    All (λ s. is_page r.document_id r.page_number s ≡ false) rows × OnePerNumber rows

abbrev pub DistinctNumbers : List PageRow → Type 0
DistinctNumbers [] = Unit {0}
DistinctNumbers (r ∷ rows) = All (λ s. s.page_number ≢ r.page_number) rows × DistinctNumbers rows

-- Numbers rise, from `k` on.
abbrev pub Rising : ℕ → List PageRow → Type 0
Rising k [] = Unit {0}
Rising k (p ∷ ps) = (k ≤ p.page_number) × Rising (suc p.page_number) ps

abbrev pub count_from : ℕ → ℕ → List ℕ
count_from k zero = []
count_from k (suc n) = k ∷ count_from (suc k) n

module _ {P Q : PageRow → Type 0} (p : PageRow → Bool) where
  -- What is kept has what the rows have, and passes the test.
  pub keep-All :
      (rows : List PageRow)
      → ((r : PageRow) → p r ≡ true → P r → Q r)
      → All P rows
      → All Q (keep p rows)
  keep-All [] f h = tt
  keep-All (r ∷ rows) f h = elim (Bool-cases (p r)) [
    | inl passes ↦ rw passes (f r passes h.0, keep-All rows f h.1)
    | inr fails ↦ rw fails (keep-All rows f h.1)
  ]

pub keep-DistinctNumbers :
    (id : ℕ) (p : PageRow → Bool) (rows : List PageRow)
    → ((r : PageRow) → p r ≡ true → r.document_id ≡ id)
    → OnePerNumber rows
    → DistinctNumbers (keep p rows)
keep-DistinctNumbers id p [] same h = tt
keep-DistinctNumbers id p (r ∷ rows) same h = elim (Bool-cases (p r)) [
  | inl passes ↦ rw passes (
    keep-All p rows (λ s also other e. ground (arith, same r passes, same s also)) h.0,
    keep-DistinctNumbers id p rows same h.1,
  )
  | inr fails ↦ rw fails (keep-DistinctNumbers id p rows same h.1)
]

module _ (P : PageRow → Type 0) where
  insert-All : (p : PageRow) (qs : List PageRow) → P p → All P qs → All P (insert_by_number p qs)
  insert-All p [] x h = (x, tt)
  insert-All p (q ∷ qs) x h = elim (Bool-cases (leb p.page_number q.page_number)) [
    | inl low ↦ rw low (x, h)
    | inr high ↦ rw high (h.0, insert-All p qs x h.1)
  ]

  pub sort-All : (ps : List PageRow) → All P ps → All P (sort_by_number ps)
  sort-All [] h = tt
  sort-All (p ∷ ps) h = insert-All p (sort_by_number ps) h.0 (sort-All ps h.1)

insert-Rising :
    (k : ℕ) (p : PageRow) (qs : List PageRow)
    → k ≤ p.page_number
    → All (λ q. q.page_number ≢ p.page_number) qs
    → Rising k qs
    → Rising k (insert_by_number p qs)
insert-Rising k p [] low new h = (low, tt)
insert-Rising k p (q ∷ qs) low new h = elim (Bool-cases (leb p.page_number q.page_number)) [
  | inl first ↦ rw first (low, (ground (arith, new.0), h.1))
  | inr later ↦ rw later (h.0, insert-Rising (suc q.page_number) p qs (ground arith) new.1 h.1)
]

pub sort-Rising :
    (k : ℕ) (ps : List PageRow)
    → All (λ p. k ≤ p.page_number) ps
    → DistinctNumbers ps
    → Rising k (sort_by_number ps)
sort-Rising k [] low d = tt
sort-Rising k (p ∷ ps) low d =
    insert-Rising k p (sort_by_number ps) low.0 (sort-All _ ps d.0) (sort-Rising k ps low.1 d.1)

module _ (b : ℕ) where
  -- Rising numbers between `k` and `b` are at most as many as the numbers there.
  Rising-length :
      (k : ℕ) (ps : List PageRow)
      → k ≤ suc b
      → All (λ p. p.page_number ≤ b) ps
      → Rising k ps
      → length ps + k ≤ suc b
  Rising-length k [] low high h = omega arith
  Rising-length k (p ∷ ps) low high h =
      omega (arith, Rising-length (suc p.page_number) ps (omega arith) high.1 h.1)

  -- If they are as many, they are all the numbers there.
  pub Rising-full :
      (k : ℕ) (ps : List PageRow)
      → All (λ p. p.page_number ≤ b) ps
      → Rising k ps
      → length ps + k ≡ suc b
      → map (λ (p : PageRow). p.page_number) ps ≡ count_from k (length ps)
  Rising-full k [] high h full = refl
  Rising-full k (p ∷ ps) high h full =
      let short = Rising-length (suc p.page_number) ps (omega arith) high.1 h.1 in
      let first : p.page_number ≡ k = omega arith in
      rw first (ap (λ t. k ∷ t) (Rising-full (suc k) ps high.1 (rw first at h.1) (omega arith)))

  not-above :
      (k n : ℕ) (ps : List PageRow) → n < k → Rising k ps → any (λ p. p.page_number == n) ps ≡ false
  not-above k n [] low h = refl
  not-above k n (p ∷ ps) low h =
      ground (arith, not-above (suc p.page_number) n ps (omega arith) h.1)

  -- If every number there is among them, they are as many.
  pub Rising-covers :
      (k : ℕ) (ps : List PageRow)
      → k ≤ suc b
      → All (λ p. p.page_number ≤ b) ps
      → Rising k ps
      → ((n : ℕ) → k ≤ n → n ≤ b → any (λ p. p.page_number == n) ps ≡ true)
      → length ps + k ≡ suc b
  Rising-covers k [] low high h all = elim (Bool-cases (leb k b)) [
    | inl inside ↦ absurd (ground (arith, all k))
    | inr outside ↦ ground arith
  ]
  Rising-covers k (p ∷ ps) low high h all =
      let none_left = not-above (suc p.page_number) k ps (omega arith) h.1 in
      let first : p.page_number ≡ k = ground (arith, all k) in
      let rest =
        Rising-covers (suc k) ps (omega arith) high.1 (rw first at h.1)
          (λ n above below. ground (arith, all n)) in
      omega arith
