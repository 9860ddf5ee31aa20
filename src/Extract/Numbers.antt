-- ===== src/Extract/Numbers.antt =====
-- The pages that a text file is cut into.
use foia_search_mcp.Prelude.{
  ℕ, ◌+◌, ◌-◌, ◌%◌, ◌^◌, ◌≤◌, ◌<◌, Bool, true, false, none, some, List, [], ◌∷◌, ◌≡◌, refl, inl,
  inr, arith, length, Chars, split_at, ok, err, Result, Bool-cases, Option-cases, ◌==◌, head?, All,
}
use foia_search_mcp.Chunk.Pages.{PageText}
use foia_search_mcp.Chunk.Ranges.{RisesFrom}
use foia_search_mcp.Extract.FormFeed.{
  ExtractedText, TextExtraction, normalized_pages, position, rposition, from_index, up_to, has_text,
  extracted_text_from_form_feed, empty_input,
}

RisesFrom-le : (k n : ℕ) (ps : List PageText) → k ≤ n → RisesFrom n ps → RisesFrom k ps
RisesFrom-le k n [] le h = tt
RisesFrom-le k n (p ∷ ps) le h = (omega (arith, h.0), h.1)

-- The numbers fit a u32, so they count the pieces from 1 on.
normalized_pages-RisesFrom :
    (index : ℕ) (ps : List Chars)
    → index + length ps < 2 ^ 32
    → RisesFrom index (normalized_pages index ps)
normalized_pages-RisesFrom index [] small = tt
normalized_pages-RisesFrom index (p ∷ ps) small =
    let number : (index + 1) % 2 ^ 32 ≡ index + 1 = omega arith in
    (omega (arith, number), rw number (normalized_pages-RisesFrom (index + 1) ps (omega arith)))

up_to-RisesFrom : (k n : ℕ) (ps : List PageText) → RisesFrom k ps → RisesFrom k (up_to n ps)
up_to-RisesFrom k n [] h = tt
up_to-RisesFrom k n (p ∷ ps) h = elim (Bool-cases (n == 0)) [
  | inl zero_left ↦ rw zero_left tt
  | inr more ↦ rw more (h.0, up_to-RisesFrom p.page_number (n - 1) ps h.1)
]

from_index-RisesFrom :
    (k n : ℕ) (ps : List PageText) → RisesFrom k ps → RisesFrom k (from_index n ps)
from_index-RisesFrom k n [] h = tt
from_index-RisesFrom k n (p ∷ ps) h = elim (Bool-cases (n == 0)) [
  | inl here ↦ rw here h
  | inr more ↦ rw more (
      RisesFrom-le k p.page_number (from_index (n - 1) ps) (omega (arith, h.0))
        (from_index-RisesFrom p.page_number (n - 1) ps h.1))
]

module _ {ℓ} {A : Type ℓ} (p : A → Bool) where
  -- The slice that the two positions cut out begins with the first hit.
  slice-head :
      (xs : List A) (first last : ℕ)
      → position p xs ≡ some first
      → rposition p xs ≡ some last
      → (x : A) × (head? (from_index first (up_to (last + 1) xs)) ≡ some x) × (p x ≡ true)
  slice-head [] first last h k = absurd (ground arith)
  slice-head (x ∷ xs) first last h k =
      let more : ((last + 1) == 0) ≡ false = ground arith in
      elim (Bool-cases (p x)) [
        | inl hit ↦
            let zero_first : first ≡ 0 = ground arith in rw (more, zero_first) (x, refl, hit)
        | inr miss ↦ elim (Option-cases (position p xs)) [
          | inl gone ↦ absurd (ground arith)
          | inr (n, found) ↦ elim (Option-cases (rposition p xs)) [
            | inl gone ↦ absurd (ground arith)
            | inr (m, found_last) ↦
                let first_is : first ≡ n + 1 = ground arith in
                let last_is : last ≡ m + 1 = ground arith in
                let back : last + 1 - 1 ≡ m + 1 = omega (arith, last_is) in
                let not_first : (first == 0) ≡ false = ground arith in
                let less : first - 1 ≡ n = omega (arith, first_is) in
                let (y, e, hit) = slice-head xs n m found found_last in
                rw (more, back, not_first, less) (y, e, hit)
          ]
        ]
      ]

  pub position-none : (xs : List A) → position p xs ≡ none → All (λ x. p x ≡ false) xs
  position-none [] h = tt
  position-none (x ∷ xs) h = elim (Bool-cases (p x)) [
    | inl hit ↦ absurd (ground arith)
    | inr miss ↦ elim (Option-cases (position p xs)) [
      | inl gone ↦ (miss, position-none xs gone)
      | inr (n, found) ↦ absurd (ground arith)
    ]
  ]

  pub rposition-some :
      (xs : List A) (n : ℕ) → position p xs ≡ some n → (m : ℕ) × (rposition p xs ≡ some m)
  rposition-some [] n h = absurd (ground arith)
  rposition-some (x ∷ xs) n h = elim (Option-cases (rposition p xs)) [
    | inr (m, found) ↦ (m + 1, rw found refl)
    | inl gone ↦ elim (Bool-cases (p x)) [
      | inl hit ↦ (0, rw (gone, hit) refl)
      | inr miss ↦ elim (Option-cases (position p xs)) [
        | inl none_left ↦ absurd (ground arith)
        | inr (k, found) ↦ let (m, there) = rposition-some xs k found in absurd (ground arith)
      ]
    ]
  ]

abbrev pub IsExtraction : List PageText → Result TextExtraction ExtractedText → Type 0
IsExtraction all (ok e) =
    RisesFrom 0 e.pages
    × ((first : PageText) × (head? e.pages ≡ some first) × (has_text first ≡ true))
IsExtraction all (err x) = (x ≡ empty_input) × All (λ p. has_text p ≡ false) all

-- A text of fewer than 2^32 pieces is cut into pages whose numbers rise from 1 on and whose first has
-- text, as the chunking and the store ask for; it is refused only where no piece has text.
pub extracted_text-IsExtraction :
    (text : Chars)
    → length (split_at 0xc text) < 2 ^ 32
    → IsExtraction (normalized_pages 0 (split_at 0xc text)) (extracted_text_from_form_feed text)
unfolding extracted_text_from_form_feed
extracted_text-IsExtraction text small =
    let all = normalized_pages 0 (split_at 0xc text) in
    let rises = normalized_pages-RisesFrom 0 (split_at 0xc text) (omega arith) in
    elim (Option-cases (position has_text all)) [
      | inl gone ↦ rw (extracted_text_from_form_feed, gone) (refl, position-none has_text all gone)
      | inr (first, found) ↦
          let (last, found_last) = rposition-some has_text all first found in
          rw (extracted_text_from_form_feed, found, found_last)
            (
              from_index-RisesFrom 0 first (up_to (last + 1) all)
                  (up_to-RisesFrom 0 (last + 1) all rises),
              slice-head has_text all first last found found_last,
            )
    ]
