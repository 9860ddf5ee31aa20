-- ===== src/Extract/Pieces.antt =====
-- The pages that a text file is cut into, compared with its pieces.
use foia_search_mcp.Prelude.{
  ℕ, ◌+◌, ◌-◌, ◌^◌, ◌<◌, Bool, true, false, none, some, List, [], ◌∷◌, ◌++◌, length, head?, last?,
  All, Chars, split_at, ok, err, Result, Bool-cases, Option-cases, inl, inr, ◌==◌, ◌≡◌, refl, sym,
  ap, ◌∙◌, arith,
}
use foia_search_mcp.Chunk.Pages.{PageText}
use foia_search_mcp.Extract.FormFeed.{
  ExtractedText, TextExtraction, normalize_page_text, normalized_pages, position, rposition,
  from_index, up_to, has_text, extracted_text_from_form_feed, empty_input,
}
use foia_search_mcp.Extract.Visible.{visible, visible-normalize}
use foia_search_mcp.Extract.Numbers.{rposition-some, position-none}

-- The pages are those of the pieces, numbered behind `index`: each has the normalised text of its
-- piece, and with it all visible characters of the piece and no others.
abbrev pub IsPaged : ℕ → List Chars → List PageText → Type 0
IsPaged index [] [] = Unit {0}
IsPaged index [] (p ∷ ps) = ⊥
IsPaged index (piece ∷ pieces) [] = ⊥
IsPaged index (piece ∷ pieces) (p ∷ ps) =
    (p.page_number ≡ index + 1)
    × (p.text ≡ normalize_page_text piece)
    × (visible p.text ≡ visible piece)
    × IsPaged (index + 1) pieces ps

normalized_pages-IsPaged :
    (index : ℕ) (pieces : List Chars)
    → index + length pieces < 2 ^ 32
    → IsPaged index pieces (normalized_pages index pieces)
normalized_pages-IsPaged index [] small = tt
normalized_pages-IsPaged index (piece ∷ pieces) small = (
  omega arith,
  refl,
  visible-normalize piece,
  normalized_pages-IsPaged (index + 1) pieces (omega arith),
)

module _ {A : Type 0} (p : A → Bool) where
  last-cons : (x y : A) (t : List A) → last? t ≡ some y → last? (x ∷ t) ≡ some y
  last-cons x y [] h = absurd (ground arith)
  last-cons x y (z ∷ t) h = h

  last-append :
      (s : List A) (x y : A) (t : List A) → last? (s ++ x ∷ t) ≡ some y → last? (x ∷ t) ≡ some y
  last-append [] x y t h = h
  last-append (z ∷ []) x y t h = h
  last-append (z ∷ w ∷ s) x y t h = last-append (w ∷ s) x y t h

  up_to-zero : (xs : List A) → up_to 0 xs ≡ []
  up_to-zero [] = refl
  up_to-zero (x ∷ xs) = refl

  rposition-none : (xs : List A) → rposition p xs ≡ none → All (λ x. p x ≡ false) xs
  rposition-none [] h = tt
  rposition-none (x ∷ xs) h = elim (Option-cases (rposition p xs)) [
    | inr (m, found) ↦ absurd (ground arith)
    | inl gone ↦ elim (Bool-cases (p x)) [
      | inl hit ↦ absurd (ground arith)
      | inr miss ↦ (miss, rposition-none xs gone)
    ]
  ]

  -- What stands behind the last hit.
  after-last :
      (xs : List A) (last : ℕ)
      → rposition p xs ≡ some last
      → (after : List A) × (up_to (last + 1) xs ++ after ≡ xs)
        × All (λ x. p x ≡ false) after
        × ((y : A) × (last? (up_to (last + 1) xs) ≡ some y) × (p y ≡ true))
  after-last [] last h = absurd (ground arith)
  after-last (x ∷ xs) last h =
      let more : ((last + 1) == 0) ≡ false = ground arith in
      elim (Option-cases (rposition p xs)) [
        | inr (m, found) ↦
            let (after, all, misses, (y, at, hit)) = after-last xs m found in
            let last_is : last ≡ m + 1 = ground arith in
            let back : last + 1 - 1 ≡ m + 1 = omega (arith, last_is) in
            rw (more, back)
              (after, ap (λ t. x ∷ t) all, misses, (y, last-cons x y (up_to (m + 1) xs) at, hit))
        | inl gone ↦ elim (Bool-cases (p x)) [
          | inr miss ↦ absurd (ground arith)
          | inl hit ↦
              let last_is : last ≡ 0 = ground arith in
              let back : last + 1 - 1 ≡ 0 = omega (arith, last_is) in
              rw (more, back, up_to-zero xs) (xs, refl, rposition-none xs gone, (x, refl, hit))
        ]
      ]

  position-missed : (xs : List A) → All (λ x. p x ≡ false) xs → position p xs ≡ none
  position-missed [] h = refl
  position-missed (x ∷ xs) h = ground (arith, h.0, position-missed xs h.1)

  position-append :
      (ys after : List A) → All (λ x. p x ≡ false) after → position p (ys ++ after) ≡ position p ys
  position-append [] after misses = position-missed after misses
  position-append (y ∷ ys) after misses = ground (arith, position-append ys after misses)

  -- What stands before the first hit.
  before-first :
      (ys : List A) (n : ℕ)
      → position p ys ≡ some n
      → (before : List A) × (before ++ from_index n ys ≡ ys)
        × All (λ x. p x ≡ false) before
        × ((x : A) × (rest : List A) × (from_index n ys ≡ x ∷ rest) × (p x ≡ true))
  before-first [] n h = absurd (ground arith)
  before-first (y ∷ ys) n h = elim (Bool-cases (p y)) [
    | inl hit ↦
        let zero_first : n ≡ 0 = ground arith in rw zero_first ([], refl, tt, (y, ys, refl, hit))
    | inr miss ↦ elim (Option-cases (position p ys)) [
      | inl gone ↦ absurd (ground arith)
      | inr (m, found) ↦
          let (before, all, misses, (x, rest, at, hit)) = before-first ys m found in
          let first_is : n ≡ m + 1 = ground arith in
          let not_first : (n == 0) ≡ false = ground arith in
          let less : n - 1 ≡ m = omega (arith, first_is) in
          rw (not_first, less) (y ∷ before, ap (λ t. y ∷ t) all, (miss, misses), (x, rest, at, hit))
    ]
  ]

  -- What the two positions cut out, and what they leave away.
  abbrev pub IsCut : List A → List A → Type 0
  IsCut all kept =
      (before : List A) × (after : List A) × (before ++ kept ++ after ≡ all)
      × All (λ x. p x ≡ false) before
      × All (λ x. p x ≡ false) after
      × ((x : A) × (head? kept ≡ some x) × (p x ≡ true))
      × ((y : A) × (last? kept ≡ some y) × (p y ≡ true))

  slice-IsCut :
      (xs : List A) (first last : ℕ)
      → position p xs ≡ some first
      → rposition p xs ≡ some last
      → IsCut xs (from_index first (up_to (last + 1) xs))
  slice-IsCut xs first last h k =
      let (after, all, blank, (y, at_end, end_hit)) = after-last xs last k in
      let ys = up_to (last + 1) xs in
      let here : position p ys ≡ some first =
        sym (position-append ys after blank) ∙ ap (position p) all ∙ h in
      let (before, joined, missed, (x, rest, at, hit)) = before-first ys first here in
      (
        before,
        after,
        ap (λ t. t ++ after) joined ∙ all,
        missed,
        blank,
        (x, ap head? at, hit),
        (
          y,
          ap last? at
              ∙ last-append before x y rest
                  (ap (λ t. last? (before ++ t)) (sym at) ∙ ap last? joined ∙ at_end),
          end_hit,
        ),
      )

-- The pages of the file are those that are cut out of the pages of all pieces, or none has text.
abbrev pub IsFile : List Chars → Result TextExtraction ExtractedText → Type 0
IsFile pieces (ok e) = (all : List PageText) × IsPaged 0 pieces all × IsCut has_text all e.pages
IsFile pieces (err x) =
    (x ≡ empty_input)
    × ((all : List PageText) × IsPaged 0 pieces all × All (λ p. has_text p ≡ false) all)

-- A text of fewer than 2^32 pieces between form feeds has a page for each piece, numbered from 1 on,
-- whose text is the piece's after normalisation, with the same visible characters in their order. The
-- extraction gives these pages from the first to the last that has text, all of them between
-- included, and is refused only where no page has text.
pub extracted_text-IsFile :
    (text : Chars)
    → length (split_at 0xc text) < 2 ^ 32
    → IsFile (split_at 0xc text) (extracted_text_from_form_feed text)
unfolding extracted_text_from_form_feed
extracted_text-IsFile text small =
    let all = normalized_pages 0 (split_at 0xc text) in
    let paged = normalized_pages-IsPaged 0 (split_at 0xc text) (omega arith) in
    elim (Option-cases (position has_text all)) [
      | inl gone ↦
          rw (extracted_text_from_form_feed, gone)
            (refl, (all, paged, position-none has_text all gone))
      | inr (first, found) ↦
          let (last, found_last) = rposition-some has_text all first found in
          rw (extracted_text_from_form_feed, found, found_last)
            (all, paged, slice-IsCut has_text all first last found found_last)
    ]
