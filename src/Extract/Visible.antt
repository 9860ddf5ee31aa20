-- ===== src/Extract/Visible.antt =====
-- What the normalisation of a page's text keeps.
use foia_search_mcp.Prelude.{
  ℕ, Bool, true, not, List, [], ◌∷◌, ◌++◌, map, keep, keep-append, append-nil, Chars, is_whitespace,
  trim, trim_start, trim_end, split_at, first_into, ◌≡◌, refl, sym, ap, ◌∙◌, arith,
}
use foia_search_mcp.Chunk.Pages.{join}
use foia_search_mcp.Extract.FormFeed.{lines_of, normalize_page_text}

abbrev pub is_visible : ℕ → Bool
is_visible c = not (is_whitespace c)

-- The characters of a text besides white space, in their order.
abbrev pub visible : Chars → Chars
visible s = keep is_visible s

visible-trim_start : (s : Chars) → visible (trim_start is_whitespace s) ≡ visible s
unfolding trim_start
visible-trim_start [] = refl
visible-trim_start (c ∷ s) = ground (arith, visible-trim_start s)

visible-trim_end : (s : Chars) → visible (trim_end is_whitespace s) ≡ visible s
unfolding trim_end
visible-trim_end [] = refl
visible-trim_end (c ∷ s) = go (trim_end is_whitespace s) refl (visible-trim_end s)
  where
    go :
        (t : Chars)
        → trim_end is_whitespace s ≡ t
        → visible (trim_end is_whitespace s) ≡ visible s
        → visible (trim_end is_whitespace (c ∷ s)) ≡ visible (c ∷ s)
    go [] at h = let rest : visible s ≡ [] = sym h ∙ ap visible at in rw at (ground (arith, rest))
    go (d ∷ t) at h =
        let rest : visible (d ∷ t) ≡ visible s = sym (ap visible at) ∙ h in
        rw at (ground (arith, rest))

visible-trim : (s : Chars) → visible (trim s) ≡ visible s
unfolding trim
visible-trim s = visible-trim_end (trim_start is_whitespace s) ∙ visible-trim_start s

abbrev visible_all : List Chars → Chars
visible_all [] = []
visible_all (l ∷ ls) = visible l ++ visible_all ls

visible_all-first_into :
    (c : ℕ) (ls : List Chars) → visible_all (first_into c ls) ≡ visible (c ∷ []) ++ visible_all ls
visible_all-first_into c [] = ground arith
visible_all-first_into c (l ∷ ls) = ground arith

visible_all-split_at :
    (sep : ℕ) (s : Chars) → is_whitespace sep ≡ true → visible_all (split_at sep s) ≡ visible s
visible_all-split_at sep [] h = refl
visible_all-split_at sep (c ∷ s) h =
    ground (arith, visible_all-split_at sep s h, visible_all-first_into c (split_at sep s))

visible_all-lines_of : (ls : List Chars) → visible_all (lines_of ls) ≡ visible_all ls
visible_all-lines_of [] = refl
visible_all-lines_of ([] ∷ []) = refl
visible_all-lines_of ([] ∷ l ∷ ls) = visible_all-lines_of (l ∷ ls)
visible_all-lines_of ((c ∷ l) ∷ ls) = ap (λ t. visible (c ∷ l) ++ t) (visible_all-lines_of ls)

visible-join_trimmed :
    (ls : List Chars) → visible (join (0xa ∷ []) (map (trim_end is_whitespace) ls)) ≡ visible_all ls
unfolding is_whitespace
visible-join_trimmed [] = refl
visible-join_trimmed (l ∷ []) = visible-trim_end l ∙ sym (append-nil (visible l))
visible-join_trimmed (l ∷ m ∷ ls) =
    keep-append is_visible (trim_end is_whitespace l)
      (0xa ∷ join (0xa ∷ []) (map (trim_end is_whitespace) (m ∷ ls)))
    ∙ rw (visible-trim_end l) (ap (λ t. visible l ++ t) (visible-join_trimmed (m ∷ ls)))

-- Each visible character of the text, and no other.
pub visible-normalize : (text : Chars) → visible (normalize_page_text text) ≡ visible text
unfolding normalize_page_text is_whitespace
visible-normalize text =
    visible-trim (join (0xa ∷ []) (map (trim_end is_whitespace) (lines_of (split_at 0xa text))))
    ∙ visible-join_trimmed (lines_of (split_at 0xa text))
    ∙ visible_all-lines_of (split_at 0xa text)
    ∙ visible_all-split_at 0xa text refl
