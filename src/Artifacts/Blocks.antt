-- ===== src/Artifacts/Blocks.antt =====
-- The comparison by blocks agrees with one byte by byte.
use foia_search_mcp.Prelude.{
  ℕ, zero, suc, min, ◌≤◌, ◌==◌, true, false, if◌then◌else◌, Option, none, some, [], ◌∷◌, ◌++◌,
  length, Chars, Bool-cases, inl, inr, ◌≡◌, ◌⊎◌, refl, ap, ◌∙◌, arith,
}
use foia_search_mcp.Artifacts.Compare.{
  take, drop, read_exact, if_expected, buffer_length, consume_blocks, consume,
}

-- What is left of the file behind the expected bytes, compared one by one.
unfoldable pub rest_after : Chars → Chars → Option Chars
rest_after [] file = some file
rest_after (c ∷ cs) [] = none
rest_after (c ∷ cs) (d ∷ file) = let rest = rest_after cs file in if d == c then rest else none

abbrev pub then_rest_after : Chars → Option Chars → Option Chars
then_rest_after expected none = none
then_rest_after expected (some file) = rest_after expected file

pub rest_after-append :
    (cs ds file : Chars) → then_rest_after ds (rest_after cs file) ≡ rest_after (cs ++ ds) file
unfolding rest_after
rest_after-append [] ds file = refl
rest_after-append (c ∷ cs) ds [] = refl
rest_after-append (c ∷ cs) ds (d ∷ file) = elim (Bool-cases (d == c)) [
  | inl same ↦ rw same (rest_after-append cs ds file)
  | inr other ↦ rw other refl
]

take-append-drop : (n : ℕ) (s : Chars) → take n s ++ drop n s ≡ s
take-append-drop zero s = refl
take-append-drop (suc n) [] = refl
take-append-drop (suc n) (c ∷ s) = ap (λ t. c ∷ t) (take-append-drop n s)

length-drop : (n : ℕ) (s : Chars) → length (drop n s) ≤ length s
length-drop zero s = omega arith
length-drop (suc n) [] = omega arith
length-drop (suc n) (c ∷ s) = let rest = length-drop n s in omega arith

abbrev cons_buffer : ℕ → Option (Chars × Chars) → Option (Chars × Chars)
cons_buffer d none = none
cons_buffer d (some (buffer, rest)) = some (d ∷ buffer, rest)

block-eq :
    (n : ℕ) (s file : Chars)
    → n ≤ length s
    → if_expected (take n s) (read_exact n file) ≡ rest_after (take n s) file
unfolding rest_after
block-eq zero s file le = refl
block-eq (suc n) [] file le = absurd (omega arith)
block-eq (suc n) (c ∷ s) [] le = refl
block-eq (suc n) (c ∷ s) (d ∷ file) le =
    let rest = block-eq n s file (omega arith) in go (read_exact n file) (Bool-cases (d == c)) rest
  where
    go :
        (o : Option (Chars × Chars))
        → (d == c ≡ true) ⊎ (d == c ≡ false)
        → if_expected (take n s) o ≡ rest_after (take n s) file
        → if_expected (c ∷ take n s) (cons_buffer d o) ≡ rest_after (c ∷ take n s) (d ∷ file)
    go none (inl same) h = rw same h
    go none (inr other) h = rw other refl
    go (some (buffer, rest)) (inl same) h = rw same h
    go (some (buffer, rest)) (inr other) h = rw other refl

then-rest_after :
    (next : Chars → Option Chars) (s : Chars) (o : Option Chars)
    → ((rest : Chars) → next rest ≡ rest_after s rest)
    → elim o [ none ↦ none | some rest ↦ next rest ] ≡ then_rest_after s o
then-rest_after next s none h = refl
then-rest_after next s (some rest) h = h rest

-- The rest of the loop.
abbrev read_on : ℕ → ℕ → Chars → Option Chars → Option Chars
unfolding consume_blocks
read_on fuel n expected o = elim o [
  | none ↦ none
  | some rest ↦ consume_blocks fuel (drop n expected) rest
]

min-buffer : (n : ℕ) → min (suc n) buffer_length ≡ suc (min n 8191)
min-buffer n = omega arith

blocks-eq :
    (fuel : ℕ) (s file : Chars) → length s ≤ fuel → consume_blocks fuel s file ≡ rest_after s file
unfolding consume_blocks rest_after
blocks-eq fuel [] file le = refl
blocks-eq zero (c ∷ cs) file le = absurd (omega arith)
blocks-eq (suc fuel) (c ∷ cs) file le =
    let k = min (length cs) 8191 in
    let e = c ∷ cs in
    let shorter = length-drop k cs in
    ap (λ n. read_on fuel n e (if_expected (take n e) (read_exact n file))) (min-buffer (length cs))
    ∙ ap (read_on fuel (suc k) e) (block-eq (suc k) e file (omega arith))
    ∙ then-rest_after (consume_blocks fuel (drop k cs)) (drop k cs)
        (rest_after (take (suc k) e) file) (λ rest. blocks-eq fuel (drop k cs) rest (omega arith))
    ∙ rest_after-append (take (suc k) e) (drop k cs) file
    ∙ ap (λ t. rest_after t file) (take-append-drop (suc k) e)

pub consume-rest_after : (s file : Chars) → consume s file ≡ rest_after s file
unfolding consume
consume-rest_after s file = blocks-eq (length s) s file (omega arith)
