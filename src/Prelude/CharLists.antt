-- ===== src/Prelude/CharLists.antt =====
-- `&str` walked by characters: a list of scalar values, and what `str` offers on it.
use Prim.Native.Nat.{ℕ, ◌+◌}
use Prim.Native.Char.{code}
use Prim.Native.String.{String}
use mathlib.Core.Path.{◌≡◌, refl}
use mathlib.Core.Logic.{◌↔◌}
use mathlib.Core.Bool.{Bool, true, false, ◌&&◌, ◌||◌}
use mathlib.Core.List.{List, [], ◌∷◌, map}
use native.Mathlib.Omega.{arith}
use foia_search_mcp.Prelude.Tests.{if◌then◌else◌, leb, ◌==◌}

abbrev pub Chars : Type 0
Chars = List ℕ

-- The characters of a text.
abbrev pub codes : String → Chars
codes String.[] = []
codes (String.◌∷◌ c s) = code c ∷ codes s

abbrev pub chars_eq : Chars → Chars → Bool
chars_eq [] [] = true
chars_eq [] (d ∷ t) = false
chars_eq (c ∷ s) [] = false
chars_eq (c ∷ s) (d ∷ t) = c == d && chars_eq s t

-- `char::is_whitespace`: the Unicode property White_Space.
unfoldable pub is_whitespace : ℕ → Bool
is_whitespace c =
    leb 0x9 c && leb c 0xd
    || c == 0x20
    || c == 0x85
    || c == 0xa0
    || c == 0x1680
    || leb 0x2000 c && leb c 0x200a
    || c == 0x2028
    || c == 0x2029
    || c == 0x202f
    || c == 0x205f
    || c == 0x3000

-- `trim_start_matches`, `trim_end_matches` and `trim`.
unfoldable pub trim_start : (ℕ → Bool) → Chars → Chars
trim_start p [] = []
trim_start p (c ∷ s) = if p c then trim_start p s else c ∷ s

-- What is kept of a text's end: nothing of a text that passes whole.
unfoldable pub trim_end : (ℕ → Bool) → Chars → Chars
trim_end p [] = []
trim_end p (c ∷ s) = elim (trim_end p s) [ [] ↦ if p c then [] else c ∷ [] | d ∷ t ↦ c ∷ d ∷ t ]

unfoldable pub trim : Chars → Chars
unfolding trim_start trim_end is_whitespace
trim s = trim_end is_whitespace (trim_start is_whitespace s)

-- `split_whitespace().count()`: the runs of other characters. The flag says that one goes on.
unfoldable pub count_words : Bool → Chars → ℕ
unfolding is_whitespace
count_words inside [] = 0
count_words inside (c ∷ s) =
    if is_whitespace c then count_words false s else (if inside then 0 else 1) + count_words true s

abbrev pub is_ascii_upper : ℕ → Bool
is_ascii_upper c = leb b'A' c && leb c b'Z'

abbrev pub ascii_lower : ℕ → ℕ
ascii_lower c = if is_ascii_upper c then c + 32 else c

abbrev pub to_ascii_lowercase : Chars → Chars
to_ascii_lowercase s = map ascii_lower s

abbrev pub eq_ignore_ascii_case : Chars → Chars → Bool
eq_ignore_ascii_case s t = chars_eq (to_ascii_lowercase s) (to_ascii_lowercase t)

-- `str::split` at a character.
abbrev pub first_into : ℕ → List Chars → List Chars
first_into c [] = (c ∷ []) ∷ []
first_into c (s ∷ r) = (c ∷ s) ∷ r

abbrev pub split_at : ℕ → Chars → List Chars
split_at sep [] = [] ∷ []
split_at sep (c ∷ s) =
    let rest = split_at sep s in if c == sep then [] ∷ rest else first_into c rest

pub chars_eq_iff : (s t : Chars) → (chars_eq s t ≡ true) ↔ (s ≡ t)
chars_eq_iff [] [] = ((λ _. refl), λ _. refl)
chars_eq_iff [] (d ∷ t) = ((λ h. cc), λ h. cc)
chars_eq_iff (c ∷ s) [] = ((λ h. cc), λ h. cc)
chars_eq_iff (c ∷ s) (d ∷ t) =
    ((λ h. ground (arith, chars_eq_iff s t)), λ h. ground (arith, chars_eq_iff s t))
