-- ===== src/Prelude/Texts.antt =====
-- Texts as native strings, compared as SQLite's BINARY collation and Rust's `str` compare them.
use Prim.Native.Nat.{Ordering}
use Prim.Native.String.{String, [], ◌∷◌, ◌++◌, compare}
use mathlib.Core.List.{List}
use mathlib.Core.Option.{Option, none, some}
use Prim.Native.String.compare
use text.Mathlib.Text.{◌==◌}
use mathlib.Core.Path.{◌≡◌}
use mathlib.Core.Bool.{Bool, true, false, not}
use mathlib.Core.Logic.{◌⊎◌, inl, inr}
use text.Mathlib.TextPositions.{compare_refl}
use text.Mathlib.TextEquality.{eq_iff}
use native.Mathlib.Omega.{arith}

abbrev pub str_eq : String → String → Bool
str_eq s t = s == t

abbrev pub str_lt : String → String → Bool
str_lt s t = elim (compare s t) [ Ordering.lt ↦ true | _ ↦ false ]

abbrev pub str_le : String → String → Bool
str_le s t = not (str_lt t s)

-- `format!` with its holes filled: the pieces one after the other.
abbrev pub format : List String → String
format List.[] = []
format (List.◌∷◌ s r) = s ++ format r

-- `column = ?` on a nullable text column: NULL equals nothing.
abbrev pub is_text : Option String → String → Bool
is_text none s = false
is_text (some x) s = str_eq x s

-- No text is before itself.
pub str_lt_irrefl : (s : String) → str_lt s s ≡ false
str_lt_irrefl s = ground (arith, compare_refl s)

-- The order is total up to equality.
pub str_lt_total : (s t : String) → (str_lt s t ≡ true) ⊎ (str_lt t s ≡ true) ⊎ (str_eq s t ≡ true)
str_lt_total [] [] = inr (inr (ground arith))
str_lt_total [] (d ∷ t) = inl (ground (arith, compare.nil-cons d t))
str_lt_total (c ∷ s) [] = inr (inl (ground (arith, compare.nil-cons c s)))
str_lt_total (c ∷ s) (d ∷ t) =
    ground (arith, compare.cons-cons c d s t, compare.cons-cons d c t s, str_lt_total s t)

pub str_lt_trans : (s t u : String) → str_lt s t ≡ true → str_lt t u ≡ true → str_lt s u ≡ true
str_lt_trans [] [] [] h k = h
str_lt_trans [] (d ∷ t) [] h k = ground (arith, compare.cons-nil d t)
str_lt_trans [] t (e ∷ u) h k = ground (arith, compare.nil-cons e u)
str_lt_trans (c ∷ s) [] u h k = ground (arith, compare.cons-nil c s)
str_lt_trans (c ∷ s) (d ∷ t) [] h k = ground (arith, compare.cons-nil d t)
str_lt_trans (c ∷ s) (d ∷ t) (e ∷ u) h k = ground (
  arith,
  compare.cons-cons c d s t,
  compare.cons-cons d e t u,
  compare.cons-cons c e s u,
  str_lt_trans s t u,
)

-- "Not after" is transitive, and where its ends are equal so is what stands between them.
pub str_le_trans :
    (a b c : String)
    → str_lt b a ≡ false
    → str_lt c b ≡ false
    → (str_lt c a ≡ false) × (str_eq c a ≡ true → (str_eq c b ≡ true) × (str_eq b a ≡ true))
str_le_trans a b c h k = (
  ground (
    arith,
    str_lt_total a b,
    str_lt_total b c,
    str_lt_trans c a b,
    str_lt_trans c b a,
    eq_iff a b,
    eq_iff b a,
    eq_iff b c,
    eq_iff c b,
  ),
  λ e. ground (arith, str_lt_total c b, eq_iff c a, eq_iff c b, eq_iff b a),
)
