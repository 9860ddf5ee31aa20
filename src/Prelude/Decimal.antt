-- ===== src/Prelude/Decimal.antt =====
-- Numbers printed by `{}` and `{:04}`, and read back.
use Prim.Native.Nat.{ℕ, zero, suc, ◌+◌, ◌-◌, ◌*◌, ◌/◌, ◌%◌, ◌<◌}
use Prim.Native.Char.{Char, code}
use Prim.Native.String.{String, [], ◌∷◌, ◌++◌}
use Prim.Native.String.append
use mathlib.Core.Path.{◌≡◌, sym, ap, ◌∙◌}
use mathlib.Core.Logic.{inl, inr}
use native.Mathlib.Omega.{arith}
use foia_search_mcp.Prelude.Tests.{if◌then◌else◌, ltb, ltb→lt, Bool-cases}

unfoldable pub digit : ℕ → String
digit zero = "0"
digit (suc zero) = "1"
digit (suc (suc zero)) = "2"
digit (suc (suc (suc zero))) = "3"
digit (suc (suc (suc (suc zero)))) = "4"
digit (suc (suc (suc (suc (suc zero))))) = "5"
digit (suc (suc (suc (suc (suc (suc zero)))))) = "6"
digit (suc (suc (suc (suc (suc (suc (suc zero))))))) = "7"
digit (suc (suc (suc (suc (suc (suc (suc (suc zero)))))))) = "8"
digit (suc (suc (suc (suc (suc (suc (suc (suc (suc n))))))))) = "9"

-- The digits of `n` in front of `s`; `fuel` bounds their number.
unfoldable pub digits : ℕ → ℕ → String → String
unfolding digit
digits zero n s = s
digits (suc fuel) n s =
    let more = digits fuel (n / 10) (digit (n % 10) ++ s) in if ltb n 10 then digit n ++ s else more

-- `{}` of an unsigned number: it has at most `n + 1` digits.
unfoldable pub decimal : ℕ → String
unfolding digits
decimal n = digits (suc n) n []

-- The number that digits spell behind `a`.
unfoldable pub value_from : ℕ → String → ℕ
value_from a [] = a
value_from a (c ∷ s) = value_from (a * 10 + (code c - b'0')) s

value_from-cons :
    (a : ℕ) (c : Char) (s : String)
    → value_from a ((c ∷ []) ++ s) ≡ value_from (a * 10 + (code c - b'0')) s
unfolding value_from
value_from-cons a c s = rw (append.cons, append.nil)

value_from-digit :
    (a d : ℕ) (s : String) → d < 10 → value_from a (digit d ++ s) ≡ value_from (a * 10 + d) s
unfolding digit
value_from-digit a zero s h = value_from-cons a "0" s
value_from-digit a (suc zero) s h = value_from-cons a "1" s
value_from-digit a (suc (suc zero)) s h = value_from-cons a "2" s
value_from-digit a (suc (suc (suc zero))) s h = value_from-cons a "3" s
value_from-digit a (suc (suc (suc (suc zero)))) s h = value_from-cons a "4" s
value_from-digit a (suc (suc (suc (suc (suc zero))))) s h = value_from-cons a "5" s
value_from-digit a (suc (suc (suc (suc (suc (suc zero)))))) s h = value_from-cons a "6" s
value_from-digit a (suc (suc (suc (suc (suc (suc (suc zero))))))) s h = value_from-cons a "7" s
value_from-digit a (suc (suc (suc (suc (suc (suc (suc (suc zero)))))))) s h =
    value_from-cons a "8" s
value_from-digit a (suc (suc (suc (suc (suc (suc (suc (suc (suc zero))))))))) s h =
    value_from-cons a "9" s
value_from-digit a (suc (suc (suc (suc (suc (suc (suc (suc (suc (suc n)))))))))) s h =
    absurd (omega arith)

-- Reading the digits of `n` gives `n`, and goes on with what follows.
value_from-digits :
    (fuel n : ℕ) (s : String) → n < fuel → value_from 0 (digits fuel n s) ≡ value_from n s
unfolding digits
value_from-digits zero n s h = absurd (omega arith)
value_from-digits (suc fuel) n s h = elim (Bool-cases (ltb n 10)) [
  | inl small ↦
      rw small (value_from-digit 0 n s (ltb→lt n 10 small) ∙ ap (λ m. value_from m s) (omega arith))
  | inr big ↦ rw big (
      value_from-digits fuel (n / 10) (digit (n % 10) ++ s) (ground arith)
      ∙ value_from-digit (n / 10) (n % 10) s (omega arith)
      ∙ ap (λ m. value_from m s) (omega arith))
]

-- Reading a printed number back gives the number.
pub value-decimal : (n : ℕ) → value_from 0 (decimal n) ≡ n
unfolding decimal value_from
value-decimal n = value_from-digits (suc n) n [] (omega arith)

-- `{:04}`: zeros in front, up to four places.
unfoldable pub pad4 : ℕ → String
pad4 n =
    let s = decimal n in
    if ltb n 10
    then "0" ++ ("0" ++ ("0" ++ s))
    else if ltb n 100
    then "0" ++ ("0" ++ s)
    else if ltb n 1000
    then "0" ++ s
    else s

value_from-zero : (s : String) → value_from 0 ("0" ++ s) ≡ value_from 0 s
value_from-zero s = value_from-cons 0 "0" s

-- Padded numbers are read back too, so they are told apart.
pub value-pad4 : (n : ℕ) → value_from 0 (pad4 n) ≡ n
unfolding pad4
value-pad4 n =
    let s = decimal n in
    let z₁ = value_from-zero s in
    let z₂ = value_from-zero ("0" ++ s) in
    let z₃ = value_from-zero ("0" ++ ("0" ++ s)) in ground (arith, z₁, z₂, z₃, value-decimal n)

pub pad4_injective : (m n : ℕ) → pad4 m ≡ pad4 n → m ≡ n
pad4_injective m n h = sym (value-pad4 m) ∙ ap (value_from 0) h ∙ value-pad4 n
