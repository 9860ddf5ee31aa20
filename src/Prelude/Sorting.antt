-- ===== src/Prelude/Sorting.antt =====
-- `sort_by` and ORDER BY: a stable insertion sort by a strict test, and what it leaves unchanged.
use mathlib.Core.Path.{◌≡◌, refl, ◌∙◌, ap}
use mathlib.Core.Bool.{Bool, true, false, ◌||◌}
use mathlib.Core.Logic.{inl, inr}
use mathlib.Core.List.{List, [], ◌∷◌}
use native.Mathlib.Omega.{arith}
use Prim.Native.Nat.{suc}
use foia_search_mcp.Prelude.Tests.{if◌then◌else◌, Bool-cases}
use foia_search_mcp.Prelude.Lists.{any, keep, length, All}

module _ {A : Type 0} (lt : A → A → Bool) where
  -- Behind the elements that are less, before its equals.
  abbrev pub insert_by : A → List A → List A
  insert_by x [] = x ∷ []
  insert_by x (y ∷ ys) = if lt y x then y ∷ insert_by x ys else x ∷ y ∷ ys

  abbrev pub sort_by : List A → List A
  sort_by [] = []
  sort_by (x ∷ xs) = insert_by x (sort_by xs)

  length-insert_by : (x : A) (ys : List A) → length (insert_by x ys) ≡ suc (length ys)
  length-insert_by x [] = refl
  length-insert_by x (y ∷ ys) = ground (arith, length-insert_by x ys)

  pub length-sort_by : (xs : List A) → length (sort_by xs) ≡ length xs
  length-sort_by [] = refl
  length-sort_by (x ∷ xs) = length-insert_by x (sort_by xs) ∙ ap suc (length-sort_by xs)

  module _ (p : A → Bool) where
    any-insert_by : (x : A) (ys : List A) → any p (insert_by x ys) ≡ (p x || any p ys)
    any-insert_by x [] = refl
    any-insert_by x (y ∷ ys) = ground (arith, any-insert_by x ys)

    pub any-sort_by : (xs : List A) → any p (sort_by xs) ≡ any p xs
    any-sort_by [] = refl
    any-sort_by (x ∷ xs) = any-insert_by x (sort_by xs) ∙ ap (λ b. p x || b) (any-sort_by xs)

    -- Elements that the order does not tell apart keep their order.
    module _ (level : (x y : A) → p x ≡ true → p y ≡ true → lt y x ≡ false) where
      keep-insert_by :
          (x : A) (ys : List A)
          → keep p (insert_by x ys) ≡ (if p x then x ∷ keep p ys else keep p ys)
      keep-insert_by x [] = refl
      keep-insert_by x (y ∷ ys) = ground (arith, level x y, keep-insert_by x ys)

      pub keep-sort_by : (xs : List A) → keep p (sort_by xs) ≡ keep p xs
      keep-sort_by [] = refl
      keep-sort_by (x ∷ xs) =
          keep-insert_by x (sort_by xs) ∙ ap (λ t. if p x then x ∷ t else t) (keep-sort_by xs)

  module _ (P : A → Type 0) where
    All-insert_by : (x : A) (ys : List A) → P x → All P ys → All P (insert_by x ys)
    All-insert_by x [] px hys = (px, tt)
    All-insert_by x (y ∷ ys) px hys = elim (Bool-cases (lt y x)) [
      | inl less ↦ rw less (hys.0, All-insert_by x ys px hys.1)
      | inr other ↦ rw other (px, hys)
    ]

    pub All-sort_by : (xs : List A) → All P xs → All P (sort_by xs)
    All-sort_by [] h = tt
    All-sort_by (x ∷ xs) h = All-insert_by x (sort_by xs) h.0 (All-sort_by xs h.1)
