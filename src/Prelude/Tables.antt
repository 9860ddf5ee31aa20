-- ===== src/Prelude/Tables.antt =====
-- SQL tables as lists of rows: UPDATE and DELETE with a WHERE test.
use mathlib.Core.Path.{◌≡◌, refl}
use mathlib.Core.Logic.{inl, inr}
use mathlib.Core.Bool.{Bool, true, false}
use mathlib.Core.Option
use mathlib.Core.List.{List, [], ◌∷◌, ◌++◌, map}
use native.Mathlib.Omega.{arith}
use foia_search_mcp.Prelude.Tests.{if◌then◌else◌, Bool-cases}
use foia_search_mcp.Prelude.Lists.{find, All, keep, any}

module _ {ℓ} {A : Type ℓ} where
  -- UPDATE … SET f WHERE p.
  abbrev pub update_where : (A → Bool) → (A → A) → List A → List A
  update_where p f [] = []
  update_where p f (r ∷ t) = (if p r then f r else r) ∷ update_where p f t

  -- DELETE … WHERE p.
  abbrev pub delete_where : (A → Bool) → List A → List A
  delete_where p [] = []
  delete_where p (r ∷ t) = if p r then delete_where p t else r ∷ delete_where p t

module _ {ℓ κ} {A : Type ℓ} (P : A → Type κ) where
  -- An update keeps what every row satisfies, if it keeps it on the rows that pass the test.
  pub update_where-All :
      (p : A → Bool) (f : A → A) (t : List A)
      → ((r : A) → p r ≡ true → P r → P (f r))
      → All P t
      → All P (update_where p f t)
  update_where-All p f [] keeps h = tt
  update_where-All p f (r ∷ t) keeps h = (ground (arith, keeps r), update_where-All p f t keeps h.1)

module _ {ℓ} {A : Type ℓ} where
  -- A query after an update finds the updated row, if the update keeps the query's test.
  pub find-update_where :
      (q p : A → Bool) (f : A → A) (t : List A)
      → ((r : A) → q (f r) ≡ q r)
      → find q (update_where p f t) ≡ Option.map (λ r. if p r then f r else r) (find q t)
  find-update_where q p f [] keeps = refl
  find-update_where q p f (r ∷ t) keeps = ground (arith, keeps r, find-update_where q p f t keeps)

-- A query of several rows after an INSERT or a DELETE.
module _ {ℓ} {A : Type ℓ} (p : A → Bool) where
  pub keep-append : (t u : List A) → keep p (t ++ u) ≡ keep p t ++ keep p u
  keep-append [] u = refl
  keep-append (r ∷ t) u = ground (arith, keep-append t u)

  pub keep-delete_self : (t : List A) → keep p (delete_where p t) ≡ []
  keep-delete_self [] = refl
  keep-delete_self (r ∷ t) = ground (arith, keep-delete_self t)

  pub keep-delete_other :
      (q : A → Bool) (t : List A)
      → ((r : A) → p r ≡ true → q r ≡ false)
      → keep p (delete_where q t) ≡ keep p t
  keep-delete_other q [] apart = refl
  keep-delete_other q (r ∷ t) apart = ground (arith, apart r, keep-delete_other q t apart)

  pub keep-none : (t : List A) → any p t ≡ false → keep p t ≡ []
  keep-none [] h = refl
  keep-none (r ∷ t) h = ground (arith, keep-none t)

module _ {A B : Type 0} (p : B → Bool) (f : A → B) where
  pub keep-map_all : (t : List A) → ((a : A) → p (f a) ≡ true) → keep p (map f t) ≡ map f t
  keep-map_all [] h = refl
  keep-map_all (a ∷ t) h = ground (arith, h a, keep-map_all t h)

  pub keep-map_none : (t : List A) → ((a : A) → p (f a) ≡ false) → keep p (map f t) ≡ []
  keep-map_none [] h = refl
  keep-map_none (a ∷ t) h = ground (arith, h a, keep-map_none t h)

module _ {ℓ κ} {A : Type ℓ} (P : A → Type κ) where
  -- What all rows satisfy, the rows that are left satisfy.
  pub delete_where-All : (q : A → Bool) (t : List A) → All P t → All P (delete_where q t)
  delete_where-All q [] h = tt
  delete_where-All q (r ∷ t) h = elim (Bool-cases (q r)) [
    | inl gone ↦ rw gone (delete_where-All q t h.1)
    | inr left_ ↦ rw left_ (h.0, delete_where-All q t h.1)
  ]
