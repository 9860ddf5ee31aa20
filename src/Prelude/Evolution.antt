-- ===== src/Prelude/Evolution.antt =====
-- How a table changes by one statement: rows stay where they are, each as it was or changed by a
-- row relation, and new rows come behind them.
use mathlib.Core.Path.{◌≡◌, refl, sym, ap, ◌∙◌}
use mathlib.Core.Logic.{◌⊎◌, ◌≢◌, inl, inr}
use mathlib.Core.Bool.{Bool, true}
use mathlib.Core.Option.{some}
use mathlib.Core.List.{List, [], ◌∷◌, ◌++◌, map, Memᴰ}
use native.Mathlib.Omega.{arith}
use foia_search_mcp.Prelude.Tests.{Bool-cases}
use foia_search_mcp.Prelude.Lists.{find, any, All, All-append}
use foia_search_mcp.Prelude.Tables.{update_where}

module _ {A : Type 0} where
  abbrev pub Evolves : (A → Type 0) → (A → A → Type 0) → List A → List A → Type 0
  Evolves F R [] u = All F u
  Evolves F R (r ∷ t) [] = ⊥
  Evolves F R (r ∷ t) (s ∷ u) = ((r ≡ s) ⊎ R r s) × Evolves F R t u

module _ {A : Type 0} (F : A → Type 0) (R : A → A → Type 0) where
  pub Evolves-refl : (t : List A) → Evolves F R t t
  Evolves-refl [] = tt
  Evolves-refl (r ∷ t) = (inl refl, Evolves-refl t)

  pub Evolves-append : (t u : List A) → All F u → Evolves F R t (t ++ u)
  Evolves-append [] u h = h
  Evolves-append (r ∷ t) u h = (inl refl, Evolves-append t u h)

  -- An UPDATE changes rows by `R`, if it does so on the rows of the table that pass the test.
  pub Evolves-update_where :
      (p : A → Bool) (f : A → A) (t : List A)
      → ((r : A) → Memᴰ r t → p r ≡ true → R r (f r))
      → Evolves F R t (update_where p f t)
  Evolves-update_where p f [] h = tt
  Evolves-update_where p f (r ∷ t) h = (
    elim (Bool-cases (p r)) [
      | inl e ↦ rw e (inr (h r (Memᴰ.head refl) e))
      | inr e ↦ rw e (inl refl)
    ],
    Evolves-update_where p f t (λ x m. h x (Memᴰ.tail m)),
  )

  -- What all rows satisfy, if changes and new rows do.
  pub Evolves-All :
      (P : A → Type 0)
      → ((r : A) → F r → P r)
      → ((r s : A) → R r s → P r → P s)
      → (t u : List A) → Evolves F R t u
      → All P t
      → All P u
  Evolves-All P new keeps [] [] e h = tt
  Evolves-All P new keeps [] (s ∷ u) e h = (new s e.0, Evolves-All P new keeps [] u e.1 tt)
  Evolves-All P new keeps (r ∷ t) [] e h = absurd e
  Evolves-All P new keeps (r ∷ t) (s ∷ u) e h = (
    elim e.0 [ inl same ↦ rw (sym same) h.0 | inr st ↦ keeps r s st h.0 ],
    Evolves-All P new keeps t u e.1 h.1,
  )

  same_test :
      (p : A → Bool) → ((r s : A) → R r s → p s ≡ p r) → (r s : A) → (r ≡ s) ⊎ R r s → p s ≡ p r
  same_test p keeps r s (inl e) = ap p (sym e)
  same_test p keeps r s (inr st) = keeps r s st

  -- The row that a query finds is found again, as it was or changed, if changes keep the test.
  pub Evolves-find :
      (p : A → Bool)
      → ((r s : A) → R r s → p s ≡ p r)
      → (t u : List A) (r : A) → Evolves F R t u
      → find p t ≡ some r
      → (s : A) × (find p u ≡ some s) × ((r ≡ s) ⊎ R r s)
  Evolves-find p keeps [] u r e h = cc
  Evolves-find p keeps (x ∷ t) [] r e h = absurd e
  Evolves-find p keeps (x ∷ t) (y ∷ u) r e h =
      let kept = same_test p keeps x y e.0 in
      elim (Bool-cases (p x)) [
        | inl hit ↦ let first : x ≡ r = ground arith in (y, rw (kept ∙ hit), rw (sym first) e.0)
        | inr miss ↦
            let (s, found, st) = Evolves-find p keeps t u r e.1 (ground arith) in
            (s, rw (kept ∙ miss) found, st)
      ]

pub All-Memᴰ : {A : Type 0} (P : A → Type 0) (t : List A) (a : A) → All P t → Memᴰ a t → P a
All-Memᴰ P [] a h m = elim m [ ]
All-Memᴰ P (r ∷ t) a h (Memᴰ.head e) = rw e h.0
All-Memᴰ P (r ∷ t) a h (Memᴰ.tail m) = All-Memᴰ P t a h.1 m

-- What every row of a table satisfies.
pub All-of-Memᴰ {κ} :
    {A : Type 0} {P : A → Type κ} (t : List A) → ((a : A) → Memᴰ a t → P a) → All P t
All-of-Memᴰ [] f = tt
All-of-Memᴰ (r ∷ t) f = (f r (Memᴰ.head refl), All-of-Memᴰ t (λ a m. f a (Memᴰ.tail m)))

-- A row that passes a test, and an UPDATE that keeps the test.
module _ {A : Type 0} (p : A → Bool) where
  pub any-Memᴰ : (t : List A) (a : A) → p a ≡ true → Memᴰ a t → any p t ≡ true
  any-Memᴰ [] a h m = elim m [ ]
  any-Memᴰ (r ∷ t) a h (Memᴰ.head e) = ground (arith, ap p e)
  any-Memᴰ (r ∷ t) a h (Memᴰ.tail m) = ground (arith, any-Memᴰ t a h m)

  pub any-append : (t u : List A) → any p t ≡ true → any p (t ++ u) ≡ true
  any-append [] u h = cc
  any-append (r ∷ t) u h = ground (arith, any-append t u)

  pub any-update_where :
      (q : A → Bool) (f : A → A) (t : List A)
      → ((r : A) → q r ≡ true → p (f r) ≡ p r)
      → any p t ≡ true
      → any p (update_where q f t) ≡ true
  any-update_where q f [] keeps h = h
  any-update_where q f (r ∷ t) keeps h = ground (arith, keeps r, any-update_where q f t keeps)

-- No two rows agree on the column `f`.
module _ {A B : Type 0} (f : A → B) where
  abbrev pub Distinct : List A → Type 0
  Distinct [] = Unit {0}
  Distinct (r ∷ t) = All (λ s. f s ≢ f r) t × Distinct t

  pub Distinct-eq : (t : List A) (a b : A) → Distinct t → Memᴰ a t → Memᴰ b t → f a ≡ f b → a ≡ b
  Distinct-eq [] a b d m m' k = elim m [ ]
  Distinct-eq (r ∷ t) a b d (Memᴰ.head e) (Memᴰ.head e') k = e ∙ sym e'
  Distinct-eq (r ∷ t) a b d (Memᴰ.head e) (Memᴰ.tail m) k =
      absurd (All-Memᴰ (λ s. f s ≢ f r) t b d.0 m (sym k ∙ ap f e))
  Distinct-eq (r ∷ t) a b d (Memᴰ.tail m) (Memᴰ.head e) k =
      absurd (All-Memᴰ (λ s. f s ≢ f r) t a d.0 m (k ∙ ap f e))
  Distinct-eq (r ∷ t) a b d (Memᴰ.tail m) (Memᴰ.tail m') k = Distinct-eq t a b d.1 m m' k

-- The row that a query returns is in the table, and passes the test.
pub find-Memᴰ :
    {A : Type 0} (p : A → Bool) (t : List A) (r : A) → find p t ≡ some r → Memᴰ r t × (p r ≡ true)
find-Memᴰ p [] r h = cc
find-Memᴰ p (x ∷ t) r h = elim (Bool-cases (p x)) [
  | inl hit ↦ let first : r ≡ x = ground arith in (Memᴰ.head first, rw first hit)
  | inr miss ↦ let (m, hit) = find-Memᴰ p t r (ground arith) in (Memᴰ.tail m, hit)
]

-- Where no row is inserted.
module _ {A : Type 0} (R : A → A → Type 0) where
  abbrev pub Alters : List A → List A → Type 0
  Alters t u = Evolves (λ _. ⊥) R t u

  pub Alters-Evolves : (F : A → Type 0) (t u : List A) → Alters t u → Evolves F R t u
  Alters-Evolves F [] [] e = tt
  Alters-Evolves F [] (s ∷ u) e = absurd e.0
  Alters-Evolves F (r ∷ t) [] e = absurd e
  Alters-Evolves F (r ∷ t) (s ∷ u) e = (e.0, Alters-Evolves F t u e.1)

  -- A column that changes leave alone stays a key.
  pub Alters-Distinct :
      {B : Type 0} (f : A → B)
      → ((r s : A) → R r s → f s ≡ f r)
      → (t u : List A) → Alters t u
      → Distinct f t
      → Distinct f u
  Alters-Distinct f keeps [] [] e d = tt
  Alters-Distinct f keeps [] (s ∷ u) e d = absurd e.0
  Alters-Distinct f keeps (r ∷ t) [] e d = absurd e
  Alters-Distinct f keeps (r ∷ t) (s ∷ u) e d =
      let same : f s ≡ f r = elim e.0 [ inl h ↦ ap f (sym h) | inr st ↦ keeps r s st ] in
      (
        Evolves-All (λ _. ⊥) R (λ x. f x ≢ f s) (λ x b. absurd b)
            (λ x y st ne h. ne (sym (keeps x y st) ∙ h)) t u e.1 (rw same d.0),
        Alters-Distinct f keeps t u e.1 d.1,
      )

  -- Such a column reads the same before and after.
  pub Alters-map :
      {B : Type 0} (f : A → B)
      → ((r s : A) → R r s → f s ≡ f r)
      → (t u : List A) → Alters t u
      → map f u ≡ map f t
  Alters-map f keeps [] [] e = refl
  Alters-map f keeps [] (s ∷ u) e = absurd e.0
  Alters-map f keeps (r ∷ t) [] e = absurd e
  Alters-map f keeps (r ∷ t) (s ∷ u) e =
      let same : f s ≡ f r = elim e.0 [ inl h ↦ ap f (sym h) | inr st ↦ keeps r s st ] in
      cc (same, Alters-map f keeps t u e.1)

-- A row with a fresh value of the column may be added.
module _ {A B : Type 0} (f : A → B) where
  pub Distinct-append :
      (t : List A) (a : A) → All (λ r. f r ≢ f a) t → Distinct f t → Distinct f (t ++ a ∷ [])
  Distinct-append [] a h d = (tt, tt)
  Distinct-append (r ∷ t) a h d = (
    All-append (λ s. f s ≢ f r) t (a ∷ []) d.0 ((λ e. h.0 (sym e)), tt),
    Distinct-append t a h.1 d.1,
  )
