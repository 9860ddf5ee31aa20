-- ===== src/Prelude/Maps.antt =====
-- Maps as lists of entries, each key once: `insert`, `entry(…).or_default().push(…)`, `remove`.
use mathlib.Core.Path.{◌≡◌, refl, sym}
use mathlib.Core.Logic.{◌≢◌, ◌↔◌, inl, inr}
use mathlib.Core.Bool.{Bool, true, false}
use mathlib.Core.Option.{Option, none, some}
use mathlib.Core.List.{List, [], ◌∷◌, ◌++◌, append-nil, append_assoc}
use native.Mathlib.Omega.{arith}
use foia_search_mcp.Prelude.Tests.{if◌then◌else◌, Bool-cases}
use foia_search_mcp.Prelude.Lists.{keep, is_empty, All}
use foia_search_mcp.Prelude.Tables.{delete_where}
use foia_search_mcp.Prelude.Evolution.{Distinct}

module _ {K : Type 0} (eq : K → K → Bool) where
  module _ {V : Type 0} where
    abbrev pub map_get : K → List (K × V) → Option V
    map_get k [] = none
    map_get k (e ∷ m) = if eq e.0 k then some e.1 else map_get k m

    -- A key that is new comes last: the maps are filled in the order of their keys.
    abbrev pub map_insert : K → V → List (K × V) → List (K × V)
    map_insert k v [] = (k, v) ∷ []
    map_insert k v (e ∷ m) = if eq e.0 k then (k, v) ∷ m else e ∷ map_insert k v m

    abbrev pub map_remove : K → List (K × V) → List (K × V)
    map_remove k m = delete_where (λ e. eq e.0 k) m

    abbrev pub map_push : K → V → List (K × List V) → List (K × List V)
    map_push k v [] = (k, v ∷ []) ∷ []
    map_push k v (e ∷ m) = if eq e.0 k then (e.0, e.1 ++ v ∷ []) ∷ m else e ∷ map_push k v m

    -- The values that were pushed under a key.
    abbrev pub pushed : K → List (K × List V) → List V
    pushed k [] = []
    pushed k (e ∷ m) = if eq e.0 k then e.1 else pushed k m

  module _ {V : Type 0} (key : V → K) where
    abbrev pub has_map_key : K → V → Bool
    has_map_key k r = eq (key r) k

    -- Each entry stands under its own key, and each key once.
    abbrev pub IsKeyed : List (K × V) → Type 0
    IsKeyed m = All (λ e. key e.1 ≡ e.0) m × Distinct (λ e. e.0) m

    -- A map of rows under their keys, of which a later one replaces an earlier.
    abbrev pub rows_by_key : List V → List (K × V) → List (K × V)
    rows_by_key [] m = m
    rows_by_key (r ∷ rows) m = rows_by_key rows (map_insert (key r) r m)

    abbrev pub groups_by_key : List V → List (K × List V) → List (K × List V)
    groups_by_key [] m = m
    groups_by_key (r ∷ rows) m = groups_by_key rows (map_push (key r) r m)

-- The last element, if there is one.
abbrev pub last_or {ℓ} : {A : Type ℓ} → Option A → List A → Option A
last_or o [] = o
last_or o (x ∷ xs) = last_or (some x) xs

is_empty-append {ℓ} : {A : Type ℓ} (xs : List A) (x : A) → is_empty (xs ++ x ∷ []) ≡ false
is_empty-append [] x = refl
is_empty-append (y ∷ ys) x = refl

-- Where the test of keys is equality.
module _ {K : Type 0} (eq : K → K → Bool) (eq_path : (a b : K) → (eq a b ≡ true) ↔ (a ≡ b)) where
  module _ {V : Type 0} where
    pub map_insert-All :
        (P : K × V → Type 0) (k : K) (v : V) (m : List (K × V))
        → P (k, v)
        → All P m
        → All P (map_insert eq k v m)
    map_insert-All P k v [] x h = (x, tt)
    map_insert-All P k v (e ∷ m) x h = elim (Bool-cases (eq e.0 k)) [
      | inl same ↦ rw same (x, h.1)
      | inr other ↦ rw other (h.0, map_insert-All P k v m x h.1)
    ]

    map_insert-Distinct :
        (k : K) (v : V) (m : List (K × V))
        → Distinct (λ e. e.0) m
        → Distinct (λ e. e.0) (map_insert eq k v m)
    map_insert-Distinct k v [] d = (tt, tt)
    map_insert-Distinct k v (e ∷ m) d = elim (Bool-cases (eq e.0 k)) [
      | inl same ↦ rw same (rw ((eq_path e.0 k).0 same) at d)
      | inr other ↦ rw other (
        map_insert-All (λ s. s.0 ≢ e.0) k v m (λ h. ground (arith, eq_path e.0 k, sym h)) d.0,
        map_insert-Distinct k v m d.1,
      )
    ]

    map_get-insert :
        (j k : K) (v : V) (m : List (K × V))
        → map_get eq j (map_insert eq k v m) ≡ (if eq k j then some v else map_get eq j m)
    map_get-insert j k v [] = refl
    map_get-insert j k v (e ∷ m) = elim (Bool-cases (eq e.0 k)) [
      | inl same ↦ rw (same, (eq_path e.0 k).0 same) (ground arith)
      | inr other ↦
          ground (arith, map_get-insert j k v m, eq_path e.0 j, eq_path k j, eq_path e.0 k)
    ]

    pub map_get-none : (k : K) (m : List (K × V)) → All (λ e. e.0 ≢ k) m → map_get eq k m ≡ none
    map_get-none k [] h = refl
    map_get-none k (e ∷ m) h = ground (arith, h.0, eq_path e.0 k, map_get-none k m h.1)

    pub pushed-push :
        (j k : K) (v : V) (m : List (K × List V))
        → pushed eq j (map_push eq k v m)
          ≡ (if eq k j then pushed eq j m ++ v ∷ [] else pushed eq j m)
    pushed-push j k v [] = refl
    pushed-push j k v (e ∷ m) =
        ground (arith, pushed-push j k v m, eq_path e.0 j, eq_path k j, eq_path e.0 k)

    pub pushed-remove_self : (k : K) (m : List (K × List V)) → pushed eq k (map_remove eq k m) ≡ []
    pushed-remove_self k [] = refl
    pushed-remove_self k (e ∷ m) = ground (arith, pushed-remove_self k m)

    pub pushed-remove_other :
        (j k : K) (m : List (K × List V))
        → eq k j ≡ false
        → pushed eq j (map_remove eq k m) ≡ pushed eq j m
    pushed-remove_other j k [] h = refl
    pushed-remove_other j k (e ∷ m) h =
        ground (arith, pushed-remove_other j k m h, eq_path e.0 j, eq_path k j, eq_path e.0 k)

  module _ {V : Type 0} (key : V → K) where
    pub rows_by_key-IsKeyed :
        (rows : List V) (m : List (K × V))
        → IsKeyed eq key m
        → IsKeyed eq key (rows_by_key eq key rows m)
    rows_by_key-IsKeyed [] m h = h
    rows_by_key-IsKeyed (r ∷ rows) m h = rows_by_key-IsKeyed rows (map_insert eq (key r) r m) (
      map_insert-All (λ e. key e.1 ≡ e.0) (key r) r m refl h.0,
      map_insert-Distinct (key r) r m h.1,
    )

    -- Of the rows with one key the map has the last.
    pub map_get-rows_by_key :
        (j : K) (rows : List V) (m : List (K × V))
        → map_get eq j (rows_by_key eq key rows m)
          ≡ last_or (map_get eq j m) (keep (has_map_key eq key j) rows)
    map_get-rows_by_key j [] m = refl
    map_get-rows_by_key j (r ∷ rows) m =
        let later = map_get-rows_by_key j rows (map_insert eq (key r) r m) in
        elim (Bool-cases (has_map_key eq key j r)) [
          | inl same ↦ rw (later, map_get-insert j (key r) r m, same)
          | inr other ↦ rw (later, map_get-insert j (key r) r m, other)
        ]

    -- The group of a key has its rows in their order.
    pub pushed-groups_by_key :
        (j : K) (rows : List V) (m : List (K × List V))
        → pushed eq j (groups_by_key eq key rows m)
          ≡ pushed eq j m ++ keep (has_map_key eq key j) rows
    pushed-groups_by_key j [] m = sym (append-nil (pushed eq j m))
    pushed-groups_by_key j (r ∷ rows) m =
        let later = pushed-groups_by_key j rows (map_push eq (key r) r m) in
        elim (Bool-cases (has_map_key eq key j r)) [
          | inl same ↦
              rw (later, pushed-push j (key r) r m, same)
                (append_assoc (pushed eq j m) (r ∷ []) (keep (has_map_key eq key j) rows))
          | inr other ↦ rw (later, pushed-push j (key r) r m, other)
        ]

    map_push-All :
        (k : K) (v : V) (m : List (K × List V))
        → All (λ e. is_empty e.1 ≡ false) m
        → All (λ e. is_empty e.1 ≡ false) (map_push eq k v m)
    map_push-All k v [] h = (refl, tt)
    map_push-All k v (e ∷ m) h = elim (Bool-cases (eq e.0 k)) [
      | inl same ↦ rw same (is_empty-append e.1 v, h.1)
      | inr other ↦ rw other (h.0, map_push-All k v m h.1)
    ]

    -- No group is empty.
    pub groups_by_key-All :
        (rows : List V) (m : List (K × List V))
        → All (λ e. is_empty e.1 ≡ false) m
        → All (λ e. is_empty e.1 ≡ false) (groups_by_key eq key rows m)
    groups_by_key-All [] m h = h
    groups_by_key-All (r ∷ rows) m h =
        groups_by_key-All rows (map_push eq (key r) r m) (map_push-All (key r) r m h)
