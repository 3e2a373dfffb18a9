-- ===== src/Common/Map.antt =====
-- Go's maps as association lists. The order of iteration is the order of the list, which Go leaves
-- open; no theorem depends on it.
use Prim.Native.Nat.{ℕ, ◌+◌, ◌≤◌}
use mathlib.Core.Path.{◌≡◌, refl}
use mathlib.Core.List.{List, [], ◌∷◌}
use mathlib.Core.Option.{Option, none, some}
use native.Mathlib.Omega.{arith}
use run_secure.Common.Tests.{Comparable, ◌==◌, if◌then◌else◌}

abbrev pub Map {ℓ κ} : Type ℓ → Type κ → Type (ℓ ⊔ κ)
Map K V = List (K × V)

module _ {ℓ κ} {K : Type ℓ} {V : Type κ} ⦃e : Comparable K⦄ where
  -- m[k] = v
  unfoldable pub insert : K → V → Map K V → Map K V
  insert k v [] = (k, v) ∷ []
  insert k v ((key, old) ∷ rest) =
      if key == k then (key, v) ∷ rest else (key, old) ∷ insert k v rest

  -- v, ok := m[k]
  unfoldable pub lookup : K → Map K V → Option V
  lookup k [] = none
  lookup k ((key, v) ∷ rest) = if key == k then some v else lookup k rest

  -- delete(m, k)
  unfoldable pub remove : K → Map K V → Map K V
  remove k [] = []
  remove k ((j, w) ∷ m) = if j == k then remove k m else (j, w) ∷ remove k m

  pub lookup-insert :
      (new asked : K) (v : V) (m : Map K V)
      → lookup asked (insert new v m) ≡ (if new == asked then some v else lookup asked m)
  unfolding lookup insert
  lookup-insert new asked v [] = refl
  lookup-insert new asked v ((key, old) ∷ rest) = ground (
    arith,
    lookup-insert new asked v rest,
    e.equal_iff new asked,
    e.equal_iff key new,
    e.equal_iff key asked,
  )

  pub lookup-remove :
      (k j : K) (m : Map K V) → lookup j (remove k m) ≡ (if k == j then none else lookup j m)
  unfolding lookup remove
  lookup-remove k j [] = ground arith
  lookup-remove k j ((i, w) ∷ m) =
      ground (arith, e.equal_iff k j, e.equal_iff i k, e.equal_iff i j, lookup-remove k j m)

  -- The sum of a measure over the entries.
  abbrev pub total : (K → V → ℕ) → Map K V → ℕ
  total f [] = 0
  total f ((k, v) ∷ m) = f k v + total f m

  abbrev pub measure : (K → V → ℕ) → K → Option V → ℕ
  measure f k none = 0
  measure f k (some v) = f k v

  pub total-insert :
      (f : K → V → ℕ) (k : K) (v : V) (m : Map K V)
      → total f (insert k v m) + measure f k (lookup k m) ≡ total f m + f k v
  unfolding lookup insert
  total-insert f k v [] = omega arith
  total-insert f k v ((j, w) ∷ m) = ground (arith, e.equal_iff j k, total-insert f k v m)

  pub measure-le-total :
      (f : K → V → ℕ) (k : K) (m : Map K V) → measure f k (lookup k m) ≤ total f m
  unfolding lookup
  measure-le-total f k [] = omega arith
  measure-le-total f k ((j, w) ∷ m) = ground (arith, e.equal_iff j k, measure-le-total f k m)

  -- A key stands once.
  abbrev pub Distinct : Map K V → Type (ℓ ⊔ κ)
  Distinct [] = Unit
  Distinct ((k, v) ∷ m) = (lookup k m ≡ none) × Distinct m

  pub insert-Distinct : (k : K) (v : V) (m : Map K V) → Distinct m → Distinct (insert k v m)
  unfolding lookup insert
  insert-Distinct k v [] d = (refl, tt)
  insert-Distinct k v ((j, w) ∷ m) d =
      ground (arith, e.equal_iff j k, e.equal_iff k j, insert-Distinct k v m, lookup-insert k j v m)

  pub remove-Distinct : (k : K) (m : Map K V) → Distinct m → Distinct (remove k m)
  unfolding lookup remove
  remove-Distinct k [] d = tt
  remove-Distinct k ((j, w) ∷ m) d =
      ground (arith, e.equal_iff j k, e.equal_iff k j, remove-Distinct k m, lookup-remove k j m)

  remove_absent : (k : K) (m : Map K V) → lookup k m ≡ none → remove k m ≡ m
  unfolding lookup remove
  remove_absent k [] h = refl
  remove_absent k ((j, w) ∷ m) h = ground (arith, remove_absent k m)

  pub total-remove :
      (f : K → V → ℕ) (k : K) (m : Map K V)
      → Distinct m
      → total f (remove k m) + measure f k (lookup k m) ≡ total f m
  unfolding lookup remove
  total-remove f k [] d = omega arith
  total-remove f k ((j, w) ∷ m) d =
      ground (arith, e.equal_iff j k, total-remove f k m, remove_absent k m)
