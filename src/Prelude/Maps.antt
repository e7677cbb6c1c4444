-- ===== src/Prelude/Maps.antt =====
-- Go's `map[K]V` as an association list. A range over the map walks the list, so a statement over
-- every list covers every order in which Go may walk the map.
use velocity_engine_backend.Prelude.Tests.{if◌then◌else◌, Bool-cases}
use velocity_engine_backend.Prelude.Equality.{Comparable, ◌==◌}
use mathlib.Core.Path.{◌≡◌, refl}
use mathlib.Core.Logic.{◌≢◌, inl, inr}
use mathlib.Core.List.{List, [], ◌∷◌}
use mathlib.Core.Option.{Option, none, some}
use native.Mathlib.Omega.{arith}

abbrev pub Map {ℓ κ} : Type ℓ → Type κ → Type (ℓ ⊔ κ)
Map K V = List (K × V)

module _ {ℓ κ} {K : Type ℓ} {V : Type κ} ⦃e : Comparable K⦄ where
  -- `v, ok := m[k]`
  unfoldable pub lookup : K → Map K V → Option V
  lookup k [] = none
  lookup k ((j, v) ∷ m) = if j == k then some v else lookup k m

  -- `m[k] = v`
  unfoldable pub insert : K → V → Map K V → Map K V
  insert k v [] = (k, v) ∷ []
  insert k v ((j, w) ∷ m) = if j == k then (j, v) ∷ m else (j, w) ∷ insert k v m

  -- `delete(m, k)`
  unfoldable pub remove : K → Map K V → Map K V
  remove k [] = []
  remove k ((j, w) ∷ m) = if j == k then m else (j, w) ∷ remove k m

  -- No key stands twice, as in every Go map.
  abbrev pub IsUnique : Map K V → Type κ
  IsUnique [] = Unit
  IsUnique ((j, w) ∷ m) = (lookup j m ≡ none) × IsUnique m

  -- A write is seen under its own key and under no other.
  pub lookup-insert :
      (written read : K) (value : V) (m : Map K V)
      → lookup read (insert written value m)
        ≡ (if written == read then some value else lookup read m)
  unfolding lookup insert
  lookup-insert written read value [] = refl
  lookup-insert written read value ((key, old) ∷ rest) = ground (
    arith,
    lookup-insert written read value rest,
    e.agrees key written,
    e.agrees key read,
    e.agrees written read,
  )

  pub lookup-insert_self : (k : K) (v : V) (m : Map K V) → lookup k (insert k v m) ≡ some v
  lookup-insert_self k v m = ground (arith, lookup-insert k k v m, e.agrees k k)

  pub lookup-insert_ne :
      (k j : K) (v : V) (m : Map K V) → k ≢ j → lookup j (insert k v m) ≡ lookup j m
  lookup-insert_ne k j v m h = ground (arith, lookup-insert k j v m, e.agrees k j)

  pub lookup-remove :
      (k j : K) (m : Map K V)
      → IsUnique m
      → lookup j (remove k m) ≡ (if k == j then none else lookup j m)
  unfolding lookup remove
  lookup-remove k j [] u = ground arith
  lookup-remove k j ((i, w) ∷ m) u =
      ground (arith, e.agrees k j, e.agrees i k, e.agrees i j, lookup-remove k j m u.1)

  pub lookup-remove-none :
      (k j : K) (m : Map K V) → lookup j m ≡ none → lookup j (remove k m) ≡ none
  unfolding lookup remove
  lookup-remove-none k j [] h = refl
  lookup-remove-none k j ((i, w) ∷ m) h = ground (arith, lookup-remove-none k j m)

  pub insert-IsUnique : (k : K) (v : V) (m : Map K V) → IsUnique m → IsUnique (insert k v m)
  unfolding lookup insert
  insert-IsUnique k v [] u = (refl, tt)
  insert-IsUnique k v ((i, w) ∷ m) u = elim (Bool-cases (i == k)) [
    | inl q ↦ rw q u
    | inr q ↦ rw q (
      ground (arith, lookup-insert k i v m, e.agrees k i, e.agrees i k),
      insert-IsUnique k v m u.1,
    )
  ]

  pub remove-IsUnique : (k : K) (m : Map K V) → IsUnique m → IsUnique (remove k m)
  unfolding lookup remove
  remove-IsUnique k [] u = tt
  remove-IsUnique k ((i, w) ∷ m) u = elim (Bool-cases (i == k)) [
    | inl q ↦ rw q u.1
    | inr q ↦ rw q (lookup-remove-none k i m u.0, remove-IsUnique k m u.1)
  ]
