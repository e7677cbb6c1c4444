-- ===== src/LiveStore/Positions.antt =====
-- The per-rule index of livestore.go against its description: a key's entry is the position of the
-- last row that carries the key.
use velocity_engine_backend.Prelude.{
  ℕ, zero, suc, ◌+◌, ◌<◌, String, ◌≡◌, refl, ap, List, [], ◌∷◌, ◌++◌, map, Option, none, some,
  if◌then◌else◌, ◌==◌, comparable_string, arith, length, get_elem?, set,
}
use velocity_engine_backend.Prelude.Maps.{Map, lookup, insert, lookup-insert}
use velocity_engine_backend.Json.{Row}
use velocity_engine_backend.Runtime.{Runtime}
use velocity_engine_backend.LiveStore.{row_composite_key, index_rows}
use text.Mathlib.TextEquality.{eq_iff}

unfoldable pub last_index : String → List String → Option ℕ
last_index ck [] = none
last_index ck (k ∷ ks) = elim (last_index ck ks) [
  | some j ↦ some (suc j)
  | none ↦ if k == ck then some 0 else none
]

pub last_index-append :
    (ck k : String) (ks : List String)
    → last_index ck (ks ++ k ∷ []) ≡ (if k == ck then some (length ks) else last_index ck ks)
unfolding last_index
last_index-append ck k [] = refl
last_index-append ck k (j ∷ ks) = ground (arith, last_index-append ck k ks)

-- What the last index points at.
pub get_elem?-last_index :
    (ck : String) (ks : List String) {j : ℕ} → last_index ck ks ≡ some j → get_elem? ks j ≡ some ck
unfolding last_index
get_elem?-last_index ck [] h = ground arith
get_elem?-last_index ck (k ∷ ks) {j = zero} h = ground (arith, eq_iff k ck)
get_elem?-last_index ck (k ∷ ks) {j = suc j} h = ground (arith, get_elem?-last_index ck ks {j = j})

pub map-set {ℓ κ} :
    {A : Type ℓ} {B : Type κ} (f : A → B) (xs : List A) (i : ℕ) (v : A)
    → map f (set xs i v) ≡ set (map f xs) i (f v)
map-set f [] i v = refl
map-set f (x ∷ xs) zero v = refl
map-set f (x ∷ xs) (suc i) v = ap (◌∷◌ (f x)) (map-set f xs i v)

pub set_same {ℓ} :
    {A : Type ℓ} (xs : List A) (i : ℕ) {v : A} → get_elem? xs i ≡ some v → set xs i v ≡ xs
set_same [] i h = refl
set_same (x ∷ xs) zero h = ground arith
set_same (x ∷ xs) (suc i) h = ap (◌∷◌ x) (set_same xs i h)

-- A value found at `i` under a map comes from a member at `i`.
pub lt_of_last_index :
    (ck : String) (ks : List String) {j : ℕ} → last_index ck ks ≡ some j → j < length ks
unfolding last_index
lt_of_last_index ck [] h = ground arith
lt_of_last_index ck (k ∷ ks) {j = zero} h = omega arith
lt_of_last_index ck (k ∷ ks) {j = suc j} h = ground (arith, lt_of_last_index ck ks {j = j})

-- rebuildRuleIndex's loop records, for each key, its last position.
module _ (rt : Runtime) where
  shifted : ℕ → Option ℕ → Option ℕ → Option ℕ
  shifted i none old = old
  shifted i (some j) old = some (i + j)

  lookup-index_rows_from :
      (ck : String) (i : ℕ) (rows : List Row) (sub : Map String ℕ)
      → lookup ck (index_rows rt i rows sub)
        ≡ shifted i (last_index ck (map (row_composite_key rt) rows)) (lookup ck sub)
  unfolding index_rows last_index shifted
  lookup-index_rows_from ck i [] sub = refl
  lookup-index_rows_from ck i (row ∷ rows) sub = ground (
    arith,
    lookup-index_rows_from ck (suc i) rows (insert (row_composite_key rt row) i sub),
    lookup-insert (row_composite_key rt row) ck i sub,
  )

  pub lookup-index_rows :
      (ck : String) (rows : List Row)
      → lookup ck (index_rows rt 0 rows []) ≡ last_index ck (map (row_composite_key rt) rows)
  unfolding lookup shifted
  lookup-index_rows ck rows = ground (arith, lookup-index_rows_from ck 0 rows [])
