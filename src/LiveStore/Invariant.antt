-- ===== src/LiveStore/Invariant.antt =====
-- What holds of livestore.go's store between two calls: the row counter counts the rows, and each
-- rule's index sends a composite key to the last row that carries it.
use velocity_engine_backend.Prelude.{
  ℕ, String, ◌≡◌, List, map, none, arith, comparable_string, ◌==◌, if◌then◌else◌, refl,
}
use velocity_engine_backend.Prelude.Maps.{Map, lookup, IsUnique, insert, lookup-insert}
use velocity_engine_backend.Json.{Row}
use velocity_engine_backend.Runtime.{Runtime}
use velocity_engine_backend.LiveStore.{
  LiveStore, rows_of, positions_of, row_composite_key, new_live_store,
}
use velocity_engine_backend.LiveStore.Positions.{last_index}
use velocity_engine_backend.LiveStore.Counting.{count_rows}

module _ (rt : Runtime) where
  abbrev pub keys_of : String → LiveStore → List String
  keys_of rid s = map (row_composite_key rt) (rows_of rid s.table)

  pub record IsConsistent (s : LiveStore) : Type 0 where
    pub unique : IsUnique s.table
    pub unique_index : IsUnique s.index
    pub named : lookup "" s.table ≡ none
    pub counted : count_rows s.table ≡ s.total_rows
    pub indexed :
        (rid ck : String) → lookup ck (positions_of rid s.index) ≡ last_index ck (keys_of rid s)

  -- NewLiveStore's store is consistent.
  pub new_live_store-IsConsistent :
      (max_rows hours : ℕ) → IsConsistent (new_live_store max_rows hours)
  unfolding new_live_store lookup count_rows positions_of rows_of last_index
  new_live_store-IsConsistent max_rows hours = record {
    unique = tt;
    unique_index = tt;
    named = refl;
    counted = refl;
    indexed = λ rid ck. refl;
  }

pub rows_of-insert :
    (rid j : String) (rows : List Row) (m : Map String (List Row))
    → rows_of j (insert rid rows m) ≡ (if rid == j then rows else rows_of j m)
unfolding rows_of
rows_of-insert rid j rows m = ground (arith, lookup-insert rid j rows m)

pub positions_of-insert :
    (rid j : String) (sub : Map String ℕ) (m : Map String (Map String ℕ))
    → positions_of j (insert rid sub m) ≡ (if rid == j then sub else positions_of j m)
unfolding positions_of
positions_of-insert rid j sub m = ground (arith, lookup-insert rid j sub m)
