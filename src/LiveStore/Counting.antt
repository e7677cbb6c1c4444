-- ===== src/LiveStore/Counting.antt =====
-- The number of rows in the table of livestore.go, under map writes and deletions.
use velocity_engine_backend.Prelude.{
  ℕ, ◌+◌, ◌≤◌, String, ◌≡◌, List, [], ◌∷◌, arith, length, comparable_string,
}
use velocity_engine_backend.Prelude.Maps.{Map, lookup, insert, remove}
use velocity_engine_backend.Json.{Row}
use velocity_engine_backend.LiveStore.{rows_of}

unfoldable pub count_rows : Map String (List Row) → ℕ
count_rows [] = 0
count_rows ((rid, rows) ∷ m) = length rows + count_rows m

pub count_rows-insert :
    (rid : String) (rows : List Row) (m : Map String (List Row))
    → count_rows (insert rid rows m) + length (rows_of rid m) ≡ count_rows m + length rows
unfolding count_rows insert rows_of lookup
count_rows-insert rid rows [] = omega arith
count_rows-insert rid rows ((j, r) ∷ m) = ground (arith, count_rows-insert rid rows m)

pub count_rows-remove :
    (rid : String) (m : Map String (List Row))
    → count_rows (remove rid m) + length (rows_of rid m) ≡ count_rows m
unfolding count_rows remove rows_of lookup
count_rows-remove rid [] = omega arith
count_rows-remove rid ((j, r) ∷ m) = ground (arith, count_rows-remove rid m)

pub length-rows_of-le :
    (rid : String) (m : Map String (List Row)) → length (rows_of rid m) ≤ count_rows m
length-rows_of-le rid m = omega (arith, count_rows-remove rid m)
