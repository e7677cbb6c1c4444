-- ===== src/LiveStore/Trim.antt =====
-- trimExcess of livestore.go: it ends with exactly the excess gone, counts every row that it drops,
-- and keeps the store consistent.
use text.Mathlib.TextEquality.{eq_iff}
use velocity_engine_backend.Prelude.{
  ℕ, zero, suc, ◌+◌, ◌-◌, ◌≤◌, ◌<◌, String, ◌≡◌, refl, false, List, [], ◌∷◌, none, if◌then◌else◌,
  ◌==◌, comparable_string, comparable_nat, arith, length, ltb, ◌⊎◌, Bool-cases, inl, inr, ◌∙◌,
}
use velocity_engine_backend.Prelude.Maps.{Map, lookup, IsUnique}
use velocity_engine_backend.Json.{Row}
use velocity_engine_backend.Runtime.{Runtime}
use velocity_engine_backend.LiveStore.{
  LiveStore, rows_of, largest, trim_round, trim_loop, trim_excess,
}
use velocity_engine_backend.LiveStore.Counting.{count_rows}
use velocity_engine_backend.LiveStore.Invariant.{IsConsistent}
use velocity_engine_backend.LiveStore.Front.{drop_front-IsConsistent, drop_front_counters}

rows_of_absent :
    (rid : String) (m : Map String (List Row)) → lookup rid m ≡ none → rows_of rid m ≡ []
unfolding rows_of
rows_of_absent rid m h = ground arith

-- The rows of a rule stay what they are when rules of other names are put in front.
rows_of-cons :
    (j rid : String) (rows : List Row) (m : Map String (List Row))
    → rows_of j ((rid, rows) ∷ m) ≡ (if rid == j then rows else rows_of j m)
unfolding rows_of lookup
rows_of-cons j rid rows m = ground arith

-- The search's count bounds every rule's.
largest-le : (m : Map String (List Row)) (best : String × ℕ) → best.1 ≤ (largest m best).1
unfolding largest
largest-le [] best = omega arith
largest-le ((rid, rows) ∷ m) best =
    ground (arith, largest-le m (if ltb best.1 (length rows) then (rid, length rows) else best))

-- The search ends at its start, or at a rule of the map.
largest_found :
    (m : Map String (List Row)) (best : String × ℕ)
    → IsUnique m
    → (largest m best ≡ best) ⊎ (length (rows_of (largest m best).0 m) ≡ (largest m best).1)
unfolding largest
largest_found [] best u = inl refl
largest_found ((rid, rows) ∷ m) best u = ground (
  arith,
  largest_found m (if ltb best.1 (length rows) then (rid, length rows) else best) u.1,
  largest-le m (if ltb best.1 (length rows) then (rid, length rows) else best),
  rows_of_absent rid m u.0,
  eq_iff rid (largest m (if ltb best.1 (length rows) then (rid, length rows) else best)).0,
  eq_iff rid rid,
  rows_of-cons rid rid rows m,
  rows_of-cons (largest m (if ltb best.1 (length rows) then (rid, length rows) else best)).0 rid
      rows m,
)

length-le-largest :
    (j : String) (m : Map String (List Row)) (best : String × ℕ)
    → length (rows_of j m) ≤ (largest m best).1
unfolding largest rows_of lookup
length-le-largest j [] best = omega arith
length-le-largest j ((rid, rows) ∷ m) best = ground (
  arith,
  length-le-largest j m (if ltb best.1 (length rows) then (rid, length rows) else best),
  largest-le m (if ltb best.1 (length rows) then (rid, length rows) else best),
)

-- Where the search finds no row, there is none.
count_rows_of_largest :
    (m : Map String (List Row)) (best : String × ℕ) → (largest m best).1 ≡ 0 → count_rows m ≡ 0
unfolding largest count_rows
count_rows_of_largest [] best h = refl
count_rows_of_largest ((rid, rows) ∷ m) best h = ground (
  arith,
  count_rows_of_largest m (if ltb best.1 (length rows) then (rid, length rows) else best),
  largest-le m (if ltb best.1 (length rows) then (rid, length rows) else best),
)

module _ (rt : Runtime) where
  -- trimExcess's loop from a consistent store, with enough rounds: exactly the excess goes, each
  -- dropped row is counted, and the store stays consistent.
  pub record IsTrimmed (excess : ℕ) (s t : LiveStore) : Type 0 where
    pub consistent : IsConsistent rt t
    pub total : t.total_rows ≡ s.total_rows - excess
    pub dropped : t.dropped_rows ≡ s.dropped_rows + excess
    pub max_same : t.max_rows ≡ s.max_rows

  -- From a store with rows the search finds a named rule that has rows.
  found_bounds :
      (s : LiveStore)
      → IsConsistent rt s
      → 0 < s.total_rows
      → ((largest s.table ("", 0)).0 == "" ≡ false)
        × ((largest s.table ("", 0)).1 == 0 ≡ false)
        × (length (rows_of (largest s.table ("", 0)).0 s.table) ≡ (largest s.table ("", 0)).1)
  found_bounds s h p = ground (
    arith,
    h.counted,
    largest_found s.table ("", 0) h.unique,
    count_rows_of_largest s.table ("", 0),
    rows_of_absent "" s.table h.named,
    eq_iff (largest s.table ("", 0)).0 "",
  )

  trim_round-IsTrimmed :
      (rid : String) (n : ℕ) (s : LiveStore)
      → (rid == "") ≡ false
      → n ≤ length (rows_of rid s.table)
      → IsConsistent rt s
      → IsTrimmed n s (trim_round rt rid n s)
  unfolding trim_round
  trim_round-IsTrimmed rid n s named fits h =
      let c = drop_front-IsConsistent rt rid n s named fits h in
      let counters = drop_front_counters rt rid n s in
      record {
        consistent = record {
          unique = c.unique;
          unique_index = c.unique_index;
          named = c.named;
          counted = c.counted;
          indexed = c.indexed;
        };
        total = counters.0;
        dropped = refl;
        max_same = counters.2;
      }

  IsTrimmed-trans :
      (a b c : ℕ) (s t u : LiveStore)
      → a + b ≡ c
      → IsTrimmed a s t
      → IsTrimmed b t u
      → IsTrimmed c s u
  IsTrimmed-trans a b c s t u e p q = record {
    consistent = q.consistent;
    total = omega (arith, p.total, q.total);
    dropped = omega (arith, p.dropped, q.dropped);
    max_same = q.max_same ∙ p.max_same;
  }

  not-IsTrimmed :
      (excess : ℕ) (s : LiveStore) → excess ≡ 0 → IsConsistent rt s → IsTrimmed excess s s
  not-IsTrimmed excess s e h = record {
    consistent = h;
    total = omega arith;
    dropped = omega arith;
    max_same = refl;
  }

  abbrev to_remove : ℕ → ℕ → ℕ
  to_remove count excess = if ltb count excess then count else excess

  to_remove_bounds :
      (count excess : ℕ)
      → (count == 0) ≡ false
      → (excess == 0) ≡ false
      → (to_remove count excess ≤ count)
        × (to_remove count excess + (excess - to_remove count excess) ≡ excess)
        × (0 < to_remove count excess)
  to_remove_bounds count excess c e = ground arith

  trim_loop-IsTrimmed :
      (fuel excess : ℕ) (s : LiveStore)
      → excess ≤ fuel
      → excess ≤ s.total_rows
      → IsConsistent rt s
      → IsTrimmed excess s (trim_loop rt fuel excess s)
  unfolding trim_loop
  trim_loop-IsTrimmed zero excess s f e h = not-IsTrimmed excess s (omega arith) h
  trim_loop-IsTrimmed (suc fuel) excess s f e h = elim (Bool-cases (excess == 0)) [
    | inl q ↦ rw q (not-IsTrimmed excess s (ground arith) h)
    | inr q ↦
        let (rid, count) = largest s.table ("", 0) in
        let found = found_bounds s h (ground arith) in
        let n = to_remove count excess in
        let bounds = to_remove_bounds count excess found.1 q in
        let round = trim_round-IsTrimmed rid n s found.0 (omega (arith, found.2, bounds.0)) h in
        rw (q, found.0, found.1)
          (IsTrimmed-trans n (excess - n) excess s (trim_round rt rid n s) _ bounds.1 round (
            trim_loop-IsTrimmed fuel (excess - n) (trim_round rt rid n s)
              (omega (arith, bounds.1, bounds.2)) (omega (arith, bounds.1, round.total))
              round.consistent))
  ]

  -- trimExcess from a consistent store brings the row count to `max_rows` at most, counts each row
  -- that it drops, and keeps the store consistent.
  pub trim_excess-IsTrimmed :
      (s : LiveStore)
      → IsConsistent rt s
      → IsTrimmed (s.total_rows - s.max_rows) s (trim_excess rt s)
  unfolding trim_excess
  trim_excess-IsTrimmed s h =
      trim_loop-IsTrimmed (s.total_rows - s.max_rows) (s.total_rows - s.max_rows) s (omega arith)
        (omega arith) h
