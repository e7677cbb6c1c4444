-- ===== src/LiveStore.antt =====
-- internal/services/livestore.go: the in-memory rolling store of live rule results. A method is a
-- function on the state; each runs under the store's mutex, so a call is one step.
pub mod Filled
pub mod Positions
pub mod Counting
pub mod Invariant
pub mod Front
pub mod Trim
pub mod Upsert
pub mod Bounded
pub mod Find
pub mod Prune
use velocity_engine_backend.Prelude.{
  ℕ, zero, suc, ◌+◌, ◌-◌, String, Bool, true, false, ◌||◌, List, [], ◌∷◌, ◌++◌, Option, none, some,
  if◌then◌else◌, ◌==◌, ltb, nat_beq, comparable_string, comparable_nat, length, get_elem?, set,
  drop, str_append, leb, map, ◌*◌,
}
use velocity_engine_backend.Prelude.Maps.{Map, lookup, insert, remove}
use velocity_engine_backend.Json.{Value, Row, at, as_string, str, int64, float}
use velocity_engine_backend.Runtime.{Runtime}

-- `table` is the source's `data`: the ordered rows of each rule.
pub record LiveStore : Type 0 where
  pub table : Map String (List Row)
  pub index : Map String (Map String ℕ)
  pub total_rows : ℕ
  pub dropped_rows : ℕ
  pub max_rows : ℕ
  pub hours : ℕ

-- `s.data[rid]` and `s.index[rid]`: a missing key reads as nil.
unfoldable pub rows_of : String → Map String (List Row) → List Row
rows_of rid m = elim (lookup rid m) [ none ↦ [] | some rows ↦ rows ]

unfoldable pub positions_of : String → Map String (Map String ℕ) → Map String ℕ
positions_of rid m = elim (lookup rid m) [ none ↦ [] | some sub ↦ sub ]

unfoldable pub new_live_store : ℕ → ℕ → LiveStore
new_live_store max_rows hours = record {
  table = [];
  index = [];
  total_rows = 0;
  dropped_rows = 0;
  max_rows = max_rows;
  hours = hours;
}

-- The name that stands in for a missing rule id.
unfoldable pub or_unknown : String → String
or_unknown rule_id = if rule_id == "" then "unknown" else rule_id

-- The rule under which a row is filed.
unfoldable pub rule_id_of : Row → String
unfolding or_unknown at lookup
rule_id_of row = or_unknown (as_string (at "ruleId" row))

-- The search of trimExcess for the rule with the most rows; a tie goes to the first.
unfoldable pub largest : Map String (List Row) → String × ℕ → String × ℕ
largest [] best = best
largest ((rid, rows) ∷ m) best =
    largest m (if ltb best.1 (length rows) then (rid, length rows) else best)

module _ (rt : Runtime) where
  unfoldable pub row_composite_key : Row → String
  unfolding at lookup
  row_composite_key row =
      str_append (as_string (at "groupKey" row))
        (str_append "\0" (rt.sprint (at "windowStart" row)))

  -- rebuildRuleIndex's loop: a later row of the same key takes the entry over.
  unfoldable pub index_rows : ℕ → List Row → Map String ℕ → Map String ℕ
  unfolding row_composite_key insert
  index_rows i [] sub = sub
  index_rows i (row ∷ rows) sub = index_rows (suc i) rows (insert (row_composite_key row) i sub)

  unfoldable pub rebuild_rule_index : String → LiveStore → LiveStore
  unfolding rows_of index_rows insert remove
  rebuild_rule_index rid s = elim (rows_of rid s.table) [
    | [] ↦ record s { index = remove rid s.index }
    | row ∷ rows ↦ record s { index = insert rid (index_rows 0 (row ∷ rows) []) s.index }
  ]

  -- The part that pruneStale and trimExcess share: `n` rows leave the front of a rule, and the rule
  -- goes with its last row.
  unfoldable pub drop_front : String → ℕ → LiveStore → LiveStore
  unfolding rows_of insert remove rebuild_rule_index
  drop_front rid n s =
      let rows = drop n (rows_of rid s.table) in
      let kept : LiveStore = record s {
        table = insert rid rows s.table;
        total_rows = s.total_rows - n;
      } in
      elim rows [
        | [] ↦ record kept { table = remove rid kept.table; index = remove rid s.index }
        | _ ∷ _ ↦ rebuild_rule_index rid kept
      ]

  -- One round of trimExcess, on the rule that the search found.
  unfoldable pub trim_round : String → ℕ → LiveStore → LiveStore
  unfolding drop_front
  trim_round rid to_remove s = record (drop_front rid to_remove s) {
    dropped_rows = s.dropped_rows + to_remove;
  }

  -- The loop of trimExcess. Each round removes a row at least, so `excess` rounds are enough fuel.
  unfoldable pub trim_loop : ℕ → ℕ → LiveStore → LiveStore
  unfolding largest trim_round
  trim_loop zero excess s = s
  trim_loop (suc fuel) excess s =
      let (rid, count) = largest s.table ("", 0) in
      let to_remove = if ltb count excess then count else excess in
      let rest = trim_loop fuel (excess - to_remove) (trim_round rid to_remove s) in
      if excess == 0 then s else if rid == "" || count == 0 then s else rest

  unfoldable pub trim_excess : LiveStore → LiveStore
  unfolding trim_loop
  trim_excess s = let excess = s.total_rows - s.max_rows in trim_loop excess excess s

  -- Add. `none` is Go's panic at an index that is out of range.
  unfoldable pub add : Row → LiveStore → Option LiveStore
  unfolding rule_id_of row_composite_key lookup rows_of positions_of insert trim_excess
  add row s =
      let rid = rule_id_of row in
      let ck = row_composite_key row in
      let rows = rows_of rid s.table in
      let sub = positions_of rid s.index in
      elim (lookup ck sub) [
        | some pos ↦
            if ltb pos (length rows)
            then some (record s {
              table = insert rid (set rows pos row) s.table;
              index = insert rid sub s.index;
            })
            else none
        | none ↦
            let appended : LiveStore = record s {
              table = insert rid (rows ++ row ∷ []) s.table;
              index = insert rid (insert ck (length rows) sub) s.index;
              total_rows = s.total_rows + 1;
            } in
            some (if ltb s.max_rows appended.total_rows then trim_excess appended else appended)
      ]

  -- Bootstrap: the first loop, and the loop that rebuilds the indexes.
  unfoldable pub file_rows : List Row → LiveStore → LiveStore
  unfolding rule_id_of rows_of insert
  file_rows [] s = s
  file_rows (row ∷ rows) s =
      let rid = rule_id_of row in
      file_rows rows (record s {
        table = insert rid (rows_of rid s.table ++ row ∷ []) s.table;
        total_rows = s.total_rows + 1;
      })

  unfoldable pub rebuild_all : Map String (List Row) → LiveStore → LiveStore
  unfolding rebuild_rule_index
  rebuild_all [] s = s
  rebuild_all ((rid, _) ∷ m) s = rebuild_all m (rebuild_rule_index rid s)

  unfoldable pub bootstrap : List Row → LiveStore → LiveStore
  unfolding file_rows rebuild_all
  bootstrap rows s =
      let filed = file_rows rows (record s { table = []; index = []; total_rows = 0 }) in
      rebuild_all filed.table filed

  -- parseWindowStart
  unfoldable pub parse_window_start : Value → Option ℕ
  parse_window_start (str s) = if s == "" then none else elim (rt.parse_ist s) [
    | some t ↦ some t
    | none ↦ elim (rt.parse_rfc3339 s) [ some t ↦ some t | none ↦ rt.parse_naive_iso s ]
  ]
  parse_window_start (int64 n) = some (rt.unix_ms (int64 n))
  parse_window_start (float n) = some (rt.unix_ms (float n))
  parse_window_start _ = none

  -- The test of pruneStale's inner loop: the row is parsed and not after the cutoff.
  unfoldable pub is_stale : ℕ → Row → Bool
  unfolding parse_window_start at lookup
  is_stale cutoff row = elim (parse_window_start (at "windowStart" row)) [
    | none ↦ false
    | some t ↦ leb t cutoff
  ]

  unfoldable pub stale_prefix : ℕ → List Row → ℕ
  unfolding is_stale
  stale_prefix cutoff [] = 0
  stale_prefix cutoff (row ∷ rows) =
      if is_stale cutoff row then suc (stale_prefix cutoff rows) else 0

  unfoldable pub prune_rule : ℕ → String → LiveStore → LiveStore
  unfolding rows_of stale_prefix drop_front remove
  prune_rule cutoff rid s =
      let rows = rows_of rid s.table in
      let start = stale_prefix cutoff rows in
      let untouched : LiveStore = elim rows [
        | [] ↦ record s { table = remove rid s.table; index = remove rid s.index }
        | _ ∷ _ ↦ s
      ] in
      if start == 0 then untouched else drop_front rid start s

  unfoldable pub prune_rules : ℕ → List String → LiveStore → LiveStore
  unfolding prune_rule
  prune_rules cutoff [] s = s
  prune_rules cutoff (rid ∷ rids) s = prune_rules cutoff rids (prune_rule cutoff rid s)

  -- pruneStale at the instant `now`, in nanoseconds: the keys as the range meets them.
  unfoldable pub prune_stale : ℕ → LiveStore → LiveStore
  unfolding prune_rules
  prune_stale now s =
      prune_rules (now - s.hours * 3_600_000_000_000) (map (λ entry. entry.0) s.table) s

-- GetAll: a map with a copy of the rows of each requested rule that the store has.
unfoldable pub get_all : List String → Map String (List Row) → Map String (List Row)
unfolding lookup insert
get_all [] m = []
get_all (rid ∷ rids) m =
    let rest = get_all rids m in
    elim (lookup rid m) [ none ↦ rest | some rows ↦ insert rid rows rest ]
