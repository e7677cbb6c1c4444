-- ===== src/LiveStore/Upsert.antt =====
-- Add of livestore.go as an upsert by (rule, groupKey, windowStart) into a bounded store.
use mathlib.Core.List.{map-append}
use velocity_engine_backend.Prelude.{
  ℕ, suc, ◌+◌, String, ◌≡◌, refl, sym, false, List, [], ◌∷◌, ◌++◌, map, Option, none, some,
  if◌then◌else◌, ◌==◌, comparable_string, comparable_nat, arith, length, ltb, ◌∙◌, ap, set,
  get_elem?, length-set, length-append, Bool-cases, inl, inr,
}
use velocity_engine_backend.Prelude.Maps.{Map, lookup, insert, insert-IsUnique, lookup-insert}
use velocity_engine_backend.Json.{Row, at, as_string}
use velocity_engine_backend.Runtime.{Runtime}
use velocity_engine_backend.LiveStore.{
  LiveStore, or_unknown, rows_of, positions_of, rule_id_of, row_composite_key, trim_excess, add,
}
use velocity_engine_backend.LiveStore.Positions.{
  last_index, last_index-append, get_elem?-last_index, lt_of_last_index, map-set, set_same,
}
use velocity_engine_backend.LiveStore.Counting.{count_rows-insert}
use velocity_engine_backend.LiveStore.Invariant.{
  IsConsistent, keys_of, rows_of-insert, positions_of-insert,
}
use velocity_engine_backend.LiveStore.Front.{table_named}

pub length-map {ℓ κ} :
    {A : Type ℓ} {B : Type κ} (f : A → B) (xs : List A) → length (map f xs) ≡ length xs
length-map f [] = refl
length-map f (x ∷ xs) = ap suc (length-map f xs)

-- The row that a key's entry in the index leads to.
unfoldable pub read_row : String → Map String ℕ → List Row → Option Row
read_row ck sub rows = elim (lookup ck sub) [ none ↦ none | some pos ↦ get_elem? rows pos ]

-- The row that the store holds for a rule and a composite key.
unfoldable pub find_row : String → String → LiveStore → Option Row
find_row rid ck s = read_row ck (positions_of rid s.index) (rows_of rid s.table)

pub or_unknown-named : (rule_id : String) → (or_unknown rule_id == "") ≡ false
unfolding or_unknown
or_unknown-named rule_id = elim (Bool-cases (rule_id == "")) [ inl q ↦ rw q refl | inr q ↦ rw q q ]

pub rule_id_of-named : (row : Row) → (rule_id_of row == "") ≡ false
unfolding rule_id_of
rule_id_of-named row = or_unknown-named (as_string (at "ruleId" row))

module _ (rt : Runtime) where
  -- The two branches of Add before the trim.
  abbrev pub replaced : Row → ℕ → LiveStore → LiveStore
  replaced row pos s = record s {
    table = insert (rule_id_of row) (set (rows_of (rule_id_of row) s.table) pos row) s.table;
    index = insert (rule_id_of row) (positions_of (rule_id_of row) s.index) s.index;
  }

  abbrev pub appended : Row → LiveStore → LiveStore
  appended row s = record s {
    table = insert (rule_id_of row) (rows_of (rule_id_of row) s.table ++ row ∷ []) s.table;
    index =
        insert (rule_id_of row)
          (insert (row_composite_key rt row) (length (rows_of (rule_id_of row) s.table))
            (positions_of (rule_id_of row) s.index))
          s.index;
    total_rows = s.total_rows + 1;
  }

  pub keys_set :
      (row : Row) (pos : ℕ) (rows : List Row)
      → last_index (row_composite_key rt row) (map (row_composite_key rt) rows) ≡ some pos
      → map (row_composite_key rt) (set rows pos row) ≡ map (row_composite_key rt) rows
  keys_set row pos rows e =
      map-set (row_composite_key rt) rows pos row
      ∙ set_same (map (row_composite_key rt) rows) pos (get_elem?-last_index _ _ e)

  pub replaced-IsConsistent :
      (row : Row) (pos : ℕ) (s : LiveStore)
      → lookup (row_composite_key rt row) (positions_of (rule_id_of row) s.index) ≡ some pos
      → IsConsistent rt s
      → IsConsistent rt (replaced row pos s)
  replaced-IsConsistent row pos s e h =
      let rid = rule_id_of row in
      let rows = rows_of rid s.table in
      let sub = positions_of rid s.index in
      let at_pos = sym (h.indexed rid (row_composite_key rt row)) ∙ e in
      record {
        unique = insert-IsUnique rid (set rows pos row) s.table h.unique;
        unique_index = insert-IsUnique rid sub s.index h.unique_index;
        named = table_named rt rid (set rows pos row) s.table (rule_id_of-named row) h.named;
        counted = omega (
          arith,
          count_rows-insert rid (set rows pos row) s.table,
          length-set rows pos row,
          h.counted,
        );
        indexed = λ j ck. rw (rows_of-insert rid j (set rows pos row) s.table) (
            rw (positions_of-insert rid j sub s.index) (elim (Bool-cases (rid == j)) [
              | inl q ↦ rw (q, keys_set row pos rows at_pos) (h.indexed rid ck)
              | inr q ↦ rw q (h.indexed j ck)
            ]));
      }

  keys_appended :
      (row : Row) (s : LiveStore)
      → IsConsistent rt s
      → (k : String)
      → lookup k (
          insert
            (row_composite_key rt row)
            (length (rows_of (rule_id_of row) s.table))
            (positions_of (rule_id_of row) s.index))
        ≡ last_index k (map (row_composite_key rt) (rows_of (rule_id_of row) s.table ++ row ∷ []))
  keys_appended row s h k =
      let ck = row_composite_key rt row in
      let rows = rows_of (rule_id_of row) s.table in
      rw map-append (
        rw (last_index-append k ck (map (row_composite_key rt) rows)) (
          rw (length-map (row_composite_key rt) rows) (
            lookup-insert ck k (length rows) (positions_of (rule_id_of row) s.index)
            ∙ ap (λ old. if ck == k then some (length rows) else old)
                (h.indexed (rule_id_of row) k))))

  pub appended-IsConsistent :
      (row : Row) (s : LiveStore)
      → lookup (row_composite_key rt row) (positions_of (rule_id_of row) s.index) ≡ none
      → IsConsistent rt s
      → IsConsistent rt (appended row s)
  appended-IsConsistent row s e h =
      let rid = rule_id_of row in
      let ck = row_composite_key rt row in
      let rows = rows_of rid s.table in
      let sub = insert ck (length rows) (positions_of rid s.index) in
      record {
        unique = insert-IsUnique rid (rows ++ row ∷ []) s.table h.unique;
        unique_index = insert-IsUnique rid sub s.index h.unique_index;
        named = table_named rt rid (rows ++ row ∷ []) s.table (rule_id_of-named row) h.named;
        counted = omega (
          arith,
          count_rows-insert rid (rows ++ row ∷ []) s.table,
          length-append rows (row ∷ []),
          h.counted,
        );
        indexed = λ j k. rw (rows_of-insert rid j (rows ++ row ∷ []) s.table) (
            rw (positions_of-insert rid j sub s.index) (elim (Bool-cases (rid == j)) [
              | inl q ↦ rw q (keys_appended row s h k)
              | inr q ↦ rw q (h.indexed j k)
            ]));
      }

  -- Add from a consistent store, branch by branch: never a panic.
  pub add_present :
      (row : Row) (pos : ℕ) (s : LiveStore)
      → lookup (row_composite_key rt row) (positions_of (rule_id_of row) s.index) ≡ some pos
      → IsConsistent rt s
      → add rt row s ≡ some (replaced row pos s)
  unfolding add
  add_present row pos s e h =
      rw (e, add)
        (ground (
          arith,
          lt_of_last_index (row_composite_key rt row) (keys_of rt (rule_id_of row) s) {j = pos},
          h.indexed (rule_id_of row) (row_composite_key rt row),
          length-map (row_composite_key rt) (rows_of (rule_id_of row) s.table),
        ))

  pub add_absent :
      (row : Row) (s : LiveStore)
      → lookup (row_composite_key rt row) (positions_of (rule_id_of row) s.index) ≡ none
      → add rt row s
        ≡ some (
            if ltb s.max_rows (s.total_rows + 1)
            then trim_excess rt (appended row s)
            else appended row s)
  unfolding add
  add_absent row s e = rw (e, add) refl
