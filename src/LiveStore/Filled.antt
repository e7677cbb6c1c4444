-- ===== src/LiveStore/Filled.antt =====
-- What Bootstrap of internal/services/livestore.go files under a rule.
use velocity_engine_backend.Prelude.{
  String, ◌≡◌, refl, sym, ap, ◌∙◌, inl, inr, List, [], ◌∷◌, ◌++◌, ◌==◌, ==_iff, comparable_string,
  select, Bool-cases, ◌+◌,
}
use mathlib.Core.List.{append_assoc, append-nil}
use velocity_engine_backend.Prelude.Maps.{Map, lookup, insert}
use velocity_engine_backend.Json.{Row}
use velocity_engine_backend.Runtime.{Runtime}
use velocity_engine_backend.LiveStore.Invariant.{rows_of-insert}
use velocity_engine_backend.LiveStore.{
  LiveStore, rows_of, rule_id_of, rebuild_rule_index, file_rows, rebuild_all, bootstrap,
}

module _ (rt : Runtime) where
  rows_of-file_rows :
      (id : String) (rows : List Row) (s : LiveStore)
      → rows_of id (file_rows rt rows s).table
        ≡ rows_of id s.table ++ select (λ row. rule_id_of row == id) rows
  unfolding file_rows
  rows_of-file_rows id [] s = sym (append-nil (rows_of id s.table))
  rows_of-file_rows id (row ∷ rows) s =
      let key = rule_id_of row in
      let before = rows_of key s.table in
      let next : LiveStore = record s {
        table = insert key (before ++ row ∷ []) s.table;
        total_rows = s.total_rows + 1;
      } in
      let rest = select (λ r. rule_id_of r == id) rows in
      rows_of-file_rows id rows next ∙ elim (Bool-cases (key == id)) [
        | inl e ↦
            let same = ap (λ k. rows_of k s.table) ((==_iff key id).0 e) in
            rw (rows_of-insert key id (before ++ row ∷ []) s.table, e, sym same)
              (append_assoc before (row ∷ []) rest)
        | inr e ↦ rw (rows_of-insert key id (before ++ row ∷ []) s.table, e) refl
      ]

  rebuild_rule_index-table :
      (rid : String) (s : LiveStore) → (rebuild_rule_index rt rid s).table ≡ s.table
  unfolding rebuild_rule_index
  rebuild_rule_index-table rid s = by_rows (rows_of rid s.table) refl
    where
      by_rows :
          (rows : List Row)
          → rows_of rid s.table ≡ rows
          → (rebuild_rule_index rt rid s).table ≡ s.table
      by_rows [] e = rw (e, rebuild_rule_index) refl
      by_rows (row ∷ rows) e = rw (e, rebuild_rule_index) refl

  rebuild_all-table :
      (m : Map String (List Row)) (s : LiveStore) → (rebuild_all rt m s).table ≡ s.table
  unfolding rebuild_all
  rebuild_all-table [] s = refl
  rebuild_all-table ((rid, _) ∷ m) s =
      rebuild_all-table m (rebuild_rule_index rt rid s) ∙ rebuild_rule_index-table rid s

  -- After Bootstrap a rule has exactly the rows with its id, in the order in which they were given,
  -- whatever the store held before.
  pub rows_of-bootstrap :
      (id : String) (rows : List Row) (s : LiveStore)
      → rows_of id (bootstrap rt rows s).table ≡ select (λ row. rule_id_of row == id) rows
  unfolding bootstrap rows_of lookup
  rows_of-bootstrap id rows s =
      let emptied : LiveStore = record s { table = []; index = []; total_rows = 0 } in
      let filed = file_rows rt rows emptied in
      ap (λ m. rows_of id m) (rebuild_all-table filed.table filed)
      ∙ rows_of-file_rows id rows emptied
