-- ===== src/LiveStore/Find.antt =====
-- Add of livestore.go refines the write of a map from (rule, composite key) to the newest row.
use text.Mathlib.TextEquality.{eq_iff}
use velocity_engine_backend.Prelude.{
  ℕ, ◌<◌, String, ◌≡◌, ◌≢◌, refl, sym, ◌∙◌, Bool, false, ◌&&◌, List, [], ◌∷◌, ◌++◌, map, some,
  if◌then◌else◌, ◌==◌, arith, comparable_string, length, set, get_elem?-set_self, get_elem?-set_ne,
  get_elem?-append_last, get_elem?-append_left, Bool-cases, Option-cases, inl, inr,
}
use velocity_engine_backend.Prelude.Maps.{Map, lookup, insert, lookup-insert}
use velocity_engine_backend.Json.{Row}
use velocity_engine_backend.Runtime.{Runtime}
use velocity_engine_backend.LiveStore.{
  LiveStore, rows_of, positions_of, rule_id_of, row_composite_key, add,
}
use velocity_engine_backend.LiveStore.Positions.{last_index, get_elem?-last_index, lt_of_last_index}
use velocity_engine_backend.LiveStore.Invariant.{IsConsistent, rows_of-insert, positions_of-insert}
use velocity_engine_backend.LiveStore.Upsert.{
  read_row, find_row, replaced, appended, add_present, add_absent, length-map,
}

module _ (rt : Runtime) where
  -- Is (rid, ck) where the row goes?
  abbrev pub is_key_of : Row → String → String → Bool
  is_key_of row rid ck = rule_id_of row == rid && row_composite_key rt row == ck

  -- A rule's index is right for its rows.
  abbrev IsIndexOf : Map String ℕ → List Row → Type 0
  IsIndexOf sub rows =
      (ck : String) → lookup ck sub ≡ last_index ck (map (row_composite_key rt) rows)

  module _ (sub : Map String ℕ) (rows : List Row) (h : IsIndexOf sub rows) where
    position_bound : (ck : String) {pos : ℕ} → lookup ck sub ≡ some pos → pos < length rows
    position_bound ck {pos} e = omega (
      arith,
      lt_of_last_index ck (map (row_composite_key rt) rows) {j = pos} (sym (h ck) ∙ e),
      length-map (row_composite_key rt) rows,
    )

    positions_differ :
        (a b : String) {i j : ℕ}
        → lookup a sub ≡ some i
        → lookup b sub ≡ some j
        → (a == b) ≡ false
        → i ≢ j
    positions_differ a b {i} {j} p q d e = ground (
      arith,
      get_elem?-last_index a (map (row_composite_key rt) rows) {j = i} (sym (h a) ∙ p),
      get_elem?-last_index b (map (row_composite_key rt) rows) {j = j} (sym (h b) ∙ q),
      eq_iff a b,
    )

    read_row-set :
        (ck key : String) (row : Row) (pos : ℕ)
        → lookup key sub ≡ some pos
        → read_row ck sub (set rows pos row)
          ≡ (if key == ck then some row else read_row ck sub rows)
    unfolding read_row
    read_row-set ck key row pos e = elim (Option-cases (lookup ck sub)) [
      | inl a ↦ ground (arith, eq_iff key ck)
      | inr (i, a) ↦ ground (
        arith,
        eq_iff key ck,
        get_elem?-set_self rows pos row (position_bound key e),
        get_elem?-set_ne rows pos i row,
        positions_differ key ck e a,
      )
    ]

    read_row-append :
        (ck key : String) (row : Row)
        → read_row ck (insert key (length rows) sub) (rows ++ row ∷ [])
          ≡ (if key == ck then some row else read_row ck sub rows)
    unfolding read_row
    read_row-append ck key row = elim (Option-cases (lookup ck sub)) [
      | inl a ↦
          ground (arith, lookup-insert key ck (length rows) sub, get_elem?-append_last rows row)
      | inr (i, a) ↦ ground (
        arith,
        lookup-insert key ck (length rows) sub,
        get_elem?-append_last rows row,
        get_elem?-append_left rows (row ∷ []) i (position_bound ck a),
      )
    ]

  module _ (row : Row) (s : LiveStore) (h : IsConsistent rt s) (rid ck : String) where
    find_row-replaced :
        (pos : ℕ)
        → lookup (row_composite_key rt row) (positions_of (rule_id_of row) s.index) ≡ some pos
        → find_row rid ck (replaced rt row pos s)
          ≡ (if is_key_of row rid ck then some row else find_row rid ck s)
    unfolding find_row
    find_row-replaced pos e =
        let own = rule_id_of row in
        let rows = set (rows_of own s.table) pos row in
        rw (rows_of-insert own rid rows s.table) (
          rw (positions_of-insert own rid (positions_of own s.index) s.index)
            (elim (Bool-cases (own == rid)) [
              | inl q ↦
                  rw (q, ← (eq_iff own rid).0 q)
                    (read_row-set (positions_of own s.index) (rows_of own s.table) (h.indexed own)
                      ck (row_composite_key rt row) row pos e)
              | inr q ↦ rw q refl
            ]))

    find_row-appended :
        find_row rid ck (appended rt row s)
        ≡ (if is_key_of row rid ck then some row else find_row rid ck s)
    unfolding find_row
    find_row-appended =
        let own = rule_id_of row in
        let key = row_composite_key rt row in
        let rows = rows_of own s.table in
        let sub = positions_of own s.index in
        rw (rows_of-insert own rid (rows ++ row ∷ []) s.table) (
          rw (positions_of-insert own rid (insert key (length rows) sub) s.index)
            (elim (Bool-cases (own == rid)) [
              | inl q ↦
                  rw (q, ← (eq_iff own rid).0 q)
                    (read_row-append sub rows (h.indexed own) ck key row)
              | inr q ↦ rw q refl
            ]))

  -- Add while there is room, from a consistent store: a reader of (rule, composite key) finds the
  -- new row at the row's own rule and key, and at any other what it found before.
  pub find_row-add :
      (row : Row) (s t : LiveStore) (rid ck : String)
      → IsConsistent rt s
      → s.total_rows < s.max_rows
      → add rt row s ≡ some t
      → find_row rid ck t ≡ (if is_key_of row rid ck then some row else find_row rid ck s)
  find_row-add row s t rid ck h room returned =
      elim (Option-cases
        (lookup (row_composite_key rt row) (positions_of (rule_id_of row) s.index))) [
          | inl e ↦ ground (arith, add_absent rt row s e, find_row-appended row s h rid ck)
          | inr (pos, e) ↦
              ground (arith, add_present rt row pos s e h, find_row-replaced row s h rid ck pos e)
        ]
