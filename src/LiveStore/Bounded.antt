-- ===== src/LiveStore/Bounded.antt =====
-- Add of livestore.go never panics, keeps the store consistent and within its cap, and accounts for
-- every row.
use velocity_engine_backend.Prelude.{
  ℕ, ◌+◌, ◌-◌, ◌≤◌, ◌≡◌, refl, Option, none, some, if◌then◌else◌, arith, ltb, comparable_string,
  Bool-cases, Option-cases, inl, inr, List, [], ◌∷◌,
}
use velocity_engine_backend.Prelude.Maps.{lookup}
use velocity_engine_backend.Json.{Row}
use velocity_engine_backend.Runtime.{Runtime}
use velocity_engine_backend.LiveStore.{
  LiveStore, positions_of, rule_id_of, row_composite_key, trim_excess, add,
}
use velocity_engine_backend.LiveStore.Invariant.{IsConsistent}
use velocity_engine_backend.LiveStore.Trim.{IsTrimmed, trim_excess-IsTrimmed}
use velocity_engine_backend.LiveStore.Upsert.{
  replaced, appended, replaced-IsConsistent, appended-IsConsistent, add_present, add_absent,
}

module _ (rt : Runtime) where
  -- A consistent store that is within its cap.
  pub record IsValid (s : LiveStore) : Type 0 where
    pub consistent : IsConsistent rt s
    pub bounded : s.total_rows ≤ s.max_rows

  -- The number of rows that a call brings in: none if the key is stored.
  unfoldable pub arriving : Row → LiveStore → ℕ
  arriving row s =
      elim (lookup (row_composite_key rt row) (positions_of (rule_id_of row) s.index)) [
        | none ↦ 1
        | some _ ↦ 0
      ]

  pub record IsAdded (row : Row) (s t : LiveStore) : Type 0 where
    pub returned : add rt row s ≡ some t
    pub valid : IsValid t
    pub accounted : t.total_rows + t.dropped_rows ≡ s.total_rows + s.dropped_rows + arriving row s
    pub max_same : t.max_rows ≡ s.max_rows

  IsTrimmed-or_not :
      (s : LiveStore)
      → IsConsistent rt s
      → IsTrimmed rt
          (s.total_rows - s.max_rows)
          s
          (if ltb s.max_rows s.total_rows then trim_excess rt s else s)
  IsTrimmed-or_not s h = elim (Bool-cases (ltb s.max_rows s.total_rows)) [
    | inl q ↦ rw q (trim_excess-IsTrimmed rt s h)
    | inr q ↦
        rw q
          (record { consistent = h; total = ground arith; dropped = ground arith; max_same = refl })
  ]

  -- Add from a consistent store within its cap returns, and the store is again consistent and
  -- within the cap, which is unchanged. Stored and dropped rows together grow by one if the key is
  -- new and by none if it is stored.
  pub add-IsAdded : (row : Row) (s : LiveStore) → IsValid s → (t : LiveStore) × IsAdded row s t
  unfolding arriving
  add-IsAdded row s v =
      elim (Option-cases
        (lookup (row_composite_key rt row) (positions_of (rule_id_of row) s.index))) [
          | inl e ↦
              let grown = appended rt row s in
              let trim = IsTrimmed-or_not grown (appended-IsConsistent rt row s e v.consistent) in
              (
                if ltb s.max_rows grown.total_rows then trim_excess rt grown else grown,
                record {
                  returned = add_absent rt row s e;
                  valid = record {
                    consistent = trim.consistent;
                    bounded = omega (arith, trim.total, trim.max_same, v.bounded);
                  };
                  accounted = rw (e, arriving) (omega (arith, trim.total, trim.dropped, v.bounded));
                  max_same = trim.max_same;
                },
              )
          | inr (pos, e) ↦ (
            replaced rt row pos s,
            record {
              returned = add_present rt row pos s e v.consistent;
              valid = record {
                consistent = replaced-IsConsistent rt row pos s e v.consistent;
                bounded = v.bounded;
              };
              accounted = rw (e, arriving) (omega arith);
              max_same = refl;
            },
          )
        ]

  -- A run of Add calls; `none` is a panic in one of them.
  unfoldable pub add_rows : List Row → LiveStore → Option LiveStore
  add_rows [] s = some s
  add_rows (row ∷ rows) s = elim (add rt row s) [ none ↦ none | some t ↦ add_rows rows t ]

  -- Any number of Add calls from a valid store return, and leave it valid.
  pub add_rows-IsValid :
      (rows : List Row) (s : LiveStore)
      → IsValid s
      → (t : LiveStore) × (add_rows rows s ≡ some t) × IsValid t
  unfolding add_rows
  add_rows-IsValid [] s v = (s, refl, v)
  add_rows-IsValid (row ∷ rows) s v =
      let (t, added) = add-IsAdded row s v in
      rw (added.returned, add_rows) (add_rows-IsValid rows t added.valid)
