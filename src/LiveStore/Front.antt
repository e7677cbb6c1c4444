-- ===== src/LiveStore/Front.antt =====
-- Rows leave the front of one rule, as in pruneStale and trimExcess: the store stays consistent.
use text.Mathlib.TextEquality.{eq_iff}
use velocity_engine_backend.Prelude.{
  ℕ, ◌-◌, ◌≤◌, String, ◌≡◌, refl, false, List, [], ◌∷◌, none, if◌then◌else◌, ◌==◌,
  comparable_string, arith, length, drop, length-drop, Bool-cases, inl, inr, ap, ◌∙◌,
}
use velocity_engine_backend.Prelude.Maps.{
  Map, lookup, insert, remove, IsUnique, insert-IsUnique, remove-IsUnique, lookup-remove,
  lookup-insert, lookup-remove-none,
}
use velocity_engine_backend.Json.{Row}
use velocity_engine_backend.Runtime.{Runtime}
use velocity_engine_backend.LiveStore.{
  LiveStore, rows_of, positions_of, index_rows, rebuild_rule_index, drop_front,
}
use velocity_engine_backend.LiveStore.Positions.{last_index, lookup-index_rows}
use velocity_engine_backend.LiveStore.Counting.{count_rows, count_rows-insert, count_rows-remove}
use velocity_engine_backend.LiveStore.Invariant.{
  IsConsistent, keys_of, rows_of-insert, positions_of-insert,
}

pub rows_of-remove :
    (rid j : String) (m : Map String (List Row))
    → IsUnique m
    → rows_of j (remove rid m) ≡ (if rid == j then [] else rows_of j m)
unfolding rows_of
rows_of-remove rid j m u = ground (arith, lookup-remove rid j m u)

positions_of-remove :
    (rid j : String) (m : Map String (Map String ℕ))
    → IsUnique m
    → positions_of j (remove rid m) ≡ (if rid == j then [] else positions_of j m)
unfolding positions_of
positions_of-remove rid j m u = ground (arith, lookup-remove rid j m u)

module _ (rt : Runtime) where
  -- A store whose index is right but for one rule, which is then rebuilt or deleted.
  pub record IsConsistentBut (rid : String) (s : LiveStore) : Type 0 where
    pub unique : IsUnique s.table
    pub unique_index : IsUnique s.index
    pub named : lookup "" s.table ≡ none
    pub counted : count_rows s.table ≡ s.total_rows
    pub indexed :
        (j ck : String)
        → (rid == j) ≡ false
        → lookup ck (positions_of j s.index) ≡ last_index ck (keys_of rt j s)

  indexed_rebuilt :
      (rid : String) (s : LiveStore) (row : Row) (rows : List Row)
      → rows_of rid s.table ≡ row ∷ rows
      → IsConsistentBut rid s
      → (j ck : String)
      → lookup ck (positions_of j (insert rid (index_rows rt 0 (row ∷ rows) []) s.index))
        ≡ last_index ck (keys_of rt j s)
  indexed_rebuilt rid s row rows e h j ck =
      rw (positions_of-insert rid j (index_rows rt 0 (row ∷ rows) []) s.index)
        (elim (Bool-cases (rid == j)) [
          | inl q ↦ rw (q, lookup-index_rows rt ck (row ∷ rows), ← (eq_iff rid j).0 q, e) refl
          | inr q ↦ rw q (h.indexed j ck q)
        ])

  indexed_removed :
      (rid : String) (s : LiveStore)
      → rows_of rid s.table ≡ []
      → IsConsistentBut rid s
      → (j ck : String)
      → lookup ck (positions_of j (remove rid s.index)) ≡ last_index ck (keys_of rt j s)
  unfolding lookup last_index
  indexed_removed rid s e h j ck =
      rw (positions_of-remove rid j s.index h.unique_index) (elim (Bool-cases (rid == j)) [
        | inl q ↦ rw (q, ← (eq_iff rid j).0 q, e) refl
        | inr q ↦ rw q (h.indexed j ck q)
      ])

  rebuilt_by_rows :
      (rid : String) (s : LiveStore) (rows : List Row)
      → rows_of rid s.table ≡ rows
      → IsConsistentBut rid s
      → IsConsistent rt (rebuild_rule_index rt rid s)
  unfolding rebuild_rule_index
  rebuilt_by_rows rid s [] e h =
      rw (e, rebuild_rule_index)
        (record {
          unique = h.unique;
          unique_index = remove-IsUnique rid s.index h.unique_index;
          named = h.named;
          counted = h.counted;
          indexed = indexed_removed rid s e h;
        })
  rebuilt_by_rows rid s (row ∷ rows) e h =
      rw (e, rebuild_rule_index)
        (record {
          unique = h.unique;
          unique_index =
              insert-IsUnique rid (index_rows rt 0 (row ∷ rows) []) s.index h.unique_index;
          named = h.named;
          counted = h.counted;
          indexed = indexed_rebuilt rid s row rows e h;
        })

  -- One rebuild makes the index of its rule right.
  pub rebuild_rule_index-IsConsistent :
      (rid : String) (s : LiveStore)
      → IsConsistentBut rid s
      → IsConsistent rt (rebuild_rule_index rt rid s)
  rebuild_rule_index-IsConsistent rid s = rebuilt_by_rows rid s (rows_of rid s.table) refl

  kept : String → ℕ → LiveStore → LiveStore
  kept rid n s = record s {
    table = insert rid (drop n (rows_of rid s.table)) s.table;
    total_rows = s.total_rows - n;
  }

  pub table_named :
      (rid : String) (rows : List Row) (m : Map String (List Row))
      → (rid == "") ≡ false
      → lookup "" m ≡ none
      → lookup "" (insert rid rows m) ≡ none
  table_named rid rows m h e = ground (arith, lookup-insert rid "" rows m)

  kept-IsConsistentBut :
      (rid : String) (n : ℕ) (s : LiveStore)
      → (rid == "") ≡ false
      → n ≤ length (rows_of rid s.table)
      → IsConsistent rt s
      → IsConsistentBut rid (kept rid n s)
  unfolding kept
  kept-IsConsistentBut rid n s named fits h = record {
    unique = insert-IsUnique rid (drop n (rows_of rid s.table)) s.table h.unique;
    unique_index = h.unique_index;
    named = table_named rid (drop n (rows_of rid s.table)) s.table named h.named;
    counted = omega (
      arith,
      count_rows-insert rid (drop n (rows_of rid s.table)) s.table,
      length-drop n (rows_of rid s.table),
      h.counted,
    );
    indexed = λ j ck q.
        rw (rows_of-insert rid j (drop n (rows_of rid s.table)) s.table) (rw q (h.indexed j ck));
  }

  removed-IsConsistent :
      (rid : String) (s : LiveStore)
      → rows_of rid s.table ≡ []
      → IsConsistentBut rid s
      → IsConsistent rt (record s { table = remove rid s.table; index = remove rid s.index })
  removed-IsConsistent rid s e h = record {
    unique = remove-IsUnique rid s.table h.unique;
    unique_index = remove-IsUnique rid s.index h.unique_index;
    named = lookup-remove-none rid "" s.table h.named;
    counted = omega (arith, count_rows-remove rid s.table, ap length e, h.counted);
    indexed = λ j ck. rw (rows_of-remove rid j s.table h.unique) (
        rw (positions_of-remove rid j s.index h.unique_index) (elim (Bool-cases (rid == j)) [
          | inl q ↦ rw q (unfold lookup last_index in refl)
          | inr q ↦ rw q (h.indexed j ck q)
        ]));
  }

  IsConsistentBut-of : (rid : String) (s : LiveStore) → IsConsistent rt s → IsConsistentBut rid s
  IsConsistentBut-of rid s h = record {
    unique = h.unique;
    unique_index = h.unique_index;
    named = h.named;
    counted = h.counted;
    indexed = λ j ck q. h.indexed j ck;
  }

  -- A rule that has no rows can be deleted.
  pub remove_empty-IsConsistent :
      (rid : String) (s : LiveStore)
      → rows_of rid s.table ≡ []
      → IsConsistent rt s
      → IsConsistent rt (record s { table = remove rid s.table; index = remove rid s.index })
  remove_empty-IsConsistent rid s e h = removed-IsConsistent rid s e (IsConsistentBut-of rid s h)

  rows_of-kept :
      (rid : String) (n : ℕ) (s : LiveStore)
      → rows_of rid (kept rid n s).table ≡ drop n (rows_of rid s.table)
  unfolding kept
  rows_of-kept rid n s =
      ground (arith, rows_of-insert rid rid (drop n (rows_of rid s.table)) s.table, eq_iff rid rid)

  drop_front_by_rows :
      (rid : String) (n : ℕ) (s : LiveStore) (rows : List Row)
      → drop n (rows_of rid s.table) ≡ rows
      → IsConsistentBut rid (kept rid n s)
      → IsConsistent rt (drop_front rt rid n s)
  unfolding drop_front kept
  drop_front_by_rows rid n s [] e h =
      rw (e, drop_front) (removed-IsConsistent rid (kept rid n s) (rows_of-kept rid n s ∙ e) h)
  drop_front_by_rows rid n s (row ∷ rows) e h =
      rw (e, drop_front) (rebuild_rule_index-IsConsistent rid (kept rid n s) h)

  -- To take at most all rows of a rule from its front keeps the store consistent.
  pub drop_front-IsConsistent :
      (rid : String) (n : ℕ) (s : LiveStore)
      → (rid == "") ≡ false
      → n ≤ length (rows_of rid s.table)
      → IsConsistent rt s
      → IsConsistent rt (drop_front rt rid n s)
  drop_front-IsConsistent rid n s named fits h =
      drop_front_by_rows rid n s (drop n (rows_of rid s.table)) refl
        (kept-IsConsistentBut rid n s named fits h)

  drop_front_fields :
      (rid : String) (n : ℕ) (s : LiveStore) (rows : List Row)
      → drop n (rows_of rid s.table) ≡ rows
      → ((drop_front rt rid n s).total_rows ≡ s.total_rows - n)
        × ((drop_front rt rid n s).dropped_rows ≡ s.dropped_rows)
        × ((drop_front rt rid n s).max_rows ≡ s.max_rows)
  unfolding drop_front rebuild_rule_index
  drop_front_fields rid n s [] e = rw (e, drop_front) (refl, refl, refl)
  drop_front_fields rid n s (row ∷ rows) e = ground arith

  -- The counters after `n` rows have left a rule's front.
  pub drop_front_counters :
      (rid : String) (n : ℕ) (s : LiveStore)
      → ((drop_front rt rid n s).total_rows ≡ s.total_rows - n)
        × ((drop_front rt rid n s).dropped_rows ≡ s.dropped_rows)
        × ((drop_front rt rid n s).max_rows ≡ s.max_rows)
  drop_front_counters rid n s = drop_front_fields rid n s (drop n (rows_of rid s.table)) refl

  table_rebuild : (rid : String) (s : LiveStore) → (rebuild_rule_index rt rid s).table ≡ s.table
  unfolding rebuild_rule_index
  table_rebuild rid s = ground arith

  rows_of-drop_front_by_rows :
      (rid : String) (n : ℕ) (s : LiveStore) (j : String) (rows : List Row)
      → drop n (rows_of rid s.table) ≡ rows
      → IsUnique s.table
      → rows_of j (drop_front rt rid n s).table
        ≡ (if rid == j then drop n (rows_of j s.table) else rows_of j s.table)
  unfolding drop_front kept
  rows_of-drop_front_by_rows rid n s j [] e u =
      rw (e, drop_front)
        (ground (
          arith,
          e,
          eq_iff rid j,
          rows_of-insert rid j (drop n (rows_of rid s.table)) s.table,
          rows_of-remove rid j (insert rid (drop n (rows_of rid s.table)) s.table)
              (insert-IsUnique rid (drop n (rows_of rid s.table)) s.table u),
        ))
  rows_of-drop_front_by_rows rid n s j (row ∷ rows) e u =
      rw (e, drop_front)
        (ground (
          arith,
          eq_iff rid j,
          rows_of-insert rid j (drop n (rows_of rid s.table)) s.table,
          table_rebuild rid (kept rid n s),
        ))

  -- Only the named rule's rows change.
  pub rows_of-drop_front :
      (rid : String) (n : ℕ) (s : LiveStore) (j : String)
      → IsUnique s.table
      → rows_of j (drop_front rt rid n s).table
        ≡ (if rid == j then drop n (rows_of j s.table) else rows_of j s.table)
  rows_of-drop_front rid n s j =
      rows_of-drop_front_by_rows rid n s j (drop n (rows_of rid s.table)) refl
