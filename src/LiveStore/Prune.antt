-- ===== src/LiveStore/Prune.antt =====
-- pruneStale of livestore.go: what goes is a prefix of stale rows of each rule, what stays starts
-- with a row that is not stale, and the store stays consistent.
use text.Mathlib.TextEquality.{eq_iff}
use velocity_engine_backend.Prelude.{
  ℕ, ◌≤◌, String, ◌≡◌, refl, Bool, true, false, List, [], ◌∷◌, map, if◌then◌else◌, ◌==◌,
  comparable_string, comparable_nat, arith, length, take, drop, All, Bool-cases, inl, inr, ◌∙◌,
  ◌||◌,
}
use velocity_engine_backend.Prelude.Maps.{Map, lookup}
use velocity_engine_backend.Json.{Row}
use velocity_engine_backend.Runtime.{Runtime}
use velocity_engine_backend.LiveStore.{
  LiveStore, rows_of, is_stale, stale_prefix, prune_rule, prune_rules,
}
use velocity_engine_backend.LiveStore.Invariant.{IsConsistent}
use velocity_engine_backend.LiveStore.Front.{
  drop_front-IsConsistent, drop_front_counters, remove_empty-IsConsistent, rows_of-remove,
  rows_of-drop_front,
}

module _ (rt : Runtime) (cutoff : ℕ) where
  stale_prefix-le : (rows : List Row) → stale_prefix rt cutoff rows ≤ length rows
  unfolding stale_prefix
  stale_prefix-le [] = omega arith
  stale_prefix-le (row ∷ rows) = ground (arith, stale_prefix-le rows)

  -- The rows that pruneStale drops from a rule are all stale.
  pub take-stale_prefix :
      (rows : List Row)
      → All (λ row. is_stale rt cutoff row ≡ true) (take (stale_prefix rt cutoff rows) rows)
  unfolding stale_prefix
  take-stale_prefix [] = tt
  take-stale_prefix (row ∷ rows) = elim (Bool-cases (is_stale rt cutoff row)) [
    | inl q ↦ rw q (q, take-stale_prefix rows)
    | inr q ↦ rw q tt
  ]

  abbrev pub StartsFresh : List Row → Type 0
  StartsFresh [] = Unit
  StartsFresh (row ∷ rows) = is_stale rt cutoff row ≡ false

  -- The rows that it keeps are none, or start with one that is not stale.
  pub drop-stale_prefix : (rows : List Row) → StartsFresh (drop (stale_prefix rt cutoff rows) rows)
  unfolding stale_prefix
  drop-stale_prefix [] = tt
  drop-stale_prefix (row ∷ rows) = elim (Bool-cases (is_stale rt cutoff row)) [
    | inl q ↦ rw q (drop-stale_prefix rows)
    | inr q ↦ rw q q
  ]

  pub record IsPruned (s t : LiveStore) : Type 0 where
    pub consistent : IsConsistent rt t
    pub total_le : t.total_rows ≤ s.total_rows
    pub dropped_same : t.dropped_rows ≡ s.dropped_rows
    pub max_same : t.max_rows ≡ s.max_rows

  -- The rows of one rule that a prune leaves.
  abbrev pub fresh : List Row → List Row
  fresh rows = drop (stale_prefix rt cutoff rows) rows

  fresh-fresh : (rows : List Row) → fresh (fresh rows) ≡ fresh rows
  unfolding stale_prefix
  fresh-fresh [] = refl
  fresh-fresh (row ∷ rows) = elim (Bool-cases (is_stale rt cutoff row)) [
    | inl q ↦ rw q (fresh-fresh rows)
    | inr q ↦ rw (q, q) refl
  ]

  fresh_nil : fresh [] ≡ []
  unfolding stale_prefix
  fresh_nil = refl

  fresh_of_none : (rows : List Row) → (stale_prefix rt cutoff rows == 0) ≡ true → fresh rows ≡ rows
  fresh_of_none rows h = ground arith

  IsPruned-same : (s : LiveStore) → IsConsistent rt s → IsPruned s s
  IsPruned-same s h = record {
    consistent = h;
    total_le = omega arith;
    dropped_same = refl;
    max_same = refl;
  }

  -- One round of the outer loop, where no row is stale.
  prune_rule_none :
      (rid : String) (s : LiveStore) (rows : List Row)
      → rows_of rid s.table ≡ rows
      → (stale_prefix rt cutoff rows == 0) ≡ true
      → IsConsistent rt s
      → IsPruned s (prune_rule rt cutoff rid s)
        × ((j : String)
            → rows_of j (prune_rule rt cutoff rid s).table
              ≡ (if rid == j then fresh (rows_of j s.table) else rows_of j s.table))
  unfolding prune_rule
  prune_rule_none rid s [] e no_stale h =
      rw (e, prune_rule)
        (
          record {
            consistent = remove_empty-IsConsistent rt rid s e h;
            total_le = omega arith;
            dropped_same = refl;
            max_same = refl;
          },
          λ j. ground (arith, rows_of-remove rid j s.table h.unique, eq_iff rid j, e, fresh_nil),
        )
  prune_rule_none rid s (row ∷ rows) e no_stale h =
      rw (e, no_stale, prune_rule)
        (IsPruned-same s h, λ j. ground (arith, eq_iff rid j, e, fresh_of_none (row ∷ rows)))

  named_of_rows :
      (rid : String) (s : LiveStore)
      → IsConsistent rt s
      → (stale_prefix rt cutoff (rows_of rid s.table) == 0) ≡ false
      → (rid == "") ≡ false
  unfolding rows_of stale_prefix
  named_of_rows rid s h stale = ground (arith, eq_iff rid "", h.named)

  prune_rule_some :
      (rid : String) (s : LiveStore)
      → (stale_prefix rt cutoff (rows_of rid s.table) == 0) ≡ false
      → IsConsistent rt s
      → IsPruned s (prune_rule rt cutoff rid s)
        × ((j : String)
            → rows_of j (prune_rule rt cutoff rid s).table
              ≡ (if rid == j then fresh (rows_of j s.table) else rows_of j s.table))
  unfolding prune_rule
  prune_rule_some rid s stale h =
      let n = stale_prefix rt cutoff (rows_of rid s.table) in
      let counters = drop_front_counters rt rid n s in
      rw stale (
        record {
          consistent =
              drop_front-IsConsistent rt rid n s (named_of_rows rid s h stale)
                (stale_prefix-le (rows_of rid s.table)) h;
          total_le = omega (arith, counters.0);
          dropped_same = counters.1;
          max_same = counters.2;
        },
        λ j. ground (arith, eq_iff rid j, rows_of-drop_front rt rid n s j h.unique),
      )

  prune_rule_lem :
      (rid : String) (s : LiveStore)
      → IsConsistent rt s
      → IsPruned s (prune_rule rt cutoff rid s)
        × ((j : String)
            → rows_of j (prune_rule rt cutoff rid s).table
              ≡ (if rid == j then fresh (rows_of j s.table) else rows_of j s.table))
  prune_rule_lem rid s h = elim (Bool-cases (stale_prefix rt cutoff (rows_of rid s.table) == 0)) [
    | inl q ↦ prune_rule_none rid s (rows_of rid s.table) refl q h
    | inr q ↦ prune_rule_some rid s q h
  ]

  contains : String → List String → Bool
  contains j [] = false
  contains j (rid ∷ rids) = rid == j || contains j rids

  prune_rules_lem :
      (rids : List String) (s : LiveStore)
      → IsConsistent rt s
      → IsPruned s (prune_rules rt cutoff rids s)
        × ((j : String)
            → rows_of j (prune_rules rt cutoff rids s).table
              ≡ (if contains j rids then fresh (rows_of j s.table) else rows_of j s.table))
  unfolding prune_rules contains
  prune_rules_lem [] s h = (IsPruned-same s h, λ j. refl)
  prune_rules_lem (rid ∷ rids) s h =
      let first = prune_rule_lem rid s h in
      let rest = prune_rules_lem rids (prune_rule rt cutoff rid s) first.0.consistent in
      (
        record {
          consistent = rest.0.consistent;
          total_le = omega (arith, first.0.total_le, rest.0.total_le);
          dropped_same = rest.0.dropped_same ∙ first.0.dropped_same;
          max_same = rest.0.max_same ∙ first.0.max_same;
        },
        λ j. ground (arith, first.1 j, rest.1 j, fresh-fresh (rows_of j s.table)),
      )

  rows_of_unlisted :
      (j : String) (m : Map String (List Row))
      → contains j (map (λ entry. entry.0) m) ≡ false
      → rows_of j m ≡ []
  unfolding rows_of lookup contains
  rows_of_unlisted j [] h = refl
  rows_of_unlisted j ((rid, rows) ∷ m) h = ground (arith, rows_of_unlisted j m)

  -- Over all rules of the store: each keeps its rows from the first one on that is not stale.
  pub prune_all_lem :
      (s : LiveStore)
      → IsConsistent rt s
      → IsPruned s (prune_rules rt cutoff (map (λ entry. entry.0) s.table) s)
        × ((j : String)
            → rows_of j (prune_rules rt cutoff (map (λ entry. entry.0) s.table) s).table
              ≡ fresh (rows_of j s.table))
  prune_all_lem s h =
      let all = prune_rules_lem (map (λ entry. entry.0) s.table) s h in
      (all.0, λ j. ground (arith, all.1 j, rows_of_unlisted j s.table, fresh_nil))
