-- ===== src/ClickHouse/Grouped.antt =====
-- The results that are grouped by rule, and the placeholders of the queries.
use velocity_engine_backend.Prelude.{
  ℕ, zero, suc, String, ◌≡◌, refl, sym, ap, ◌∙◌, true, List, [], ◌∷◌, ◌++◌, map, ◌==◌, ==_iff,
  comparable_string, comparable_nat, length, length-append, replicate, select, Bool-cases, inl, inr,
  arith,
}
use mathlib.Core.List.{append_assoc, append-nil}
use velocity_engine_backend.Prelude.Maps.{Map, lookup, insert, lookup-insert}
use velocity_engine_backend.Prelude.Text.{
  every, total, occurrences, occurrences-concat, occurrences-every,
}
use velocity_engine_backend.Json.{Row, str, int64}
use velocity_engine_backend.Historical.{Fragment}
use velocity_engine_backend.ClickHouse.{
  is_table_name, rule_id_of, rows_of, group_by_rule, placeholders, is_name_char,
}
use velocity_engine_backend.ClickHouse.Queries.{
  multi_parts, multi_query, agg_parts, agg_query, detail_parts, detail_query, top_parts, top_query,
}
use velocity_engine_backend.Prelude.Int.{ℤ}

lookup-group_by_rule_from :
    (id : String) (rows : List Row) (grouped : Map String (List Row))
    → rows_of (lookup id (group_by_rule rows grouped))
      ≡ rows_of (lookup id grouped) ++ select (λ row. rule_id_of row == id) rows
unfolding group_by_rule
lookup-group_by_rule_from id [] grouped = sym (append-nil (rows_of (lookup id grouped)))
lookup-group_by_rule_from id (row ∷ rows) grouped =
    let key = rule_id_of row in
    let before = rows_of (lookup key grouped) in
    let next = insert key (before ++ row ∷ []) grouped in
    let rest = select (λ r. rule_id_of r == id) rows in
    lookup-group_by_rule_from id rows next ∙ elim (Bool-cases (key == id)) [
      | inl e ↦
          let same = ap (λ k. rows_of (lookup k grouped)) ((==_iff key id).0 e) in
          rw (lookup-insert key id (before ++ row ∷ []) grouped, e, sym same)
            (append_assoc before (row ∷ []) rest)
      | inr e ↦ rw (lookup-insert key id (before ++ row ∷ []) grouped, e) refl
    ]

-- The rows under an id are those of that rule in the order in which ClickHouse gave them, and a rule
-- without rows has none.
pub lookup-group_by_rule :
    (id : String) (rows : List Row)
    → rows_of (lookup id (group_by_rule rows [])) ≡ select (λ row. rule_id_of row == id) rows
unfolding lookup
lookup-group_by_rule id rows = lookup-group_by_rule_from id rows []

occurrences-placeholders : (n : ℕ) → occurrences b'?' (placeholders n) ≡ n
unfolding placeholders occurrences
occurrences-placeholders zero = refl
occurrences-placeholders (suc n) =
    occurrences-concat b'?' ("?" ∷ replicate n ", ?") ∙ omega (arith, more n)
  where
    more : (k : ℕ) → total b'?' (replicate k ", ?") ≡ k
    more zero = refl
    more (suc k) = omega (arith, more k)

length-map_str : (ids : List String) → length (map str ids) ≡ length ids
length-map_str [] = refl
length-map_str (id ∷ ids) = ap suc (length-map_str ids)

is_table_name-no_mark : (table : String) → is_table_name table ≡ true → occurrences b'?' table ≡ 0
unfolding is_table_name every occurrences
is_table_name-no_mark String.[] h = refl
is_table_name-no_mark (String.◌∷◌ c s) h =
    let words : every is_name_char (String.◌∷◌ c s) ≡ true = ground arith in
    occurrences-every is_name_char b'?' (String.◌∷◌ c s) refl words

abbrev pub IsBound : Fragment → Type 0
IsBound q = occurrences b'?' q.sql ≡ length q.params

multi_query-IsBound :
    (table : String) (ids : List String) (hours : ℤ)
    → occurrences b'?' table ≡ 0
    → IsBound (multi_query table ids hours)
unfolding occurrences
multi_query-IsBound table [] hours t =
    occurrences-concat b'?' (multi_parts table []) ∙ omega (arith, t)
multi_query-IsBound table (id ∷ ids) hours t =
    occurrences-concat b'?' (multi_parts table (id ∷ ids))
    ∙ omega (
      arith,
      t,
      occurrences-placeholders (length (id ∷ ids)),
      length-map_str (id ∷ ids),
      length-append {0} (map str (id ∷ ids)) (int64 hours ∷ []),
    )

-- Under a valid name for the table, the queries for several rules, for a time range, for one group and
-- for the ranking of groups have exactly as many placeholders as arguments, however many rules are asked.
pub queries-IsBound :
    (table : String) (ids : List String) (id group_key start_ts end_ts : String)
    (hours limit offset : ℤ)
    → is_table_name table ≡ true
    → IsBound (multi_query table ids hours)
      × IsBound (agg_query table ids start_ts end_ts)
      × IsBound (detail_query table id group_key start_ts end_ts)
      × IsBound (top_query table id start_ts end_ts limit offset)
unfolding occurrences
queries-IsBound table ids id group_key start_ts end_ts hours limit offset v =
    let t = is_table_name-no_mark table v in
    (
      multi_query-IsBound table ids hours t,
      occurrences-concat b'?' (agg_parts table (length ids))
          ∙ omega (
            arith,
            t,
            occurrences-placeholders (length ids),
            length-map_str ids,
            length-append {0} (map str ids) (str start_ts ∷ str end_ts ∷ []),
          ),
      occurrences-concat b'?' (detail_parts table) ∙ omega (arith, t),
      occurrences-concat b'?' (top_parts table) ∙ omega (arith, t),
    )
