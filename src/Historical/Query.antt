-- ===== src/Historical/Query.antt =====
-- runHistoricalAnalysisImpl and runHistoricalBreakdownImpl of internal/services/duckdb.go: the queries
-- that they build from a rule.
pub mod Marks
pub mod Placeholders
pub mod Breakdown
use velocity_engine_backend.Prelude.{
  ℕ, ◌+◌, ◌/◌, String, Bool, true, false, ◌&&◌, ◌||◌, List, [], ◌∷◌, ◌++◌, map, Option, none, some,
  if◌then◌else◌, ◌==◌, comparable_string, comparable_nat, str_append, ltb, length,
}
use velocity_engine_backend.Prelude.Int.{ℤ, pos, negsuc}
use velocity_engine_backend.Prelude.Maps.{Map}
use velocity_engine_backend.Prelude.Text.{join, concat}
use velocity_engine_backend.Json.{
  Value, Elements, Members, float, str, obj, no_elements, element, no_members, as_string, get_field,
  elements_to_list,
}
use velocity_engine_backend.Historical.{Strings, Fragment, column, validate_identifier}
use velocity_engine_backend.Historical.Filter.{as_elements, parse_filter_node}
use velocity_engine_backend.Historical.Having.{parse_having_expression}

abbrev pub as_members : Value → Members
as_members (obj node) = node
as_members _ = no_members

-- icebergSource, from the path of the table
abbrev pub iceberg_parts : String → List String
iceberg_parts base_path =
    ("(\n        SELECT * FROM iceberg_scan('" ∷ base_path
      ∷ "', allow_moved_paths => true)\n        QUALIFY row_number() OVER (PARTITION BY event_timestamp, authCode ORDER BY input_kafka_timestamp DESC NULLS LAST) = 1\n    ) AS stream_data"
      ∷ [])

unfoldable pub iceberg_source : String → String
iceberg_source base_path = concat (iceberg_parts base_path)

pub record Grouping : Type 0 where
  pub selected : String
  pub group_by : String

-- The aggregates, and the set of their aliases.
pub record Aggregates : Type 0 where
  pub selects : List String
  pub aliases : Map String Bool

-- The SQL of one aggregate.
unfoldable pub aggregate : String → String → String → String
aggregate function field alias =
    if function == "COUNT_DISTINCT"
    then concat ("COUNT(DISTINCT " ∷ field ∷ ") as " ∷ alias ∷ [])
    else if function == "COUNT"
    then concat ("COUNT(" ∷ field ∷ ") as " ∷ alias ∷ [])
    else if function == "SUM" || function == "AVG" || function == "MIN" || function == "MAX"
    then concat (function ∷ "(" ∷ field ∷ ") as " ∷ alias ∷ [])
    else concat ("COUNT(" ∷ field ∷ ") as " ∷ alias ∷ [])

module _ (lib : Strings) where
  -- The loop over the grouping keys, which ends at the first that is no identifier.
  unfoldable pub flat_keys : List Value → Option (List String)
  flat_keys [] = some []
  flat_keys (k ∷ ks) =
      let rest = flat_keys ks in
      elim (column lib (lib.sprint k)) [
        | none ↦ none
        | some validated ↦ elim rest [ none ↦ none | some others ↦ some (validated ∷ others) ]
      ]

  abbrev pub is_global : List Value → Bool
  is_global (k ∷ []) = lib.sprint k == "__GLOBAL__"
  is_global _ = false

  abbrev pub coalesce : String → String
  coalesce k = concat ("COALESCE(CAST(" ∷ k ∷ " AS VARCHAR), 'N/A')" ∷ [])

  -- selectKeys
  unfoldable pub select_keys : List String → String
  select_keys (k ∷ []) = concat (coalesce k ∷ " as groupKey" ∷ [])
  select_keys keys = concat (join " || '|' || " (map coalesce keys) ∷ " as groupKey" ∷ [])

  unfoldable pub grouping_of : List Value → Option Grouping
  unfolding flat_keys select_keys
  grouping_of keys =
      if is_global keys
      then some
          (record { selected = "'__GLOBAL__' as groupKey"; group_by = "GROUP BY window_start" })
      else elim (flat_keys keys) [
        | none ↦ none
        | some flat ↦ some (record {
          selected = select_keys flat;
          group_by = concat ("GROUP BY window_start, " ∷ join ", " flat ∷ []);
        })
      ]

  -- The loop over the aggregations: what is no object is passed over, a bad name ends it.
  unfoldable pub aggregates : Elements → Option Aggregates
  unfolding aggregate get_field
  aggregates no_elements = some (record { selects = []; aliases = [] })
  aggregates (element (obj agg) rest) =
      let others = aggregates rest in
      let function = lib.to_upper (as_string (get_field "function" agg)) in
      elim (column lib (as_string (get_field "field" agg))) [
        | none ↦ none
        | some field ↦ elim (validate_identifier lib (as_string (get_field "alias" agg))) [
          | none ↦ none
          | some alias ↦ elim others [
            | none ↦ none
            | some o ↦ some (record {
              selects = aggregate function field alias ∷ o.selects;
              aliases = (alias, true) ∷ o.aliases;
            })
          ]
        ]
      ]
  aggregates (element _ rest) = aggregates rest

  -- size_ms, five minutes where it is no number
  abbrev pub size_ms : Value → ℤ
  size_ms (float bits) = lib.int_of_float bits
  size_ms _ = pos 300000

  -- Division of int64 goes toward zero; less than a second is a second.
  abbrev pub at_least_second : ℤ → ℕ
  at_least_second (pos ms) = if ltb (ms / 1000) 1 then 1 else ms / 1000
  at_least_second (negsuc ms) = 1

  unfoldable pub size_seconds : Members → ℕ
  unfolding get_field
  size_seconds rule =
      at_least_second (size_ms (get_field "size_ms" (as_members (get_field "windowing" rule))))

  -- An expression that is refused counts as none.
  unfoldable pub parsed_having : Members → Map String Bool → String
  unfolding get_field parse_having_expression
  parsed_having rule aliases =
      let expr =
        as_string (get_field "expression" (as_members (get_field "having_thresholds" rule))) in
      elim (parse_having_expression lib expr aliases) [ none ↦ "" | some text ↦ text ]

  unfoldable pub threshold_met_col : String → String
  threshold_met_col parsed =
      if parsed == ""
      then ", false as threshold_met"
      else concat (", CASE WHEN (" ∷ parsed ∷ ") THEN true ELSE false END as threshold_met" ∷ [])

  abbrev pub where_clause : Fragment → String
  where_clause parsed = if parsed.sql == "" then "" else str_append "AND " parsed.sql

  -- The text of the query.
  abbrev pub query_parts : ℕ → Grouping → String → String → String → String → List String
  query_parts seconds g aggs threshold source condition =
      ("\n        SELECT\n            time_bucket(INTERVAL '"
        ∷ lib.show_int seconds
        ∷ " seconds', try_cast(event_timestamp AS TIMESTAMP)) as window_start,\n            "
        ∷ g.selected
        ∷ ",\n            "
        ∷ aggs
        ∷ "\n            "
        ∷ threshold
        ∷ "\n        FROM "
        ∷ source
        ∷ "\n        WHERE try_cast(event_timestamp AS TIMESTAMP) >= try_cast(? AS TIMESTAMP)\n        AND try_cast(event_timestamp AS TIMESTAMP) <= try_cast(? AS TIMESTAMP)\n        "
        ∷ condition
        ∷ "\n        "
        ∷ g.group_by
        ∷ "\n        ORDER BY window_start DESC\n        LIMIT 5000\n        "
        ∷ [])

  unfoldable pub query_text : ℕ → Grouping → String → String → String → String → String
  query_text seconds g aggs threshold source condition =
      concat (query_parts seconds g aggs threshold source condition)

  -- The query and its parameters, or the error that ends the analysis before the query is sent.
  unfoldable pub analysis_query : String → String → String → Members → Option Fragment
  unfolding iceberg_source grouping_of aggregates size_seconds parsed_having threshold_met_col
      query_text parse_filter_node get_field
  analysis_query base_path start_str end_str rule =
      let keys =
        elements_to_list
          (as_elements (get_field "keys" (as_members (get_field "grouping" rule)))) in
      let filter = parse_filter_node lib (as_members (get_field "filters" rule)) in
      elim (grouping_of keys) [
        | none ↦ none
        | some g ↦ elim (aggregates (as_elements (get_field "aggregations" rule))) [
          | none ↦ none
          | some a ↦ some (record {
            sql =
                query_text (size_seconds rule) g (join ", " a.selects)
                  (threshold_met_col (parsed_having rule a.aliases)) (iceberg_source base_path)
                  (where_clause filter);
            params = str start_str ∷ str end_str ∷ filter.params;
          })
        ]
      ]
