-- ===== src/Historical/Query/Placeholders.antt =====
-- The placeholders of the historical queries are as many as their parameters.
use velocity_engine_backend.Prelude.{
  ℕ, suc, String, ◌≡◌, refl, sym, ap, ◌∙◌, Bool, true, false, List, [], ◌∷◌, some, ◌==◌, ==_iff,
  comparable_string, length, inl, inr, Bool-cases, Option-cases, arith,
}
use velocity_engine_backend.Prelude.Maps.{Map}
use velocity_engine_backend.Prelude.Text.{
  join, concat, total, occurrences, occurrences-every, occurrences-append, occurrences-concat,
  occurrences-join,
}
use velocity_engine_backend.Json.{
  Value, Elements, Members, null, bool, float, int64, str, arr, obj, foreign, no_elements, element,
  as_string, get_field, elements_to_list,
}
use velocity_engine_backend.Historical.{
  Strings, Fragment, is_word, column, validate_identifier, translate_field,
}
use velocity_engine_backend.Historical.Filter.{as_elements, parse_filter_node}
use velocity_engine_backend.Historical.Filter.Parts.{validate_identifier-Marks}
use velocity_engine_backend.Historical.Filter.Sound.{parse_filter_node-placeholders}
use velocity_engine_backend.Historical.Having.{
  is_having_char, parse_having_expression, every-parse_having_expression,
}
use velocity_engine_backend.Historical.Query.{
  Grouping, Aggregates, as_members, iceberg_parts, iceberg_source, flat_keys, is_global,
  select_keys, grouping_of, aggregate, aggregates, size_seconds, parsed_having, threshold_met_col,
  where_clause, query_parts, query_text, analysis_query,
}
use velocity_engine_backend.Historical.Query.Marks.{
  NoMark, comma, if-NoMark, aggregate-NoMark, select_keys-NoMark,
}

module _ (lib : Strings) (no_mark : is_word lib b'?' ≡ false) where
  column-NoMark : (name field : String) → column lib name ≡ some field → NoMark field
  column-NoMark name field e =
      let m = validate_identifier-Marks lib no_mark (translate_field lib name) field e in m.marks

  flat_keys-NoMark :
      (keys : List Value) (flat : List String)
      → flat_keys lib keys ≡ some flat
      → total b'?' flat ≡ 0
  unfolding flat_keys
  flat_keys-NoMark [] flat e = ground arith
  flat_keys-NoMark (k ∷ ks) flat e = elim (Option-cases (column lib (lib.sprint k))) [
    | inl q ↦ absurd (ground arith)
    | inr (v, q) ↦ elim (Option-cases (flat_keys lib ks)) [
      | inl r ↦ absurd (ground arith)
      | inr (others, r) ↦
          let same : v ∷ others ≡ flat = ground arith in
          rw (sym same) (omega (arith, column-NoMark _ v q, flat_keys-NoMark ks others r))
    ]
  ]

  grouping_of-NoMark :
      (keys : List Value) (g : Grouping)
      → grouping_of lib keys ≡ some g
      → NoMark g.selected × NoMark g.group_by
  unfolding grouping_of occurrences
  grouping_of-NoMark keys g e = elim (Bool-cases (is_global lib keys)) [
    | inl q ↦
        let same : record {
          selected = "'__GLOBAL__' as groupKey";
          group_by = "GROUP BY window_start";
        }
            ≡ g =
          ground arith in
        rw (sym same) (refl, refl)
    | inr q ↦ elim (Option-cases (flat_keys lib keys)) [
      | inl r ↦ absurd (ground arith)
      | inr (flat, r) ↦
          let none_in = flat_keys-NoMark keys flat r in
          let same : record {
            selected = select_keys lib flat;
            group_by = concat ("GROUP BY window_start, " ∷ join ", " flat ∷ []);
          }
              ≡ g =
            ground arith in
          rw (sym same) (
            select_keys-NoMark lib flat none_in,
            omega (
              arith,
              occurrences-concat b'?' ("GROUP BY window_start, " ∷ join ", " flat ∷ []),
              occurrences-join b'?' ", " flat refl,
              none_in,
            ),
          )
    ]
  ]

  parsed_having-NoMark :
      (rule : Members) (aliases : Map String Bool) → NoMark (parsed_having lib rule aliases)
  unfolding parsed_having occurrences
  parsed_having-NoMark rule aliases =
      let expr =
        as_string (get_field "expression" (as_members (get_field "having_thresholds" rule))) in
      elim (Option-cases (parse_having_expression lib expr aliases)) [
        | inl q ↦ rw (q, parsed_having) refl
        | inr (text, q) ↦
            rw (q, parsed_having)
              (occurrences-every is_having_char b'?' text refl
                (every-parse_having_expression lib expr aliases text q))
      ]

  threshold_met_col-NoMark :
      (parsed : String) → NoMark parsed → NoMark (threshold_met_col lib parsed)
  unfolding threshold_met_col occurrences
  threshold_met_col-NoMark parsed h =
      let test = parsed ∷ ") THEN true ELSE false END as threshold_met" ∷ [] in
      if-NoMark (parsed == "") _ _ (λ e. refl)
        (omega (arith, h, occurrences-concat b'?' (", CASE WHEN (" ∷ test)))

  aggregates-NoMark :
      (items : Elements) (a : Aggregates) → aggregates lib items ≡ some a → total b'?' a.selects ≡ 0
  unfolding aggregates
  aggregates-NoMark no_elements a e =
      let same : record { selects = []; aliases = [] } ≡ a = ground arith in rw (sym same) refl
  aggregates-NoMark (element (obj agg) rest) a e =
      let function = lib.to_upper (as_string (get_field "function" agg)) in
      elim (Option-cases (column lib (as_string (get_field "field" agg)))) [
        | inl q ↦ absurd (ground arith)
        | inr (field, q) ↦
            elim (Option-cases (validate_identifier lib (as_string (get_field "alias" agg)))) [
              | inl r ↦ absurd (ground arith)
              | inr (alias, r) ↦ elim (Option-cases (aggregates lib rest)) [
                | inl t ↦ absurd (ground arith)
                | inr (o, t) ↦
                    let m =
                      validate_identifier-Marks lib no_mark (as_string (get_field "alias" agg))
                        alias r in
                    let same : record {
                      selects = aggregate function field alias ∷ o.selects;
                      aliases = (alias, true) ∷ o.aliases;
                    }
                        ≡ a =
                      ground arith in
                    rw (sym same) (
                      omega (
                        arith,
                        aggregate-NoMark function field alias (column-NoMark _ field q) m.marks,
                        aggregates-NoMark rest o t,
                      ))
              ]
            ]
      ]
  aggregates-NoMark (element null rest) a e = aggregates-NoMark rest a e
  aggregates-NoMark (element (bool b) rest) a e = aggregates-NoMark rest a e
  aggregates-NoMark (element (float x) rest) a e = aggregates-NoMark rest a e
  aggregates-NoMark (element (int64 x) rest) a e = aggregates-NoMark rest a e
  aggregates-NoMark (element (str s) rest) a e = aggregates-NoMark rest a e
  aggregates-NoMark (element (arr items) rest) a e = aggregates-NoMark rest a e
  aggregates-NoMark (element (foreign x) rest) a e = aggregates-NoMark rest a e

  pub where_clause-marks :
      (f : Fragment) → occurrences b'?' (where_clause lib f) ≡ occurrences b'?' f.sql
  unfolding occurrences
  where_clause-marks f = elim (Bool-cases (f.sql == "")) [
    | inl e ↦ rw (e, (==_iff f.sql "").0 e) refl
    | inr e ↦ rw e (occurrences-append b'?' "AND " f.sql ∙ omega arith)
  ]

  pub iceberg_source-NoMark : (path : String) → NoMark path → NoMark (iceberg_source path)
  unfolding iceberg_source occurrences
  iceberg_source-NoMark path h = occurrences-concat b'?' (iceberg_parts path) ∙ omega (arith, h)

  query_text-marks :
      (seconds : ℕ) (g : Grouping) (aggs threshold source condition : String)
      → NoMark (lib.show_int seconds)
      → NoMark g.selected
      → NoMark aggs
      → NoMark threshold
      → NoMark source
      → NoMark g.group_by
      → occurrences b'?' (query_text lib seconds g aggs threshold source condition)
        ≡ suc (suc (occurrences b'?' condition))
  unfolding query_text occurrences
  query_text-marks seconds g aggs threshold source condition d s a t c b =
      occurrences-concat b'?' (query_parts lib seconds g aggs threshold source condition)
      ∙ omega (arith, d, s, a, t, c, b)

-- Where a question mark is neither a letter nor a digit and stands in no number and not in the path of
-- the table, the query of a historical analysis has exactly as many placeholders as parameters: two for
-- the time range, and those of the filter, whatever the rule holds.
pub analysis_query-placeholders :
    (lib : Strings) (base_path start_str end_str : String) (rule : Members) (q : Fragment)
    → is_word lib b'?' ≡ false
    → ((n : ℕ) → NoMark (lib.show_int n))
    → NoMark base_path
    → analysis_query lib base_path start_str end_str rule ≡ some q
    → occurrences b'?' q.sql ≡ length q.params
unfolding analysis_query
analysis_query-placeholders lib base_path start_str end_str rule q n digits path e =
    let keys =
      elements_to_list (as_elements (get_field "keys" (as_members (get_field "grouping" rule)))) in
    let node = as_members (get_field "filters" rule) in
    let filter = parse_filter_node lib node in
    let seconds = size_seconds lib rule in
    let source = iceberg_source base_path in
    elim (Option-cases (grouping_of lib keys)) [
      | inl r ↦ absurd (ground arith)
      | inr (g, r) ↦
          elim (Option-cases (aggregates lib (as_elements (get_field "aggregations" rule)))) [
            | inl t ↦ absurd (ground arith)
            | inr (a, t) ↦
                let (selected, group_by) = grouping_of-NoMark lib n keys g r in
                let threshold = threshold_met_col lib (parsed_having lib rule a.aliases) in
                let same : record {
                  sql =
                      query_text lib seconds g (join ", " a.selects) threshold source
                        (where_clause lib filter);
                  params = str start_str ∷ str end_str ∷ filter.params;
                }
                    ≡ q =
                  ground arith in
                rw (sym same) (
                  query_text-marks lib n seconds g (join ", " a.selects) threshold source
                    (where_clause lib filter) (digits seconds) selected
                    (occurrences-join b'?' ", " a.selects comma
                      ∙ aggregates-NoMark lib n (as_elements (get_field "aggregations" rule)) a t)
                    (threshold_met_col-NoMark lib n _ (parsed_having-NoMark lib n rule a.aliases))
                    (iceberg_source-NoMark lib n base_path path) group_by
                  ∙ ap (λ k. suc (suc k))
                      (where_clause-marks lib n filter ∙ parse_filter_node-placeholders lib n node))
          ]
    ]
