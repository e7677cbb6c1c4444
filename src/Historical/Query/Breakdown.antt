-- ===== src/Historical/Query/Breakdown.antt =====
-- runHistoricalBreakdownImpl of internal/services/duckdb.go: the four queries of a drill-down, which
-- share the condition of the analysis and its parameters.
use velocity_engine_backend.Prelude.{
  String, ◌≡◌, ◌∙◌, false, List, [], ◌∷◌, map, length, All, suc, arith,
}
use velocity_engine_backend.Prelude.Text.{join, concat, occurrences, occurrences-concat}
use velocity_engine_backend.Json.{Members, str, get_field}
use velocity_engine_backend.Historical.{Strings, Fragment, is_word}
use velocity_engine_backend.Historical.Filter.{parse_filter_node}
use velocity_engine_backend.Historical.Filter.Sound.{parse_filter_node-placeholders}
use velocity_engine_backend.Historical.Query.{as_members, iceberg_source, where_clause}
use velocity_engine_backend.Historical.Query.Marks.{NoMark}
use velocity_engine_backend.Historical.Query.Placeholders.{
  iceberg_source-NoMark, where_clause-marks,
}

-- modalityBreakdownCols: a label and the column of its flag.
abbrev pub modality_breakdown_cols : List (String × String)
modality_breakdown_cols =
    ("OTP", "otpusedflag")
    ∷ ("PIN", "pinusedflag")
    ∷ ("Biometric — Fingerprint", "btfmrusedflag")
    ∷ ("Biometric — Iris", "btiirusedflag")
    ∷ ("Face", "faceused")
    ∷ ("Demographic", "piusedflag")
    ∷ []

abbrev pub modality_select : String × String → String
modality_select (label, col) =
    concat ("CAST(COALESCE(SUM(" ∷ col ∷ "),0) AS BIGINT) AS " ∷ col ∷ [])

abbrev pub base_where_parts : String → List String
base_where_parts condition =
    "\n\t\tWHERE try_cast(event_timestamp AS TIMESTAMP) >= try_cast(? AS TIMESTAMP)\n\t\tAND try_cast(event_timestamp AS TIMESTAMP) <= try_cast(? AS TIMESTAMP)\n\t\t"
    ∷ condition ∷ []

abbrev pub modality_parts : String → String → List String
modality_parts source base_where =
    "SELECT "
    ∷ join ", " (map modality_select modality_breakdown_cols)
    ∷ " FROM "
    ∷ source
    ∷ " "
    ∷ base_where
    ∷ []

-- runCategoryBreakdown, with no further condition
abbrev pub category_parts : String → String → String → List String
category_parts label source base_where =
    "SELECT " ∷ label ∷ " AS label, COUNT(*) AS count FROM " ∷ source ∷ " " ∷ base_where
    ∷ "  GROUP BY 1 ORDER BY count DESC LIMIT 10" ∷ []

abbrev pub score_parts : String → String → List String
score_parts source base_where =
    "\n\t\tSELECT CAST(bucket_start AS VARCHAR) || '-' || CAST(bucket_start + 10 AS VARCHAR) AS label, COUNT(*) AS count\n\t\tFROM (\n\t\t\tSELECT FLOOR(fingermatchscore / 10) * 10 AS bucket_start\n\t\t\tFROM "
    ∷ source ∷ "\n\t\t\t" ∷ base_where
    ∷ "\n\t\t\tAND fingermatchscore IS NOT NULL\n\t\t) t\n\t\tGROUP BY bucket_start\n\t\tORDER BY bucket_start"
    ∷ []

-- The queries in the order in which they are sent; an error ends the sequence.
unfoldable pub breakdown_queries : Strings → String → String → String → Members → List Fragment
unfolding parse_filter_node get_field iceberg_source
breakdown_queries lib base_path start_str end_str rule =
    let filter = parse_filter_node lib (as_members (get_field "filters" rule)) in
    let source = iceberg_source base_path in
    let base_where = concat (base_where_parts (where_clause lib filter)) in
    let base_params = str start_str ∷ str end_str ∷ filter.params in
    map (λ (parts : List String). record { sql = concat parts; params = base_params })
      (modality_parts source base_where
        ∷ category_parts "COALESCE(authresult, 'UNKNOWN')" source base_where
        ∷ category_parts "COALESCE(locationstatecode, 'UNKNOWN')" source base_where
        ∷ score_parts source base_where
        ∷ [])

abbrev pub IsBound : Fragment → Type 0
IsBound q = occurrences b'?' q.sql ≡ length q.params

-- Where a question mark is neither a letter nor a digit and stands not in the path of the table, each of
-- the four queries of a breakdown has exactly as many placeholders as parameters.
pub breakdown_queries-IsBound :
    (lib : Strings) (base_path start_str end_str : String) (rule : Members)
    → is_word lib b'?' ≡ false
    → NoMark base_path
    → All IsBound (breakdown_queries lib base_path start_str end_str rule)
unfolding breakdown_queries occurrences
breakdown_queries-IsBound lib base_path start_str end_str rule n path =
    let node = as_members (get_field "filters" rule) in
    let filter = parse_filter_node lib node in
    let source = iceberg_source base_path in
    let base = base_where_parts (where_clause lib filter) in
    let no_source : occurrences b'?' source ≡ 0 = iceberg_source-NoMark lib n base_path path in
    let two : occurrences b'?' (concat base) ≡ suc (suc (length filter.params)) =
      occurrences-concat b'?' base
      ∙ omega (arith, where_clause-marks lib n filter, parse_filter_node-placeholders lib n node) in
    (
      occurrences-concat b'?' (modality_parts source (concat base)) ∙ omega (arith, no_source, two),
      (
        occurrences-concat b'?'
              (category_parts "COALESCE(authresult, 'UNKNOWN')" source (concat base))
            ∙ omega (arith, no_source, two),
        (
          occurrences-concat b'?'
                (category_parts "COALESCE(locationstatecode, 'UNKNOWN')" source (concat base))
              ∙ omega (arith, no_source, two),
          (
            occurrences-concat b'?' (score_parts source (concat base))
                ∙ omega (arith, no_source, two),
            tt,
          ),
        ),
      ),
    )
