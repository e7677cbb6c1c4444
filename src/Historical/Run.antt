-- ===== src/Historical/Run.antt =====
-- RunHistoricalAnalysis and RunHistoricalBreakdown of internal/services/duckdb.go: the time range, the slot,
-- the connection, the queries, and what becomes of their rows.
pub mod Kept
use velocity_engine_backend.Prelude.{
  ℕ, suc, ◌+◌, ◌-◌, String, Bool, true, false, List, [], ◌∷◌, ◌++◌, map, Option, none, some,
  if◌then◌else◌, ◌==◌, comparable_nat, comparable_string, str_append, leb, length,
}
use velocity_engine_backend.Prelude.Int.{ℤ, pos}
use velocity_engine_backend.Prelude.Maps.{Map, insert}
use velocity_engine_backend.Json.{Value, Members, Row, null, str, int64}
use velocity_engine_backend.Historical.{Strings, Fragment}
use velocity_engine_backend.Historical.Query.{analysis_query}
use velocity_engine_backend.Historical.Query.Breakdown.{breakdown_queries, modality_breakdown_cols}
use velocity_engine_backend.Historical.Slot.{Failure, init_failed, query_failed}
use velocity_engine_backend.Historical.Connection.{
  Settings, Connection, Duck, DuckServer, init_duck_db, maybe_reset_on_fatal,
}

-- A scanned value as a time: no time, a nil pointer to one, or its text in the IST zone.
pub data Moment : Type 0 where
  no_time : Moment
  no_instant : Moment
  ist_text : String → Moment

-- What a query gives: an error, fatal or not, an error of its columns, or its rows, one of which may not
-- scan, and whether the iteration ended without an error.
pub data Answer : Type 0 where
  refused : Bool → Answer
  no_columns : Answer
  rows : List (Option (List (String × Value))) → Bool → Answer

-- What the code uses of the standard library, of DuckDB and of the settings. `parse_ist` is
-- time.ParseInLocation, `week_before` Add of seven days, `size` the length in bytes, `acquired n` the outcome
-- of acquireDuckDB with n tokens in the channel, `answer n` that of the n-th query.
pub record Engine : Type 0 where
  pub strings : Strings
  pub size : String → ℕ
  pub parse_ist : String → Option ℕ
  pub now : ℕ
  pub week_before : ℕ → ℕ
  pub format_utc : ℕ → String
  pub moment : Value → Moment
  pub base_path : String
  pub settings : Settings
  pub server : DuckServer
  pub acquired : ℕ → Option Failure
  pub answer : ℕ → Fragment → Answer

-- The tokens in duckDBSem, the connection, and how many queries have been sent.
pub record Session : Type 0 where
  pub tokens : ℕ
  pub duck : Duck
  pub sent : ℕ

-- Why a request ends without a result: a bad time range, or a failure behind it.
pub data Trouble : Type 0 where
  invalid_range : Trouble
  failed : Failure → Trouble

pub data Outcome {ℓ} (A : Type ℓ) : Type ℓ where
  stopped : Trouble → Outcome A
  done : A → Outcome A

module _ (engine : Engine) where
  abbrev pub spaced : String → String
  spaced ts = engine.strings.replace_first ts "T" " "

  -- parseIST
  unfoldable pub parse_time : String → Option ℕ
  parse_time ts =
      if engine.size (spaced ts) == 16
      then engine.parse_ist (str_append (spaced ts) ":00")
      else engine.parse_ist (spaced ts)

  unfoldable pub end_time : String → Option ℕ
  unfolding parse_time
  end_time end_ts = if end_ts == "" then some engine.now else parse_time end_ts

  unfoldable pub start_time : String → ℕ → Option ℕ
  unfolding parse_time
  start_time start_ts end_dt =
      if start_ts == "" then some (engine.week_before end_dt) else parse_time start_ts

  -- The time range of prepareIcebergQuery, as it is bound to the queries
  unfoldable pub time_range : String → String → Option (String × String)
  unfolding end_time start_time
  time_range start_ts end_ts = elim (end_time end_ts) [
    | none ↦ none
    | some end_dt ↦ elim (start_time start_ts end_dt) [
      | none ↦ none
      | some start_dt ↦ some (engine.format_utc start_dt, engine.format_utc end_dt)
    ]
  ]

  abbrev pub take_token : Session → Session
  take_token s = record s { tokens = suc s.tokens }

  -- q.release
  abbrev pub give_back {ℓ} : {A : Type ℓ} → Outcome A × Session → Outcome A × Session
  give_back (result, s) = (result, record s { tokens = s.tokens - 1 })

  abbrev pub connected {ℓ} :
      {A : Type ℓ}
      → (Session → Outcome A × Session)
      → Option Connection × Duck
      → Session
      → Outcome A × Session
  connected body (none, d) s = (stopped (failed init_failed), record s { duck = d })
  connected body (some _, d) s = body (record s { duck = d })

  -- prepareIcebergQuery, and the body between it and the deferred release
  unfoldable pub with_iceberg {ℓ} :
      {A : Type ℓ}
      → String
      → String
      → (String → String → Session → Outcome A × Session)
      → Session
      → Outcome A × Session
  unfolding time_range init_duck_db
  with_iceberg start_ts end_ts body s = elim (time_range start_ts end_ts) [
    | none ↦ (stopped invalid_range, s)
    | some (start_str, end_str) ↦ elim (engine.acquired s.tokens) [
      | some failure ↦ (stopped (failed failure), s)
      | none ↦ give_back (
          connected (body start_str end_str) (init_duck_db engine.server engine.settings s.duck)
            (take_token s))
    ]
  ]

  -- maybeResetOnFatal, after an answer
  abbrev pub is_fatal : Answer → Bool
  is_fatal (refused fatal) = fatal
  is_fatal no_columns = false
  is_fatal (rows _ _) = false

  -- conn.QueryContext
  unfoldable pub ask : Fragment → Session → Answer × Session
  unfolding maybe_reset_on_fatal
  ask query s = (
    engine.answer s.sent query,
    record s {
      sent = suc s.sent;
      duck = maybe_reset_on_fatal (is_fatal (engine.answer s.sent query)) s.duck;
    },
  )

  abbrev pub shown_value : Moment → Value → Value
  shown_value no_time v = v
  shown_value no_instant v = null
  shown_value (ist_text text) v = str text

  unfoldable pub shown_row : List (String × Value) → Row → Row
  unfolding insert
  shown_row [] row = row
  shown_row ((col, v) ∷ rest) row =
      shown_row rest (insert col (shown_value (engine.moment v) v) row)

  -- The loop over the rows of an analysis: what does not scan is logged and left out.
  unfoldable pub shown_rows : List (Option (List (String × Value))) → List Row
  unfolding shown_row
  shown_rows [] = []
  shown_rows (none ∷ rest) = shown_rows rest
  shown_rows (some columns ∷ rest) = shown_row columns [] ∷ shown_rows rest

  unfoldable pub analysis_rows : Answer → Outcome (List Row)
  unfolding shown_rows
  analysis_rows (refused _) = stopped (failed query_failed)
  analysis_rows no_columns = stopped (failed query_failed)
  analysis_rows (rows scanned ended) =
      if ended then done (shown_rows scanned) else stopped (failed query_failed)

  unfoldable pub analyse : Members → String → String → Session → Outcome (List Row) × Session
  unfolding analysis_query ask analysis_rows
  analyse rule start_str end_str s =
      elim (analysis_query engine.strings engine.base_path start_str end_str rule) [
        | none ↦ (stopped (failed query_failed), s)
        | some query ↦ (analysis_rows (ask query s).0, (ask query s).1)
      ]

  -- RunHistoricalAnalysis
  unfoldable pub run_historical_analysis :
      Members → String → String → Session → Outcome (List Row) × Session
  unfolding with_iceberg analyse
  run_historical_analysis rule start_ts end_ts = with_iceberg start_ts end_ts (analyse rule)

  abbrev pub labelled : Value → Value → Row
  labelled label count = ("label", label) ∷ ("count", count) ∷ []

  -- `count, _ := vals[i].(int64)`
  abbrev pub as_count : Value → Value
  as_count (int64 n) = int64 n
  as_count _ = int64 (pos 0)

  -- The modality mix, one count for each column
  unfoldable pub mix : List (String × String) → List (String × Value) → List Row
  mix [] vals = []
  mix (_ ∷ _) [] = []
  mix ((label, _) ∷ cols) ((_, v) ∷ vals) = labelled (str label) (as_count v) ∷ mix cols vals

  -- Only the first row is read, and how the iteration ended is not asked.
  unfoldable pub modality_mix : Answer → Option (List Row)
  unfolding mix
  modality_mix (refused _) = none
  modality_mix no_columns = none
  modality_mix (rows [] ended) = some []
  modality_mix (rows (none ∷ _) ended) = none
  modality_mix (rows (some vals ∷ _) ended) = some (mix modality_breakdown_cols vals)

  unfoldable pub label_rows : List (Option (List (String × Value))) → Option (List Row)
  label_rows [] = some []
  label_rows (some ((_, label) ∷ (_, count) ∷ []) ∷ rest) =
      let others = label_rows rest in
      elim others [ none ↦ none | some out ↦ some (labelled label count ∷ out) ]
  label_rows (_ ∷ rest) = none

  -- runCategoryBreakdown, and the histogram, from the answer on
  unfoldable pub categories : Answer → Option (List Row)
  unfolding label_rows
  categories (refused _) = none
  categories no_columns = none
  categories (rows scanned ended) = if ended then label_rows scanned else none

  -- The queries with what reads their answers, in order; the first that fails ends them.
  unfoldable pub ask_all :
      List (Fragment × (Answer → Option (List Row))) → Session → Outcome (List (List Row)) × Session
  unfolding ask
  ask_all [] s = (done [], s)
  ask_all ((query, read) ∷ queries) s =
      let rest = ask_all queries (ask query s).1 in
      elim (read (ask query s).0) [
        | none ↦ (stopped (failed query_failed), (ask query s).1)
        | some out ↦ elim rest.0 [
          | stopped trouble ↦ (stopped trouble, rest.1)
          | done outs ↦ (done (out ∷ outs), rest.1)
        ]
      ]

  -- A query with each of the functions, one after the other
  abbrev pub paired :
      List Fragment
      → List (Answer → Option (List Row))
      → List (Fragment × (Answer → Option (List Row)))
  paired (q ∷ qs) (f ∷ fs) = (q, f) ∷ paired qs fs
  paired _ _ = []

  unfoldable pub break_down :
      Members → String → String → Session → Outcome (List (List Row)) × Session
  unfolding breakdown_queries ask_all modality_mix categories
  break_down rule start_str end_str = ask_all (
      paired (breakdown_queries engine.strings engine.base_path start_str end_str rule)
        (modality_mix ∷ categories ∷ categories ∷ categories ∷ []))

  -- RunHistoricalBreakdown: modality_mix, auth_outcome, geo_hotspot and match_score_histogram, in order
  unfoldable pub run_historical_breakdown :
      Members → String → String → Session → Outcome (List (List Row)) × Session
  unfolding with_iceberg break_down
  run_historical_breakdown rule start_ts end_ts = with_iceberg start_ts end_ts (break_down rule)
