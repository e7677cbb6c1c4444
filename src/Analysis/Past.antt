-- ===== src/Analysis/Past.antt =====
-- The historical endpoints of internal/handlers/analysis.go: HistoricalTest, HistoricalAnalysis and
-- HistoricalBreakdown. Gin, encoding/json, net/url and the clock are parameters.
use velocity_engine_backend.Prelude.{
  ℕ, String, ◌||◌, List, Option, none, some, if◌then◌else◌, ◌==◌, comparable_string, str_append,
}
use velocity_engine_backend.Json.{Members, Row}
use velocity_engine_backend.Models.{VelocityRule}
use velocity_engine_backend.Rules.{Bound, unbound, bound}
use velocity_engine_backend.Historical.Slot.{Failure, busy, query_failed}
use velocity_engine_backend.Historical.Run.{
  Engine, Session, Trouble, invalid_range, failed, Outcome, stopped, done, run_historical_analysis,
  run_historical_breakdown,
}
use velocity_engine_backend.Analysis.{
  Library, Query, Reply, detail, results, historical_status, clamp, time_of,
}

-- json.Marshal of a rule and json.Unmarshal of its text, and the range of the last days up to now, in the
-- IST zone, as two texts.
pub record PastLibrary : Type 0 where
  pub library : Library
  pub marshal_rule : VelocityRule → Option String
  pub unmarshal_rule : String → Option Members
  pub last_days : ℕ → String × String

-- The failure that respondHistoricalError sees
unfoldable pub failure_of : Trouble → Failure
failure_of invalid_range = query_failed
failure_of (failed failure) = failure

unfoldable pub trouble_detail : Failure → String
trouble_detail busy = "The historical query engine is busy. Please retry in a few seconds."
trouble_detail _ = "Internal server error"

-- The answer to an outcome
unfoldable pub past_reply {ℓ} : {A : Type ℓ} → Outcome A × Session → Reply A × Session
unfolding failure_of trouble_detail historical_status
past_reply (done out, s) = (results out, s)
past_reply (stopped trouble, s) =
    (detail (historical_status (failure_of trouble)) (trouble_detail (failure_of trouble)), s)

module _ (lib : PastLibrary) (engine : Engine) where
  -- The rule as the map that the queries are built from, or the answer without one
  unfoldable pub with_dict {ℓ} :
      {A : Type ℓ}
      → VelocityRule
      → (Members → Session → Reply A × Session)
      → Session
      → Reply A × Session
  with_dict rule body s = elim (lib.marshal_rule rule) [
    | none ↦ (detail 500 "Failed to serialize rule", s)
    | some text ↦ elim (lib.unmarshal_rule text) [
      | none ↦ (detail 500 "Failed to parse rule", s)
      | some dict ↦ body dict s
    ]
  ]

  abbrev pub days_back : Query → ℕ
  days_back q = clamp 90 7 (lib.library.atoi (q "days_back" "7"))

  -- HistoricalTest
  unfoldable pub historical_test : Query → Bound VelocityRule → Session → Reply (List Row) × Session
  unfolding clamp with_dict past_reply run_historical_analysis
  historical_test q (unbound text) s = (detail 400 (str_append "Invalid request body: " text), s)
  historical_test q (bound rule) s =
      let (start_str, end_str) = lib.last_days (days_back q) in
      with_dict rule
        (λ dict t. past_reply (run_historical_analysis engine dict start_str end_str t)) s

  abbrev pub start_ts : Query → String
  start_ts q = time_of lib.library q "start_ts"

  abbrev pub end_ts : Query → String
  end_ts q = time_of lib.library q "end_ts"

  -- What HistoricalAnalysis and HistoricalBreakdown ask before they run
  unfoldable pub with_range {ℓ} :
      {A : Type ℓ}
      → Query
      → Bound VelocityRule
      → (Members → String → String → Session → Outcome A × Session)
      → Session
      → Reply A × Session
  unfolding with_dict past_reply
  with_range q (unbound text) run s = (detail 400 (str_append "Invalid request body: " text), s)
  with_range q (bound rule) run s =
      if start_ts q == "" || end_ts q == ""
      then (detail 400 "start_ts and end_ts are required query parameters", s)
      else with_dict rule (λ dict t. past_reply (run dict (start_ts q) (end_ts q) t)) s

  -- HistoricalAnalysis
  unfoldable pub historical_analysis :
      Query → Bound VelocityRule → Session → Reply (List Row) × Session
  unfolding with_range run_historical_analysis
  historical_analysis q body = with_range q body (run_historical_analysis engine)

  -- HistoricalBreakdown
  unfoldable pub historical_breakdown :
      Query → Bound VelocityRule → Session → Reply (List (List Row)) × Session
  unfolding with_range run_historical_breakdown
  historical_breakdown q body = with_range q body (run_historical_breakdown engine)
