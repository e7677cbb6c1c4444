-- ===== src/Analysis.antt =====
-- internal/handlers/analysis.go: the endpoints that read live results, anomalies and aggregates. Gin,
-- net/url, strconv and strings are parameters.
pub mod Limits
pub mod Past
pub mod Held
use velocity_engine_backend.Prelude.{
  ℕ, String, Bool, true, false, ◌&&◌, ◌||◌, List, [], ◌∷◌, ◌++◌, Option, none, some, if◌then◌else◌,
  ◌==◌, comparable_string, leb, length,
}
use velocity_engine_backend.Prelude.Int.{ℤ, pos, negsuc}
use velocity_engine_backend.Prelude.Maps.{Map}
use velocity_engine_backend.Json.{Row}
use velocity_engine_backend.LiveStore.{LiveStore, get_all}
use velocity_engine_backend.Consumers.{AnomalyStore, get_recent}
use velocity_engine_backend.ClickHouse.{
  Error, unavailable, other_error, Result, ok, fail, Driver, Pool,
}
use velocity_engine_backend.ClickHouse.Queries.{
  GroupSummary, get_agg_results, get_top_groups, get_group_detail,
}
use velocity_engine_backend.Historical.Slot.{Failure, busy}

-- What the handlers use of Go's standard library. `query_unescape` is "" where it fails.
pub record Library : Type 0 where
  pub split : String → String → List String
  pub trim_space : String → String
  pub atoi : String → Option ℤ
  pub query_unescape : String → String

-- c.Query and c.DefaultQuery of one request: the parameter's text, or the default.
abbrev pub Query : Type 0
Query = String → String → String

-- A response: a detail under a status, or results with status 200.
pub data Reply {ℓ} (A : Type ℓ) : Type ℓ where
  detail : ℕ → String → Reply A
  results : A → Reply A

-- The status of respondHistoricalError and respondClickHouseError
unfoldable pub historical_status : Failure → ℕ
historical_status busy = 503
historical_status _ = 500

unfoldable pub click_house_status : Error → ℕ
click_house_status unavailable = 503
click_house_status other_error = 500

abbrev pub click_house_detail : Error → String
click_house_detail unavailable =
    "The analytics store is temporarily unavailable. Please retry in a few seconds."
click_house_detail other_error = "Internal server error"

-- A number from 1 to `most`, or the default for any other text
unfoldable pub clamp : ℕ → ℕ → Option ℤ → ℕ
clamp most default (some (pos n)) = if leb 1 n && leb n most then n else default
clamp most default (some (negsuc n)) = default
clamp most default none = default

-- A number that is not negative
unfoldable pub offset_of : Option ℤ → ℕ
offset_of (some (pos n)) = n
offset_of (some (negsuc n)) = 0
offset_of none = 0

module _ (lib : Library) where
  -- The loop over the parts of a list of ids
  unfoldable pub trimmed : List String → List String
  trimmed [] = []
  trimmed (r ∷ rs) =
      let rest = trimmed rs in let id = lib.trim_space r in if id == "" then rest else id ∷ rest

  abbrev pub rule_ids : Query → List String
  rule_ids q = trimmed (lib.split (q "rule_ids" "") ",")

  abbrev pub time_of : Query → String → String
  time_of q name = lib.trim_space (lib.query_unescape (q name ""))

  -- LiveAnalysis, which reads the hours and does not use them
  unfoldable pub live_analysis : Query → LiveStore → Map String (List Row)
  unfolding trimmed get_all
  live_analysis q s = get_all (rule_ids q) s.table

  -- The loop over the ids
  unfoldable pub recent_of_all : ℕ → AnomalyStore → List String → List Row
  unfolding get_recent
  recent_of_all limit s [] = []
  recent_of_all limit s (id ∷ ids) = get_recent id limit s ++ recent_of_all limit s ids

  abbrev pub anomaly_limit : Query → ℕ
  anomaly_limit q = clamp 500 100 (lib.atoi (q "limit" "100"))

  abbrev pub recent_of : ℕ → AnomalyStore → List String → List Row
  recent_of limit s [] = get_recent "" limit s
  recent_of limit s (id ∷ ids) = recent_of_all limit s (id ∷ ids)

  -- AnomalyAnalysis; `none` is a handler without a store.
  unfoldable pub anomaly_analysis : Query → Option AnomalyStore → List Row
  unfolding clamp trimmed recent_of_all get_recent
  anomaly_analysis q none = []
  anomaly_analysis q (some s) = recent_of (anomaly_limit q) s (rule_ids q)

  abbrev pub reply {ℓ} : {A : Type ℓ} → Result A × Pool → Reply A × Pool
  reply (ok a, p) = (results a, p)
  reply (fail e, p) = (detail (click_house_status e) (click_house_detail e), p)

  abbrev pub is_incomplete : Query → Bool
  is_incomplete q = time_of q "start_ts" == "" || time_of q "end_ts" == ""

  -- AggAnalysis
  unfoldable pub agg_analysis : Driver → Query → Pool → Reply (Map String (List Row)) × Pool
  unfolding trimmed get_agg_results click_house_status
  agg_analysis d q p =
      if leb (length (rule_ids q)) 0
      then (detail 400 "Please select at least one rule to analyze.", p)
      else if is_incomplete q
      then (detail 400 "Start and end timestamps are required.", p)
      else reply (get_agg_results d (rule_ids q) (time_of q "start_ts") (time_of q "end_ts") p)

  abbrev pub group_limit : Query → ℕ
  group_limit q = clamp 200 50 (lib.atoi (q "limit" "50"))

  abbrev pub group_offset : Query → ℕ
  group_offset q = offset_of (lib.atoi (q "offset" "0"))

  -- TopGroupsAnalysis
  unfoldable pub top_groups_analysis :
      Driver → String → Query → Pool → Reply (List GroupSummary) × Pool
  unfolding clamp offset_of get_top_groups click_house_status
  top_groups_analysis d rule_id q p =
      if rule_id == ""
      then (detail 400 "rule_id is required.", p)
      else if is_incomplete q
      then (detail 400 "Start and end timestamps are required.", p)
      else reply (
          get_top_groups d rule_id (time_of q "start_ts") (time_of q "end_ts") (pos (group_limit q))
            (pos (group_offset q)) p)

  -- GroupDetailAnalysis
  unfoldable pub group_detail_analysis : Driver → String → Query → Pool → Reply (List Row) × Pool
  unfolding get_group_detail click_house_status
  group_detail_analysis d rule_id q p =
      if rule_id == "" || q "key" "" == ""
      then (detail 400 "rule_id and key are required.", p)
      else if is_incomplete q
      then (detail 400 "Start and end timestamps are required.", p)
      else reply
          (get_group_detail d rule_id (q "key" "") (time_of q "start_ts") (time_of q "end_ts") p)
