-- ===== src/ClickHouse/Queries.antt =====
-- The reads of internal/services/clickhouse.go, each with the query that it sends.
use velocity_engine_backend.Prelude.{
  ℕ, suc, ◌-◌, ◌^◌, String, Bool, true, false, List, [], ◌∷◌, ◌++◌, map, Option, none, some,
  if◌then◌else◌, ltb, length,
}
use velocity_engine_backend.Prelude.Int.{ℤ, pos, negsuc, lt_int}
use velocity_engine_backend.Prelude.Maps.{Map}
use velocity_engine_backend.Prelude.Text.{concat}
use velocity_engine_backend.Json.{Row, str, int64, at}
use velocity_engine_backend.Historical.{Fragment}
use velocity_engine_backend.ClickHouse.{
  Error, unavailable, other_error, Result, ok, fail, Clock, instant, refused, torn, scanned, Number,
  signed, unsigned, floating, no_number, Driver, Pool, get_click_house_db, reset_click_house_conn,
  read, grouped_result, placeholders,
}

abbrev pub live_parts : String → List String
live_parts table =
    "SELECT * FROM " ∷ table
    ∷ " FINAL\n\t\tWHERE ruleId = ?\n\t\tORDER BY windowStart DESC\n\t\tLIMIT ?" ∷ []

-- getLiveResultsImpl
unfoldable pub get_live_results : Driver → String → ℤ → Pool → Result (List Row) × Pool
unfolding read
get_live_results d rule_id limit p =
    read d (record { sql = concat (live_parts d.table); params = str rule_id ∷ int64 limit ∷ [] }) p

abbrev pub multi_parts : String → List String → List String
multi_parts table [] =
    "SELECT * FROM " ∷ table
    ∷ " FINAL\n\t\t\tWHERE windowStart >= now() - INTERVAL ? HOUR\n\t\t\tORDER BY windowStart DESC\n\t\t\tLIMIT 5000"
    ∷ []
multi_parts table (id ∷ ids) =
    "SELECT * FROM "
    ∷ table
    ∷ " FINAL\n\t\t\tWHERE ruleId IN ("
    ∷ placeholders (length (id ∷ ids))
    ∷ ")\n\t\t\tAND windowStart >= now() - INTERVAL ? HOUR\n\t\t\tORDER BY windowStart DESC\n\t\t\tLIMIT 5000"
    ∷ []

abbrev pub multi_query : String → List String → ℤ → Fragment
multi_query table rule_ids hours = record {
  sql = concat (multi_parts table rule_ids);
  params = map str rule_ids ++ int64 hours ∷ [];
}

-- getLiveResultsMultiImpl
unfoldable pub get_live_results_multi :
    Driver → List String → ℤ → Pool → Result (Map String (List Row)) × Pool
unfolding read placeholders
get_live_results_multi d rule_ids hours p =
    let (result, after) = read d (multi_query d.table rule_ids hours) p in
    (grouped_result result, after)

abbrev pub agg_parts : String → ℕ → List String
agg_parts table n =
    "SELECT * FROM "
    ∷ table
    ∷ " FINAL\n\t\tWHERE ruleId IN ("
    ∷ placeholders n
    ∷ ")\n\t\tAND windowStart >= parseDateTimeBestEffort(?)\n\t\tAND windowStart <= parseDateTimeBestEffort(?)\n\t\tORDER BY windowStart DESC\n\t\tLIMIT 5000"
    ∷ []

abbrev pub agg_query : String → List String → String → String → Fragment
agg_query table rule_ids start_ts end_ts = record {
  sql = concat (agg_parts table (length rule_ids));
  params = map str rule_ids ++ str start_ts ∷ str end_ts ∷ [];
}

-- getAggResultsImpl: without rules nothing is asked.
unfoldable pub get_agg_results :
    Driver → List String → String → String → Pool → Result (Map String (List Row)) × Pool
unfolding read placeholders
get_agg_results d [] start_ts end_ts p = (ok [], p)
get_agg_results d (id ∷ ids) start_ts end_ts p =
    let (result, after) = read d (agg_query d.table (id ∷ ids) start_ts end_ts) p in
    (grouped_result result, after)

abbrev pub detail_parts : String → List String
detail_parts table =
    "SELECT * FROM " ∷ table
    ∷ " FINAL\n\t\tWHERE ruleId = ? AND groupKey = ?\n\t\t\tAND windowStart >= parseDateTimeBestEffort(?)\n\t\t\tAND windowStart <= parseDateTimeBestEffort(?)\n\t\tORDER BY windowStart DESC\n\t\tLIMIT 2000"
    ∷ []

abbrev pub detail_query : String → String → String → String → String → Fragment
detail_query table rule_id group_key start_ts end_ts = record {
  sql = concat (detail_parts table);
  params = str rule_id ∷ str group_key ∷ str start_ts ∷ str end_ts ∷ [];
}

-- getGroupDetailImpl
unfoldable pub get_group_detail :
    Driver → String → String → String → String → Pool → Result (List Row) × Pool
unfolding read
get_group_detail d rule_id group_key start_ts end_ts p =
    read d (detail_query d.table rule_id group_key start_ts end_ts) p

pub record GroupSummary : Type 0 where
  pub group_key : String
  pub total_windows : ℤ
  pub breached_windows : ℤ
  pub breach_rate : ℕ
  pub last_seen : String

-- int64(n) of a uint64 wraps around.
abbrev pub wrap : ℕ → ℤ
wrap n = if ltb n (2 ^ 63) then pos n else negsuc (2 ^ 64 - 1 - n)

-- toInt64
unfoldable pub to_int64 : Driver → Number → ℤ
to_int64 d (signed n) = n
to_int64 d (unsigned n) = wrap n
to_int64 d (floating bits) = d.int_of_float bits
to_int64 d no_number = pos 0

abbrev pub digits_of : Clock → String
digits_of (instant digits) = digits
digits_of _ = ""

-- The summary of a row. The rate is 0 (whose bits are 0) without windows.
unfoldable pub summarize : Driver → Row → GroupSummary
unfolding at to_int64
summarize d row =
    let windows = to_int64 d (d.number (at "totalWindows" row)) in
    let breached = to_int64 d (d.number (at "breachedWindows" row)) in
    record {
      group_key = d.sprint (at "groupKey" row);
      total_windows = windows;
      breached_windows = breached;
      breach_rate = if lt_int (pos 0) windows then d.rate breached windows else 0;
      last_seen = digits_of (d.wall_clock_direct (at "lastSeen" row));
    }

abbrev pub top_parts : String → List String
top_parts table =
    "\n\t\tSELECT\n\t\t\tgroupKey,\n\t\t\tcount() AS totalWindows,\n\t\t\tsum(thresholdBreached) AS breachedWindows,\n\t\t\tmax(windowEnd) AS lastSeen\n\t\tFROM "
    ∷ table
    ∷ " FINAL\n\t\tWHERE ruleId = ?\n\t\t\tAND windowStart >= parseDateTimeBestEffort(?)\n\t\t\tAND windowStart <= parseDateTimeBestEffort(?)\n\t\tGROUP BY groupKey\n\t\tORDER BY breachedWindows DESC, totalWindows DESC\n\t\tLIMIT ? OFFSET ?"
    ∷ []

abbrev pub top_query : String → String → String → String → ℤ → ℤ → Fragment
top_query table rule_id start_ts end_ts limit offset = record {
  sql = concat (top_parts table);
  params = str rule_id ∷ str start_ts ∷ str end_ts ∷ int64 limit ∷ int64 offset ∷ [];
}

abbrev pub answer_top : Driver → Fragment → Option Error × Pool → Result (List GroupSummary) × Pool
answer_top d q (some e, p) = (fail e, p)
answer_top d q (none, p) = elim (d.query p.sent q) [
  | refused ↦ (fail unavailable, reset_click_house_conn (record p { sent = suc p.sent }))
  | torn ↦ (fail other_error, record p { sent = suc p.sent })
  | scanned rows ↦ (ok (map (summarize d) rows), record p { sent = suc p.sent })
]

-- getTopGroupsImpl
unfoldable pub get_top_groups :
    Driver → String → String → String → ℤ → ℤ → Pool → Result (List GroupSummary) × Pool
unfolding get_click_house_db summarize
get_top_groups d rule_id start_ts end_ts limit offset p =
    answer_top d (top_query d.table rule_id start_ts end_ts limit offset) (get_click_house_db d p)

abbrev pub ping_again : Driver → Option Error × Pool → Bool × Pool
ping_again d (some e, p) = (false, p)
ping_again d (none, p) =
    if d.ping p.sent
    then (true, record p { sent = suc p.sent })
    else (false, reset_click_house_conn (record p { sent = suc p.sent }))

-- IsReady, without the text of the reason
unfoldable pub is_ready : Driver → Pool → Bool × Pool
unfolding get_click_house_db
is_ready d p = ping_again d (get_click_house_db d p)
