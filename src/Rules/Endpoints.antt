-- ===== src/Rules/Endpoints.antt =====
-- The endpoints of internal/handlers/rules.go that change no rule: LiveResults, Health and Readyz, and
-- LoadFromMySQL, which fills the map at the start.
use velocity_engine_backend.Prelude.{
  ℕ, ◌≤◌, String, List, Option, none, some, if◌then◌else◌, length, arith,
}
use velocity_engine_backend.Prelude.Int.{ℤ, pos, negsuc}
use velocity_engine_backend.Prelude.Maps.{Map}
use velocity_engine_backend.Json.{Row}
use velocity_engine_backend.Models.{RuleRecord}
use velocity_engine_backend.LiveStore.{LiveStore}
use velocity_engine_backend.Sockets.{WsManager, connection_count}
use velocity_engine_backend.MysqlPool as Mysql
use velocity_engine_backend.ClickHouse.{Result, ok, fail, Driver, Pool}
use velocity_engine_backend.ClickHouse.Queries.{get_live_results, is_ready}
use velocity_engine_backend.Analysis.{
  Reply, detail, results, clamp, click_house_status, click_house_detail,
}
use velocity_engine_backend.Rules.{World}

-- LoadFromMySQL, given what LoadActiveRules returned: an error leaves the map as it is.
unfoldable pub load_from_mysql : Option (Map String RuleRecord) → World → World
load_from_mysql none w = w
load_from_mysql (some loaded) w = record w { rules_db = loaded }

abbrev pub scanned_limit : (String → Option ℤ) → Option String → Option ℤ
scanned_limit scan none = none
scanned_limit scan (some text) = scan text

-- The limit of LiveResults: `scan` is fmt.Sscanf with %d, the text that of the parameter, if it is there.
unfoldable pub live_limit : (String → Option ℤ) → Option String → ℕ
unfolding clamp
live_limit scan text = clamp 1000 100 (scanned_limit scan text)

abbrev pub live_reply : Result (List Row) × Pool → Reply (List Row) × Pool
live_reply (ok rows, p) = (results rows, p)
live_reply (fail e, p) = (detail (click_house_status e) (click_house_detail e), p)

-- LiveResults
unfoldable pub live_results :
    Driver → (String → Option ℤ) → String → Option String → Pool → Reply (List Row) × Pool
unfolding live_limit get_live_results click_house_status
live_results d scan rule_id limit p =
    live_reply (get_live_results d rule_id (pos (live_limit scan limit)) p)

-- What the live store's Stats returns
pub record StoreStats : Type 0 where
  pub total_rows : ℕ
  pub rule_count : ℕ
  pub dropped_rows : ℕ

unfoldable pub stats : LiveStore → StoreStats
stats s = record {
  total_rows = s.total_rows;
  rule_count = length s.table;
  dropped_rows = s.dropped_rows;
}

-- The response of Health
pub record HealthReport : Type 0 where
  pub live_store : StoreStats
  pub ws_connections : ℕ
  pub mysql : String

-- Health; `reason` is the text of the error where MySQL is not ready.
unfoldable pub health :
    Mysql.Server → String → LiveStore → WsManager → Mysql.Pool → HealthReport × Mysql.Pool
unfolding stats connection_count Mysql.is_mysql_ready
health server reason s m pool =
    let result = Mysql.is_mysql_ready server pool in
    (
      record {
        live_store = stats s;
        ws_connections = connection_count m;
        mysql = if result.0 then "ok" else reason;
      },
      result.1,
    )

-- Readyz: the statistics with status 200, or the reason with 503
unfoldable pub readyz : Driver → String → LiveStore → Pool → Reply StoreStats × Pool
unfolding is_ready stats
readyz d reason s p =
    let result = is_ready d p in
    (if result.0 then results (stats s) else detail 503 reason, result.1)

clamp-bounds : (n : Option ℤ) → (1 ≤ clamp 1000 100 n) × (clamp 1000 100 n ≤ 1000)
unfolding clamp
clamp-bounds none = (omega arith, omega arith)
clamp-bounds (some (negsuc n)) = (omega arith, omega arith)
clamp-bounds (some (pos n)) = (ground arith, ground arith)

-- Whatever the request asks for, LiveResults asks ClickHouse for 1 to 1000 rows.
pub live_limit-bounds :
    (scan : String → Option ℤ) (text : Option String)
    → (1 ≤ live_limit scan text) × (live_limit scan text ≤ 1000)
unfolding live_limit
live_limit-bounds scan text = clamp-bounds (scanned_limit scan text)
