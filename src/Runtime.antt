-- ===== src/Runtime.antt =====
-- What the backend takes from Go's standard library and from its drivers: fmt, encoding/json and
-- time. The model takes it as one argument and assumes nothing of it unless a theorem says so.
use velocity_engine_backend.Prelude.{ℕ, String, Option}
use velocity_engine_backend.Json.{Value, Row}

-- The outcome of `json.Unmarshal` into a nil `map[string]interface{}`: the text `null` decodes
-- with no error and leaves the map nil.
pub data Decoded : Type 0 where
  malformed : Decoded
  nil_map : Decoded
  object : Row → Decoded

pub record Runtime : Type 0 where
  -- fmt.Sprintf("%v", x)
  pub sprint : Value → String
  -- json.Unmarshal into an interface{} and into a map
  pub unmarshal : String → Option Value
  pub unmarshal_object : String → Decoded
  -- time.ParseInLocation("2006-01-02 15:04:05", s, IST), in nanoseconds
  pub parse_ist : String → Option ℕ
  -- time.Parse with time.RFC3339 and with "2006-01-02T15:04:05"
  pub parse_rfc3339 : String → Option ℕ
  pub parse_naive_iso : String → Option ℕ
  -- time.Unix(0, ms * 1e6) of an int64, and of a float64 truncated to one
  pub unix_ms : Value → ℕ
