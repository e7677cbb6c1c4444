-- ===== src/ClickHouse.antt =====
-- internal/services/clickhouse.go: the results that ClickHouse keeps, and the pool that is opened again
-- after a failure. The driver, encoding/json and fmt are parameters.
pub mod Queries
pub mod Grouped
pub mod Recovery
use Prim.Native.Char.{code}
use velocity_engine_backend.Prelude.{
  ℕ, zero, suc, ◌+◌, ◌-◌, String, Bool, true, false, ◌&&◌, ◌||◌, not, List, [], ◌∷◌, ◌++◌, map,
  Option, none, some, if◌then◌else◌, ◌==◌, comparable_string, comparable_nat, str_append, ltb,
  length, replicate,
}
use velocity_engine_backend.Prelude.Int.{ℤ, pos, negsuc}
use velocity_engine_backend.Prelude.Maps.{Map, lookup, insert}
use velocity_engine_backend.Prelude.Text.{every, concat}
use velocity_engine_backend.Json.{Value, Row, null, str, int64, at, as_string}
use velocity_engine_backend.Historical.{Fragment}
use velocity_engine_backend.Historical.Having.{is_ascii_letter, is_ascii_digit}

-- The errors that the callers tell apart: ErrClickHouseUnavailable, and any other.
pub data Error : Type 0 where
  unavailable : Error
  other_error : Error

-- chErrorClass
unfoldable pub ch_error_class : Error → String
ch_error_class unavailable = "unavailable"
ch_error_class other_error = "query_error"

pub data Result {ℓ} (A : Type ℓ) : Type ℓ where
  ok : A → Result A
  fail : Error → Result A

-- A value as a time: no time, a nil pointer to one, or its digits.
pub data Clock : Type 0 where
  no_time : Clock
  no_instant : Clock
  instant : String → Clock

-- The numeric types that toInt64 tells apart: signed, unsigned, a float64 by its bits, any other type.
pub data Number : Type 0 where
  signed : ℤ → Number
  unsigned : ℕ → Number
  floating : ℕ → Number
  no_number : Number

-- What QueryContext and the rows after it give: an error of the query, an error of a row, or all rows
-- with their columns.
pub data Queried : Type 0 where
  refused : Queried
  torn : Queried
  scanned : List Row → Queried

-- `ping n` and `query n` are the answers to the n-th message of the process. `rate` divides two integers
-- as float64 and multiplies by a hundred. `wall_clock` reads a time.Time or a pointer to one,
-- `wall_clock_direct` a time.Time only.
pub record Driver : Type 0 where
  pub table : String
  pub ping : ℕ → Bool
  pub query : ℕ → Fragment → Queried
  pub wall_clock : Value → Clock
  pub wall_clock_direct : Value → Clock
  pub unmarshal : String → Option Value
  pub sprint : Value → String
  pub number : Value → Number
  pub int_of_float : ℕ → ℤ
  pub rate : ℤ → ℤ → ℕ

-- chDB, and how many messages have been sent.
pub record Pool : Type 0 where
  pub connected : Bool
  pub sent : ℕ

abbrev pub is_name_char : ℕ → Bool
is_name_char k = is_ascii_letter k || is_ascii_digit k || k == b'_'

-- The pattern that getClickHouseDB puts to the table's name
unfoldable pub is_table_name : String → Bool
unfolding every
is_table_name String.[] = false
is_table_name (String.◌∷◌ c s) =
    (is_ascii_letter (code c) || code c == b'_') && every is_name_char s

-- getClickHouseDB: an error, or a pool that is connected.
unfoldable pub get_click_house_db : Driver → Pool → Option Error × Pool
unfolding is_table_name
get_click_house_db d p =
    if p.connected
    then (none, p)
    else if not (is_table_name d.table)
    then (some other_error, p)
    else if d.ping p.sent
    then (none, record { connected = true; sent = suc p.sent })
    else (some unavailable, record { connected = false; sent = suc p.sent })

-- ResetClickHouseConn
abbrev pub reset_click_house_conn : Pool → Pool
reset_click_house_conn p = record { connected = false; sent = p.sent }

-- CloseClickHouse
abbrev pub close_click_house : Pool → Pool
close_click_house p = record { connected = false; sent = p.sent }

-- The value that rowsToMaps stores for a column
abbrev pub column_value : Clock → Value → Value
column_value no_time v = v
column_value no_instant v = null
column_value (instant digits) v = str digits

unfoldable pub read_columns : Driver → Row → Row → Row
unfolding insert
read_columns d [] row = row
read_columns d ((col, v) ∷ rest) row =
    read_columns d rest (insert col (column_value (d.wall_clock v) v) row)

-- A column of JSON text is replaced by what it says, where it says something.
unfoldable pub expand : Driver → String → Row → Row
unfolding at insert
expand d key row =
    let text = as_string (at key row) in
    if text == ""
    then row
    else elim (d.unmarshal text) [ none ↦ row | some parsed ↦ insert key parsed row ]

unfoldable pub row_to_map : Driver → Row → Row
unfolding read_columns expand
row_to_map d columns =
    expand d "aggregationResults" (expand d "aggResult" (read_columns d columns []))

-- rowsToMaps
unfoldable pub rows_to_maps : Driver → List Row → List Row
unfolding row_to_map
rows_to_maps d rows = map (row_to_map d) rows

-- What a read makes of the answer to its query
unfoldable pub conclude : Driver → Pool → Queried → Result (List Row) × Pool
unfolding rows_to_maps
conclude d p refused = (fail unavailable, reset_click_house_conn (record p { sent = suc p.sent }))
conclude d p torn = (fail other_error, record p { sent = suc p.sent })
conclude d p (scanned rows) = (ok (rows_to_maps d rows), record p { sent = suc p.sent })

-- What follows getClickHouseDB in each of the reads
unfoldable pub send : Driver → Fragment → Pool → Result (List Row) × Pool
unfolding conclude
send d q p = conclude d p (d.query p.sent q)

abbrev pub proceed : Driver → Fragment → Option Error × Pool → Result (List Row) × Pool
proceed d q (none, p) = send d q p
proceed d q (some e, p) = (fail e, p)

unfoldable pub read : Driver → Fragment → Pool → Result (List Row) × Pool
unfolding get_click_house_db send
read d q p = proceed d q (get_click_house_db d p)

unfoldable pub rule_id_of : Row → String
unfolding at
rule_id_of row =
    let rule_id = as_string (at "ruleId" row) in if rule_id == "" then "unknown" else rule_id

abbrev pub rows_of : Option (List Row) → List Row
rows_of none = []
rows_of (some rows) = rows

-- The loop that groups rows by their rule
unfoldable pub group_by_rule : List Row → Map String (List Row) → Map String (List Row)
unfolding rule_id_of lookup insert
group_by_rule [] grouped = grouped
group_by_rule (row ∷ rows) grouped =
    let id = rule_id_of row in
    group_by_rule rows (insert id (rows_of (lookup id grouped) ++ row ∷ []) grouped)

abbrev pub grouped_result : Result (List Row) → Result (Map String (List Row))
grouped_result (ok rows) = ok (group_by_rule rows [])
grouped_result (fail e) = fail e

-- placeholders
unfoldable pub placeholders : ℕ → String
placeholders zero = ""
placeholders (suc n) = concat ("?" ∷ replicate n ", ?")
