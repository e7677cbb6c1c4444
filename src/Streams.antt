-- ===== src/Streams.antt =====
-- internal/handlers/websocket.go: the loop of a WebSocket stream over what it reads. Gorilla's reads,
-- encoding/json and the environment are parameters.
pub mod Ends
use velocity_engine_backend.Prelude.{
  ℕ, String, Bool, true, false, ◌||◌, List, [], ◌∷◌, ◌++◌, if◌then◌else◌, ◌==◌, comparable_string,
}
use velocity_engine_backend.Prelude.Maps.{Map}
use velocity_engine_backend.Json.{
  Value, Elements, Row, null, bool, float, int64, str, arr, obj, foreign, no_elements, element, at,
  as_string,
}
use velocity_engine_backend.Runtime.{Decoded, malformed, nil_map, object}
use velocity_engine_backend.LiveStore.{LiveStore, get_all}
use velocity_engine_backend.Consumers.{AnomalyStore, get_recent}
use velocity_engine_backend.Sockets.{WsManager, Event, connect, disconnect, write_to_conn, handle}

-- CheckOrigin: `allowed` is CORSOrigins, and its parts between commas without white space around them.
unfoldable pub is_among : String → List String → Bool
is_among origin [] = false
is_among origin (o ∷ os) = o == origin || is_among origin os

unfoldable pub check_origin : String → String → List String → Bool
unfolding is_among
check_origin origin allowed parts = origin == "" || allowed == "*" || is_among origin parts

-- What a stream meets, in order: the end of the connection or an error of a read that is no timeout, a
-- timeout, a text beside the store as it is then, and what others do to the manager in between.
pub data Occurrence (S : Type 0) : Type 0 where
  read_failed : Occurrence S
  timed_out : Occurrence S
  read_text : String → S → Occurrence S
  elsewhere : Event → Occurrence S

-- The texts in rule_ids, where these are an array
unfoldable pub strings_in : Elements → List String
strings_in no_elements = []
strings_in (element (str s) rest) = s ∷ strings_in rest
strings_in (element _ rest) = strings_in rest

abbrev pub requested : Value → List String
requested (arr items) = strings_in items
requested _ = []

-- What the endpoint makes of a store for a subscriber, and the texts that json.Marshal gives.
pub record Endpoint (S : Type 0) : Type 0 where
  pub unmarshal : String → Decoded
  pub heartbeat : String
  pub bootstrap : List String → S → String

-- The snapshot of LiveAnalysisWS
unfoldable pub live_snapshot : List String → LiveStore → Map String (List Row)
unfolding get_all
live_snapshot rule_ids s = get_all rule_ids s.table

unfoldable pub recent_of_rules : List String → AnomalyStore → List Row
unfolding get_recent
recent_of_rules [] s = []
recent_of_rules (rid ∷ rids) s = get_recent rid 50 s ++ recent_of_rules rids s

-- The snapshot of AnomalyAnalysisWS
unfoldable pub anomaly_snapshot : List String → AnomalyStore → List Row
unfolding get_recent recent_of_rules
anomaly_snapshot [] s = get_recent "" 200 s
anomaly_snapshot (rid ∷ rids) s = recent_of_rules (rid ∷ rids) s

abbrev pub live_endpoint :
    (String → Decoded) → String → (Map String (List Row) → String) → Endpoint LiveStore
live_endpoint unmarshal heartbeat marshal = record {
  unmarshal = unmarshal;
  heartbeat = heartbeat;
  bootstrap = λ rule_ids s. marshal (live_snapshot rule_ids s);
}

abbrev pub anomaly_endpoint :
    (String → Decoded) → String → (List Row → String) → Endpoint AnomalyStore
anomaly_endpoint unmarshal heartbeat marshal = record {
  unmarshal = unmarshal;
  heartbeat = heartbeat;
  bootstrap = λ rule_ids s. marshal (anomaly_snapshot rule_ids s);
}

module _ {S : Type 0} (endpoint : Endpoint S) where
  -- A message that was read: whether the stream ends, and the manager.
  unfoldable pub on_message : ℕ → Decoded → S → WsManager → Bool × WsManager
  unfolding at connect write_to_conn strings_in
  on_message conn malformed s m = (false, m)
  on_message conn nil_map s m = (false, m)
  on_message conn (object msg) s m =
      let rule_ids = requested (at "rule_ids" msg) in
      if as_string (at "type" msg) == "subscribe"
      then write_to_conn conn (endpoint.bootstrap rule_ids s) (connect conn rule_ids m)
      else (false, m)

  -- The loop of LiveAnalysisWS and AnomalyAnalysisWS: whether it has ended, and the manager. A
  -- heartbeat that finds the outbox full is passed over.
  unfoldable pub run_stream : ℕ → List (Occurrence S) → WsManager → Bool × WsManager
  unfolding on_message disconnect write_to_conn handle
  run_stream conn [] m = (false, m)
  run_stream conn (read_failed ∷ rest) m = (true, disconnect conn m)
  run_stream conn (timed_out ∷ rest) m =
      run_stream conn rest (write_to_conn conn endpoint.heartbeat m).1
  run_stream conn (elsewhere event ∷ rest) m = run_stream conn rest (handle event m)
  run_stream conn (read_text text s ∷ rest) m =
      let (ends, after) = on_message conn (endpoint.unmarshal text) s m in
      let later = run_stream conn rest after in
      if ends then (true, disconnect conn after) else later
