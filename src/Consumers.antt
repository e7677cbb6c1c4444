-- ===== src/Consumers.antt =====
-- internal/services/consumer.go and anomaly_consumer.go: what one Kafka message does to the stores and
-- which delta it broadcasts. Metrics and the connection to Kafka are left out.
pub mod Recent
pub mod Processing
pub mod Loop
use velocity_engine_backend.Prelude.{
  ℕ, zero, suc, ◌+◌, ◌-◌, String, Bool, true, false, ◌&&◌, not, List, [], ◌∷◌, ◌++◌, Option, none,
  some, if◌then◌else◌, ltb, ◌==◌, comparable_string, length, drop, reverse,
}
use velocity_engine_backend.Prelude.Maps.{lookup, insert}
use velocity_engine_backend.Json.{Value, Row, str, bool, at, has, as_string}
use velocity_engine_backend.Runtime.{Runtime, Decoded, malformed, nil_map, object}
use velocity_engine_backend.LiveStore.{LiveStore, add, or_unknown}

-- AnomalyStore: the events, oldest first, and the bound.
pub record AnomalyStore : Type 0 where
  pub events : List Row
  pub max_len : ℕ

unfoldable pub new_anomaly_store : ℕ → AnomalyStore
new_anomaly_store max_len = record { events = []; max_len = max_len }

-- Add
unfoldable pub add_anomaly : Row → AnomalyStore → AnomalyStore
add_anomaly event s =
    let events = s.events ++ event ∷ [] in
    if ltb s.max_len (length events)
    then record s { events = drop (length events - s.max_len) events }
    else record s { events = events }

-- The filter of GetRecent; the empty id lets every event pass.
unfoldable pub is_of_rule : String → Row → Bool
unfolding at lookup
is_of_rule rule_id event = if rule_id == "" then true else as_string (at "ruleId" event) == rule_id

-- The loop of GetRecent, over the events from the newest on, with `n` places left.
unfoldable pub collect_recent : String → ℕ → List Row → List Row
unfolding is_of_rule
collect_recent rule_id zero events = []
collect_recent rule_id (suc n) [] = []
collect_recent rule_id (suc n) (event ∷ events) =
    if is_of_rule rule_id event
    then event ∷ collect_recent rule_id n events
    else collect_recent rule_id (suc n) events

-- GetRecent
unfoldable pub get_recent : String → ℕ → AnomalyStore → List Row
unfolding collect_recent
get_recent rule_id n s = reverse (collect_recent rule_id n (reverse s.events))

-- What a message leads to: it is skipped, a write to a nil map panics, so does a map key that Go cannot
-- hash, or the store changes and one delta goes to the subscribers of a rule.
pub data Processed {ℓ} (S : Type ℓ) : Type ℓ where
  skipped : Processed S
  panicked : Processed S
  processed : S → String → Row → Processed S

-- The `id` of Flink's schema becomes the `ruleId`, where there is none.
unfoldable pub normalize_rule_id : Row → Row
unfolding at has lookup insert
normalize_rule_id row =
    let id = as_string (at "id" row) in
    if not (id == "") && not (has "ruleId" row) then insert "ruleId" (str id) row else row

unfoldable pub normalize_group_key : Row → Row
unfolding at has lookup insert
normalize_group_key row =
    let entity_value = as_string (at "entityValue" row) in
    if not (has "groupKey" row) && not (entity_value == "")
    then insert "groupKey" (str entity_value) row
    else row

-- The defaults of thresholdBreached and of isFinal.
unfoldable pub set_absent : String → Bool → Row → Row
unfolding has lookup insert
set_absent k b row = if has k row then row else insert k (bool b) row

-- The rule that the delta goes to.
unfoldable pub target_rule : Row → String
unfolding at lookup or_unknown
target_rule row =
    let rule_id = as_string (at "ruleId" row) in
    if rule_id == "" then or_unknown (as_string (at "id" row)) else rule_id

-- processAnomaly
unfoldable pub tag_anomaly : Row → Row
unfolding normalize_rule_id insert
tag_anomaly event = normalize_rule_id (insert "event_type" (str "anomaly") event)

module _ (rt : Runtime) where
  unfoldable pub process_anomaly : String → AnomalyStore → Processed AnomalyStore
  unfolding tag_anomaly add_anomaly target_rule
  process_anomaly text s = elim (rt.unmarshal_object text) [
    | malformed ↦ skipped
    | nil_map ↦ panicked
    | object row ↦
        let event = tag_anomaly row in processed (add_anomaly event s) (target_rule event) event
  ]

  -- A field that holds JSON as text is decoded in place, where it decodes.
  unfoldable pub decode_field : String → Row → Row
  unfolding at lookup insert
  decode_field k row = elim (at k row) [
    | str text ↦ elim (rt.unmarshal text) [ none ↦ row | some v ↦ insert k v row ]
    | _ ↦ row
  ]

  -- The steps of processMessage on the row, in their order. The one on windowStart reads the key that
  -- it has just found missing, and changes nothing.
  unfoldable pub normalize : Row → Row
  unfolding decode_field normalize_rule_id normalize_group_key set_absent insert
  normalize row =
      let decoded = decode_field "aggregationResults" (decode_field "aggResult" row) in
      let tagged = insert "event_type" (str "agg") decoded in
      let keyed = normalize_group_key (normalize_rule_id tagged) in
      set_absent "isFinal" true (set_absent "thresholdBreached" false keyed)

  -- processMessage, after the decoding of a row
  unfoldable pub process_row : Row → LiveStore → Processed LiveStore
  unfolding normalize add target_rule
  process_row row s = elim (add rt (normalize row) s) [
    | none ↦ panicked
    | some s' ↦ processed s' (target_rule (normalize row)) (normalize row)
  ]

  -- processMessage
  unfoldable pub process_message : String → LiveStore → Processed LiveStore
  unfolding process_row insert
  process_message text s = elim (rt.unmarshal_object text) [
    | malformed ↦ skipped
    | nil_map ↦ panicked
    | object row ↦ process_row row s
  ]
