-- ===== src/RuleStore/Reload.antt =====
-- LoadActiveRules of rule_store.go: the rules of the five tables, as they were saved.
use velocity_engine_backend.Prelude.{
  ℕ, String, false, ◌||◌, List, [], ◌∷◌, map, Option, none, some, if◌then◌else◌, ◌==◌,
  comparable_string, comparable_nat,
}
use velocity_engine_backend.Prelude.Int.{pos}
use velocity_engine_backend.Prelude.Maps.{Map, lookup, insert}
use velocity_engine_backend.Models.{
  FilterNode, WindowingConfig, AggregationSpec, VelocityRule, RuleRecord,
}
use velocity_engine_backend.RuleStore.{RuleColumns, SinkColumns, AggColumns, RuleCodec}

-- What the five queries return. `aggs` is ordered by rule_row_id and spec_order, as the query asks;
-- `windows` is empty where window_configs is missing.
pub record Tables : Type 0 where
  pub rules : List (ℕ × RuleColumns)
  pub windows : Map ℕ WindowingConfig
  pub sinks : Map ℕ SinkColumns
  pub aggs : List (ℕ × AggColumns)
  pub breaches : Map ℕ String

-- The zero values of Go, which a missing row id reads as.
abbrev pub zero_windowing : WindowingConfig
zero_windowing = record {
  window_type = "";
  time_type = "";
  timestamp_field = "";
  timestamp_format = "";
  use_kafka_timestamp = false;
  size_ms = pos 0;
  slide_ms = pos 0;
  allowed_lateness_ms = pos 0;
  alignment_offset_ms = pos 0;
}

abbrev pub zero_sinks : SinkColumns
zero_sinks = record {
  sinks = record {
    agg_sink_enabled = false;
    anomaly_sink_enabled = false;
    anomaly_store_sink_enabled = false;
  };
  penalty_ttl_seconds = pos 0;
}

unfoldable pub read_agg : AggColumns → AggregationSpec
read_agg a = record {
  alias = a.alias;
  source_field = a.source_field;
  agg_function = a.agg_function;
  hint = if a.is_high_cardinality then "HIGH" else "LOW";
}

-- The rows of one row id, in the order of the query, and `aggs[r.rowID]`.
unfoldable pub columns_of : ℕ → List (ℕ × AggColumns) → List AggColumns
columns_of row_id [] = []
columns_of row_id ((id, a) ∷ rest) =
    let others = columns_of row_id rest in if id == row_id then a ∷ others else others

unfoldable pub aggs_of : ℕ → List (ℕ × AggColumns) → List AggregationSpec
unfolding read_agg columns_of
aggs_of row_id rows = map read_agg (columns_of row_id rows)

abbrev pub or_zero {ℓ} : {A : Type ℓ} → A → Option A → A
or_zero z none = z
or_zero z (some a) = a

unfoldable pub read_filters : RuleCodec → Option String → Option (Option FilterNode)
read_filters codec none = some none
read_filters codec (some text) = elim (codec.unmarshal_filters text) [
  | none ↦ none
  | some node ↦ some (some node)
]

unfoldable pub rebuild_rule :
    Tables → ℕ → RuleColumns → List String → Option FilterNode → VelocityRule
unfolding lookup aggs_of
rebuild_rule t row_id r keys filters =
    let s = or_zero zero_sinks (lookup row_id t.sinks) in
    record {
      rule_metadata = record {
        rule_id = r.rule_id;
        rule_name = r.name;
        status = r.status;
        severity_level = r.severity;
        penalty_ttl_seconds = s.penalty_ttl_seconds;
      };
      execution_routing = record { target_source_topic = r.source_topic };
      filters = filters;
      grouping = record {
        keys = keys;
        entity_name = r.entity_name;
        anomaly_entity_field = r.anomaly_entity_field;
      };
      windowing = or_zero zero_windowing (lookup row_id t.windows);
      aggregations = aggs_of row_id t.aggs;
      having_thresholds = record { expression = or_zero "" (lookup row_id t.breaches) };
      sinks = some s.sinks;
    }

-- The record of one active row, or the error that ends the load.
unfoldable pub load_rule : RuleCodec → Tables → ℕ → RuleColumns → Option RuleRecord
unfolding rebuild_rule read_filters
load_rule codec t row_id r = elim (codec.unmarshal_keys r.grouping_keys) [
  | none ↦ none
  | some keys ↦ elim (read_filters codec r.filters) [
    | none ↦ none
    | some filters ↦ elim (codec.marshal_rule (rebuild_rule t row_id r keys filters)) [
      | none ↦ none
      | some payload ↦ some (record {
        id = r.rule_id;
        name = r.name;
        status = r.status;
        rule_payload = payload;
        is_published = r.status == "ACTIVE" || r.status == "PAUSED";
        version = r.version;
      })
    ]
  ]
]

unfoldable pub load_rules :
    RuleCodec
    → Tables
    → List (ℕ × RuleColumns)
    → Map String RuleRecord
    → Option (Map String RuleRecord)
unfolding load_rule insert
load_rules codec t [] result = some result
load_rules codec t ((row_id, r) ∷ rest) result = elim (load_rule codec t row_id r) [
  | none ↦ none
  | some rule_record ↦ load_rules codec t rest (insert r.rule_id rule_record result)
]

-- LoadActiveRules, where the five queries have returned.
unfoldable pub load_active_rules : RuleCodec → Tables → Option (Map String RuleRecord)
unfolding load_rules
load_active_rules codec t = load_rules codec t t.rules []
