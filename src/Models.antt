-- ===== src/Models.antt =====
-- internal/models/rule.go: a rule as the API, Kafka and MySQL carry it, and its record in memory.
-- An `int64` field is an integer: the program compares these fields and does not compute with them.
use velocity_engine_backend.Prelude.{ℕ, String, Bool, Option, List}
use velocity_engine_backend.Prelude.Int.{ℤ}
use velocity_engine_backend.Json.{Value}

pub record RuleMetadata : Type 0 where
  pub rule_id : String
  pub rule_name : String
  pub status : String
  pub severity_level : String
  pub penalty_ttl_seconds : ℤ

pub record ExecutionRouting : Type 0 where
  pub target_source_topic : String

mutual
  pub data FilterNode : Type 0 where
    filter_node :
        String
        → Option String
        → FilterNodes
        → Option String
        → Option String
        → Value
        → Option String
        → FilterNode

  pub data FilterNodes : Type 0 where
    nil : FilterNodes
    cons : FilterNode → FilterNodes → FilterNodes

pub record GroupingConfig : Type 0 where
  pub keys : List String
  pub entity_name : String
  pub anomaly_entity_field : String

pub record SinkConfig : Type 0 where
  pub agg_sink_enabled : Bool
  pub anomaly_sink_enabled : Bool
  pub anomaly_store_sink_enabled : Bool

pub record WindowingConfig : Type 0 where
  pub window_type : String
  pub time_type : String
  pub timestamp_field : String
  pub timestamp_format : String
  pub use_kafka_timestamp : Bool
  pub size_ms : ℤ
  pub slide_ms : ℤ
  pub allowed_lateness_ms : ℤ
  pub alignment_offset_ms : ℤ

-- `hint` is the source's `CardinalityHint`, `agg_function` its `Function`.
pub record AggregationSpec : Type 0 where
  pub alias : String
  pub source_field : String
  pub agg_function : String
  pub hint : String

pub record HavingThresholds : Type 0 where
  pub expression : String

pub record VelocityRule : Type 0 where
  pub rule_metadata : RuleMetadata
  pub execution_routing : ExecutionRouting
  pub filters : Option FilterNode
  pub grouping : GroupingConfig
  pub windowing : WindowingConfig
  pub aggregations : List AggregationSpec
  pub having_thresholds : HavingThresholds
  pub sinks : Option SinkConfig

pub record RuleRecord : Type 0 where
  pub id : String
  pub name : String
  pub status : String
  pub rule_payload : String
  pub is_published : Bool
  pub version : ℕ
