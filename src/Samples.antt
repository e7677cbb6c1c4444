-- ===== src/Samples.antt =====
-- Sample rules, rows and surroundings on which the tests run the models.
use velocity_engine_backend.Prelude.{
  String, true, false, List, [], ◌∷◌, Option, none, some, if◌then◌else◌, ◌==◌, comparable_string,
}
use velocity_engine_backend.Prelude.Int.{pos}
use velocity_engine_backend.Json.{
  Value, Members, Row, null, str, arr, obj, no_elements, element, member, no_members,
}
use velocity_engine_backend.Historical.{Strings}
use velocity_engine_backend.Historical.Having.{is_ascii_letter, is_ascii_digit}
use velocity_engine_backend.Runtime.{Runtime, Decoded, malformed, nil_map, object}
use velocity_engine_backend.Models.{VelocityRule, RuleRecord}
use velocity_engine_backend.RuleStore.{Mysql, done, RuleCodec}
use velocity_engine_backend.Kafka.{Producer, message}
use velocity_engine_backend.Rules.{Api, World}
use velocity_engine_backend.Rules.Concurrent.{Shared}

abbrev pub sample_row : Row
sample_row =
    ("ruleId", str "r1") ∷ ("groupKey", str "u1") ∷ ("windowStart", str "2026-01-01 00:00:00") ∷ []

-- The texts `null` and `{` stand for themselves, every other text for the sample row.
abbrev pub sample_unmarshal : String → Decoded
sample_unmarshal text =
    if text == "null" then nil_map else if text == "{" then malformed else object sample_row

abbrev pub sample_runtime : Runtime
sample_runtime = record {
  sprint = λ v. elim v [ str s ↦ s | _ ↦ "<no_elements>" ];
  unmarshal = λ text. none;
  unmarshal_object = sample_unmarshal;
  parse_ist = λ text. some 5;
  parse_rfc3339 = λ text. none;
  parse_naive_iso = λ text. none;
  unix_ms = λ v. 0;
}

abbrev pub sample_marshal_keys : List String → Option String
sample_marshal_keys [] = none
sample_marshal_keys (k ∷ []) = if k == "uid" then some "[uid]" else none
sample_marshal_keys (_ ∷ _ ∷ _) = none

abbrev pub sample_codec : RuleCodec
sample_codec = record {
  marshal_keys = sample_marshal_keys;
  unmarshal_keys = λ text. some ("uid" ∷ []);
  marshal_filters = λ node. none;
  unmarshal_filters = λ text. none;
  marshal_rule = λ rule. some "rule";
  describe = λ rule. "a rule";
}

abbrev pub sample_rule : VelocityRule
sample_rule = record {
  rule_metadata = record {
    rule_id = "r1";
    rule_name = "";
    status = "DRAFT";
    severity_level = "HIGH";
    penalty_ttl_seconds = pos 60;
  };
  execution_routing = record { target_source_topic = "auth" };
  filters = none;
  grouping = record { keys = "uid" ∷ []; entity_name = "uid"; anomaly_entity_field = "uid" };
  windowing = record {
    window_type = "TUMBLING";
    time_type = "EVENT";
    timestamp_field = "ts";
    timestamp_format = "";
    use_kafka_timestamp = false;
    size_ms = pos 60000;
    slide_ms = pos 60000;
    allowed_lateness_ms = pos 0;
    alignment_offset_ms = pos 0;
  };
  aggregations =
      record { alias = "n"; source_field = "uid"; agg_function = "COUNT"; hint = "LOW" } ∷ [];
  having_thresholds = record { expression = "n > 3" };
  sinks = some (record {
    agg_sink_enabled = true;
    anomaly_sink_enabled = false;
    anomaly_store_sink_enabled = false;
  });
}

abbrev pub sample_dict : Row
sample_dict =
    ("rule_metadata", obj (member "rule_id" (str "r1") (member "status" (str "DRAFT") no_members)))
    ∷ []

abbrev pub sample_api : Api
sample_api = record {
  codec = sample_codec;
  unmarshal_rule = λ text. some sample_rule;
  unmarshal_dict = λ text. object sample_dict;
  marshal_dict = λ row. some "dict";
  is_blank = λ s. s == "";
  equal_fold = λ a b. a == b;
}

-- MySQL answers every statement, Kafka confirms every message.
abbrev pub sample_mysql : Mysql
sample_mysql log stmt = done 7

abbrev pub sample_producer : Producer
sample_producer = record {
  available = λ sent. true;
  accepts = λ sent key. true;
  flush = λ sent. 0;
  event = λ sent. message false;
}

abbrev pub sample_record : RuleRecord
sample_record = record {
  id = "r1";
  name = "r1";
  status = "DRAFT";
  rule_payload = "rule";
  is_published = false;
  version = 1;
}

abbrev pub empty_world : World
empty_world = record { rules_db = []; statements = []; sent = [] }

abbrev pub sample_world : World
sample_world = record { rules_db = ("r1", sample_record) ∷ []; statements = []; sent = [] }

abbrev pub sample_shared : Shared
sample_shared = record {
  heap = sample_record ∷ [];
  table = ("r1", 0) ∷ [];
  statements = [];
  sent = [];
}

-- Texts of lower case, without white space around them.
abbrev pub sample_strings : Strings
sample_strings = record {
  is_letter = is_ascii_letter;
  is_digit = is_ascii_digit;
  to_lower = λ s. s;
  to_upper = λ s. s;
  trim_space = λ s. s;
  replace_first = λ s old new. s;
  replace_all = λ s old new. s;
  split = λ s sep. s ∷ [];
  sprint = λ v. elim v [ str s ↦ s | _ ↦ "<no_elements>" ];
  show_int = λ n. "300";
  int_of_float = λ bits. pos bits;
  parse_int = λ s. none;
  millis_utc = λ ms. "2026-01-01 00:00:00.000";
  rfc3339_utc = λ s. none;
}

abbrev pub sample_condition : String → Value → Members
sample_condition op value = member "type" (str "condition") (
    member "field" (str "_data.aua") (member "operator" (str op) (member "value" value no_members)))

-- A group of three conditions, one of which has no meaning.
abbrev pub sample_filter : Members
sample_filter = member "type" (str "group") (
    member "logic" (str "OR") (
      member "conditions"
        (arr (
          element (obj (sample_condition "EQUALS" (str "it's; --"))) (
            element (obj (sample_condition "LIKE" null)) (
              element
                (obj
                  (sample_condition "IN" (arr (element (str "a") (element (str "b") no_elements)))))
                no_elements))))
        no_members))

abbrev pub sample_rule_dict : Members
sample_rule_dict =
    member "grouping" (obj (member "keys" (arr (element (str "uid") no_elements)) no_members)) (
      member "aggregations"
        (arr (
          element
            (obj (
              member "field" (str "uid")
                (member "alias" (str "n") (member "function" (str "COUNT") no_members))))
            no_elements))
        (member "filters" (obj sample_filter) (
          member "having_thresholds" (obj (member "expression" (str "n > 3") no_members))
            no_members)))
