-- ===== src/Tests/Rules.antt =====
-- Requests, publishing and persistence on the sample rule.
use velocity_engine_backend.Prelude.{
  String, ◌≡◌, refl, true, false, ◌⊎◌, inr, List, [], ◌∷◌, ◌++◌, none, some, sym, if◌then◌else◌,
  ◌==◌, str_append, comparable_string, arith,
}
use velocity_engine_backend.Prelude.Maps.{lookup}
use velocity_engine_backend.Json.{Row, null, float}
use velocity_engine_backend.Models.{
  FilterNode, filter_node, nil, cons, VelocityRule, RuleRecord, SinkConfig,
}
use velocity_engine_backend.RuleStore.{
  RuleCodec, Stmt, agg_columns, save_new_rule_version, rule_columns, sink_columns, marshal_optional,
}
use velocity_engine_backend.RuleStore.Save.{commits, succeeded}
use velocity_engine_backend.RuleStore.Outcomes.{save-eq-commits}
use velocity_engine_backend.RuleStore.Reload.{Tables, load_rule, columns_of}
use velocity_engine_backend.RuleStore.RoundTrip.{
  IsStored, agg_rows, loaded_record, load_rule-rule_columns,
}
use velocity_engine_backend.Rules.{
  bound, Request, create, promote, delete, serve, serve_all, create_rule, update_rule, publish_rule,
  update_rule_status, delete_rule, set_status, dict_of, is_settable,
}
use velocity_engine_backend.Rules.Durable.{
  IsRefused, IsCreated, IsUpdated, create_rule-IsCreated, update_rule-IsUpdated,
}
use velocity_engine_backend.Rules.Announced.{
  IsAbandoned, IsAnnounced, IsDeleted, publish_rule-IsAnnounced, update_rule_status-IsAnnounced,
  delete_rule-IsDeleted,
}
use velocity_engine_backend.Rules.Invariant.{IsValid, serve_all-IsValid}
use velocity_engine_backend.Rules.Published.{IsMarked, serve-IsMarked}
use velocity_engine_backend.Samples.{
  sample_codec, sample_rule, sample_api, sample_mysql, sample_producer, empty_world, sample_world,
}

create_rule-IsCreated_example :
    IsRefused empty_world
      (create_rule sample_api sample_mysql sample_producer (bound sample_rule) empty_world)
    ⊎ IsCreated sample_api sample_mysql sample_producer sample_rule empty_world
        (create_rule sample_api sample_mysql sample_producer (bound sample_rule) empty_world)
create_rule-IsCreated_example =
    create_rule-IsCreated sample_api sample_mysql sample_producer sample_rule empty_world

update_rule-IsUpdated_example :
    IsRefused sample_world
      (update_rule sample_api sample_mysql sample_producer "r1" (bound sample_rule) sample_world)
    ⊎ IsUpdated sample_api sample_mysql sample_producer "r1" sample_rule sample_world
        (update_rule sample_api sample_mysql sample_producer "r1" (bound sample_rule) sample_world)
update_rule-IsUpdated_example =
    update_rule-IsUpdated sample_api sample_mysql sample_producer "r1" sample_rule sample_world

publish_rule-IsAnnounced_example :
    IsAbandoned sample_api sample_mysql sample_producer sample_world
      (publish_rule sample_api sample_mysql sample_producer "r1" sample_world)
    ⊎ ((old : RuleRecord) × (row : Row) × (lookup "r1" sample_world.rules_db ≡ some old)
        × (dict_of sample_api old.rule_payload ≡ some row)
        × IsAnnounced sample_api sample_mysql sample_producer
            (set_status "ACTIVE" row)
            "r1"
            (record old { is_published = true; status = "ACTIVE" })
            sample_world
            (publish_rule sample_api sample_mysql sample_producer "r1" sample_world))
publish_rule-IsAnnounced_example =
    publish_rule-IsAnnounced sample_api sample_mysql sample_producer "r1" sample_world

update_rule_status-IsAnnounced_example :
    IsAbandoned sample_api sample_mysql sample_producer sample_world (
      update_rule_status sample_api sample_mysql sample_producer "r1" (bound "PAUSED") sample_world)
    ⊎ ((old : RuleRecord) × (row : Row) × (is_settable "PAUSED" ≡ true)
        × (lookup "r1" sample_world.rules_db ≡ some old)
        × (dict_of sample_api old.rule_payload ≡ some row)
        × IsAnnounced sample_api sample_mysql sample_producer
            (set_status "PAUSED" row)
            "r1"
            (record old { status = "PAUSED" })
            sample_world
            (update_rule_status sample_api sample_mysql sample_producer "r1"
              (bound "PAUSED")
              sample_world))
update_rule_status-IsAnnounced_example =
    update_rule_status-IsAnnounced sample_api sample_mysql sample_producer "r1" "PAUSED"
      sample_world

delete_rule-IsDeleted_example :
    IsAbandoned sample_api sample_mysql sample_producer sample_world
      (delete_rule sample_api sample_mysql sample_producer "r1" sample_world)
    ⊎ IsDeleted sample_api sample_mysql sample_producer "r1" sample_world
        (delete_rule sample_api sample_mysql sample_producer "r1" sample_world)
delete_rule-IsDeleted_example =
    delete_rule-IsDeleted sample_api sample_mysql sample_producer "r1" sample_world

empty_world-IsValid : IsValid empty_world.rules_db
unfolding lookup
empty_world-IsValid = record { unique = tt; each = λ k r e. absurd (ground arith) }

abbrev sample_requests : List Request
sample_requests = create (bound sample_rule) ∷ promote "r1" ∷ delete "r1" ∷ []

serve_all-IsValid_example :
    IsValid (serve_all sample_api sample_mysql sample_producer sample_requests empty_world).rules_db
serve_all-IsValid_example =
    serve_all-IsValid sample_api sample_mysql sample_producer sample_requests empty_world
      empty_world-IsValid

serve-IsMarked_example :
    IsMarked
      (serve sample_api sample_mysql sample_producer
        (create (bound sample_rule))
        empty_world).1.rules_db
unfolding lookup
serve-IsMarked_example =
    serve-IsMarked sample_api sample_mysql sample_producer (create (bound sample_rule)) empty_world
      refl tt (λ k r e a. absurd (ground arith))

save-eq-commits_example :
    (issued : List Stmt) × ((save_new_rule_version sample_mysql sample_codec sample_rule 1 []).1
      ≡ [] ++ issued)
    × (succeeded (save_new_rule_version sample_mysql sample_codec sample_rule 1 []).0
        ≡ commits sample_mysql [] issued)
save-eq-commits_example = save-eq-commits sample_mysql sample_codec sample_rule 1 []

abbrev sample_sinks : SinkConfig
sample_sinks = record {
  agg_sink_enabled = true;
  anomaly_sink_enabled = false;
  anomaly_store_sink_enabled = false;
}

abbrev sample_tables : Tables
sample_tables = record {
  rules = [];
  windows = (7, sample_rule.windowing) ∷ [];
  sinks = (7, sink_columns sample_rule) ∷ [];
  aggs =
      (
        7,
        record {
          alias = "n";
          agg_function = "COUNT";
          source_field = "uid";
          is_high_cardinality = false;
          spec_order = 1;
        },
      )
      ∷ [];
  breaches = (7, "n > 3") ∷ [];
}

-- A codec that knows one group of filters, whose column comes back with a space.
abbrev sample_filters : FilterNode
sample_filters =
    filter_node "group" (some "AND")
      (cons (filter_node "condition" none nil (some "aua") (some "EQUALS") (float 7) none) nil) none
      none null none

abbrev filters_codec : RuleCodec
filters_codec = record sample_codec {
  marshal_filters = λ node. some "{\"type\":\"group\"}";
  unmarshal_filters = λ text. if text == "{\"type\":\"group\"} " then some sample_filters else none;
}

abbrev filtered_rule : VelocityRule
filtered_rule = record sample_rule { filters = some sample_filters }

abbrev respaced : String → String
respaced text = str_append text " "

sample_tables-IsStored : IsStored sample_tables 7 filtered_rule
unfolding lookup sink_columns agg_rows columns_of agg_columns
sample_tables-IsStored = record { window = refl; sink = refl; aggs = refl; breach = refl }

filters_back :
    (node : FilterNode) (text : String)
    → filtered_rule.filters ≡ some node
    → some "{\"type\":\"group\"}" ≡ some text
    → filters_codec.unmarshal_filters (respaced text) ≡ some node
filters_back node text n e =
    let same : "{\"type\":\"group\"}" ≡ text = ground (arith, e) in rw (sym same) n

load_rule-rule_columns_example :
    load_rule filters_codec sample_tables 7
      (rule_columns filters_codec filtered_rule 3 "[uid] " (some "{\"type\":\"group\"} "))
    ≡ some (loaded_record filtered_rule 3 "rule")
unfolding marshal_optional
load_rule-rule_columns_example =
    load_rule-rule_columns filters_codec sample_tables 7 3 filtered_rule sample_sinks
      sample_tables-IsStored (inr refl, tt) refl respaced "[uid]" (some "{\"type\":\"group\"}")
      "rule" refl refl refl filters_back refl
