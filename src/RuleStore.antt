-- ===== src/RuleStore.antt =====
-- internal/services/rule_store.go: rules in MySQL. MySQL is a parameter: it answers each statement,
-- given those before it. A function returns its result beside the log of the statements issued.
pub mod Save
pub mod Written
pub mod Outcomes
pub mod Reload
pub mod RoundTrip
use velocity_engine_backend.Prelude.{
  ℕ, zero, suc, ◌+◌, String, Bool, true, false, ◌||◌, List, [], ◌∷◌, ◌++◌, Option, none, some,
  if◌then◌else◌, ◌==◌, comparable_string, comparable_nat,
}
use velocity_engine_backend.Prelude.Int.{ℤ}
use velocity_engine_backend.Models.{
  FilterNode, SinkConfig, WindowingConfig, AggregationSpec, VelocityRule,
}

-- The columns of the `rules` row that an insert writes; JSON columns hold their text.
pub record RuleColumns : Type 0 where
  pub rule_id : String
  pub version : ℕ
  pub name : String
  pub description : String
  pub status : String
  pub severity : String
  pub source_topic : String
  pub entity_name : String
  pub anomaly_entity_field : String
  pub grouping_keys : String
  pub filters : Option String

pub record SinkColumns : Type 0 where
  pub sinks : SinkConfig
  pub penalty_ttl_seconds : ℤ

pub record AggColumns : Type 0 where
  pub alias : String
  pub agg_function : String
  pub source_field : String
  pub is_high_cardinality : Bool
  pub spec_order : ℕ

pub data Stmt : Type 0 where
  begin_tx commit rollback : Stmt
  deactivate_previous : String → Stmt
  insert_rule : RuleColumns → Stmt
  insert_window : ℕ → WindowingConfig → Stmt
  insert_sink : ℕ → SinkColumns → Stmt
  insert_agg : ℕ → AggColumns → Stmt
  insert_breach : ℕ → String → Stmt
  update_status : String → String → Bool → Stmt

-- `done` carries the new row's id; `failed` the MySQL error number, if the error has one.
pub data Answer : Type 0 where
  done : ℕ → Answer
  failed : Option ℕ → Answer

abbrev pub Mysql : Type 0
Mysql = List Stmt → Stmt → Answer

-- isMissingSchemaError of mysql.go
unfoldable pub is_missing_schema_error : Option ℕ → Bool
is_missing_schema_error none = false
is_missing_schema_error (some number) = number == 1146 || number == 1054

-- A chain of statements: the log, and whether an error has ended it.
pub data Outcome {ℓ} (A : Type ℓ) : Type ℓ where
  ok : A → Outcome A
  err : Outcome A

abbrev pub M {ℓ} : Type ℓ → Type ℓ
M A = List Stmt → Outcome A × List Stmt

infixl 5 ◌>>=◌ ◌>>◌
abbrev pub proceed {ℓ κ} :
    {A : Type ℓ} {B : Type κ} → Outcome A × List Stmt → (A → M B) → Outcome B × List Stmt
proceed (ok a, log) f = f a log
proceed (err, log) f = (err, log)

abbrev pub ◌>>=◌ {ℓ κ} : {A : Type ℓ} {B : Type κ} → M A → (A → M B) → M B
◌>>=◌ m f log = proceed (m log) f

abbrev pub ◌>>◌ {ℓ κ} : {A : Type ℓ} {B : Type κ} → M A → M B → M B
m >> n = m >>= λ _. n

abbrev pub pure {ℓ} : {A : Type ℓ} → A → M A
pure a log = (ok a, log)

-- encoding/json and store.GenerateRuleDescription, as the store uses them.
pub record RuleCodec : Type 0 where
  pub marshal_keys : List String → Option String
  pub unmarshal_keys : String → Option (List String)
  pub marshal_filters : FilterNode → Option String
  pub unmarshal_filters : String → Option FilterNode
  pub marshal_rule : VelocityRule → Option String
  pub describe : VelocityRule → String

unfoldable pub agg_columns : ℕ → AggregationSpec → AggColumns
agg_columns i agg = record {
  alias = agg.alias;
  agg_function = agg.agg_function;
  source_field = agg.source_field;
  is_high_cardinality = agg.hint == "HIGH";
  spec_order = i + 1;
}

unfoldable pub sink_columns : VelocityRule → SinkColumns
sink_columns rule = record {
  sinks = elim rule.sinks [
    | some sinks ↦ sinks
    | none ↦ record {
      agg_sink_enabled = false;
      anomaly_sink_enabled = false;
      anomaly_store_sink_enabled = false;
    }
  ];
  penalty_ttl_seconds = rule.rule_metadata.penalty_ttl_seconds;
}

unfoldable pub rule_columns : RuleCodec → VelocityRule → ℕ → String → Option String → RuleColumns
rule_columns codec rule version grouping_keys filters = record {
  rule_id = rule.rule_metadata.rule_id;
  version = version;
  name = rule.rule_metadata.rule_name;
  description = codec.describe rule;
  status = rule.rule_metadata.status;
  severity = rule.rule_metadata.severity_level;
  source_topic = rule.execution_routing.target_source_topic;
  entity_name = rule.grouping.entity_name;
  anomaly_entity_field = rule.grouping.anomaly_entity_field;
  grouping_keys = grouping_keys;
  filters = filters;
}

unfoldable pub marshal_optional : RuleCodec → Option FilterNode → Option (Option String)
marshal_optional codec none = some none
marshal_optional codec (some node) = elim (codec.marshal_filters node) [
  | none ↦ none
  | some text ↦ some (some text)
]

module _ (mysql : Mysql) where
  unfoldable pub exec : Stmt → M ℕ
  exec stmt log = elim (mysql log stmt) [
    | done id ↦ (ok id, log ++ stmt ∷ [])
    | failed _ ↦ (err, log ++ stmt ∷ [])
  ]

  -- The insert into window_configs: a missing table is logged and passed over.
  unfoldable pub exec_optional : Stmt → M (Unit {0})
  unfolding is_missing_schema_error
  exec_optional stmt log = elim (mysql log stmt) [
    | done _ ↦ (ok tt, log ++ stmt ∷ [])
    | failed number ↦
        if is_missing_schema_error number
        then (ok tt, log ++ stmt ∷ [])
        else (err, log ++ stmt ∷ [])
  ]

  -- The loop over the aggregations, from index `i`.
  unfoldable pub insert_aggs : ℕ → ℕ → List AggregationSpec → M (Unit {0})
  unfolding exec agg_columns
  insert_aggs row_id i [] = pure tt
  insert_aggs row_id i (agg ∷ aggs) = do
    exec (insert_agg row_id (agg_columns i agg))
    insert_aggs row_id (suc i) aggs

  unfoldable pub insert_breach_of : ℕ → String → M (Unit {0})
  unfolding exec
  insert_breach_of row_id expr =
      if expr == "" then pure tt else do exec (insert_breach row_id expr); pure tt

  -- The statements that follow the insert of the rule's row, and the commit.
  unfoldable pub write_parts : VelocityRule → ℕ → M (Unit {0})
  unfolding exec exec_optional insert_aggs insert_breach_of sink_columns
  write_parts rule row_id = do
    exec_optional (insert_window row_id rule.windowing)
    exec (insert_sink row_id (sink_columns rule))
    insert_aggs row_id 0 rule.aggregations
    insert_breach_of row_id rule.having_thresholds.expression
    exec commit
    pure tt

  -- The statements between BeginTx and the deferred Rollback.
  unfoldable pub write_version : VelocityRule → RuleColumns → M (Unit {0})
  unfolding exec write_parts
  write_version rule columns = do
    exec (deactivate_previous rule.rule_metadata.rule_id)
    row_id ← exec (insert_rule columns)
    write_parts rule row_id

  -- `defer tx.Rollback()`: it runs on every way out, and its answer is ignored.
  unfoldable pub rolled_back : Outcome (Unit {0}) × List Stmt → Outcome (Unit {0}) × List Stmt
  rolled_back (result, log) = (result, log ++ rollback ∷ [])

  -- SaveNewRuleVersion, with a connection in hand.
  unfoldable pub save_new_rule_version :
      RuleCodec → VelocityRule → ℕ → List Stmt → Outcome (Unit {0}) × List Stmt
  unfolding rule_columns write_version rolled_back marshal_optional exec
  save_new_rule_version codec rule version log = elim (codec.marshal_keys rule.grouping.keys) [
    | none ↦ (err, log)
    | some grouping_keys ↦ elim (marshal_optional codec rule.filters) [
      | none ↦ (err, log)
      | some filters ↦ proceed (exec begin_tx log) (λ _ begun.
          rolled_back
            (write_version rule (rule_columns codec rule version grouping_keys filters) begun))
    ]
  ]

  -- UpdateRuleStatusInPlace
  unfoldable pub update_rule_status_in_place : String → String → Bool → M (Unit {0})
  unfolding exec
  update_rule_status_in_place rule_id status deactivate = do
    exec (update_status rule_id status deactivate)
    pure tt
