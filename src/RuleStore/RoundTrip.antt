-- ===== src/RuleStore/RoundTrip.antt =====
-- What SaveNewRuleVersion of rule_store.go writes, LoadActiveRules reads back.
use velocity_engine_backend.Prelude.{
  ℕ, suc, String, ◌≡◌, ◌⊎◌, inl, inr, refl, ◌||◌, List, [], ◌∷◌, map, Option, none, some,
  if◌then◌else◌, ◌==◌, comparable_string, comparable_nat, All, arith, Option-cases,
}
use text.Mathlib.TextEquality.{eq_iff}
use velocity_engine_backend.Prelude.Maps.{lookup}
use velocity_engine_backend.Models.{
  FilterNode, SinkConfig, AggregationSpec, VelocityRule, RuleRecord,
}
use velocity_engine_backend.RuleStore.{
  AggColumns, RuleCodec, agg_columns, sink_columns, rule_columns, marshal_optional,
}
use velocity_engine_backend.RuleStore.Reload.{
  Tables, read_agg, columns_of, aggs_of, read_filters, rebuild_rule, load_rule, or_zero,
}

-- The columns that insertAggs writes from index `i` on.
unfoldable pub agg_rows : ℕ → List AggregationSpec → List AggColumns
agg_rows i [] = []
agg_rows i (agg ∷ aggs) = agg_columns i agg ∷ agg_rows (suc i) aggs

-- The table keeps one bit of the hint.
abbrev pub HasKnownHint : AggregationSpec → Type 0
HasKnownHint agg = (agg.hint ≡ "HIGH") ⊎ (agg.hint ≡ "LOW")

-- The side tables hold, under the row id, what the save inserted for the rule.
pub record IsStored (t : Tables) (row_id : ℕ) (rule : VelocityRule) : Type 0 where
  pub window : lookup row_id t.windows ≡ some rule.windowing
  pub sink : lookup row_id t.sinks ≡ some (sink_columns rule)
  pub aggs : columns_of row_id t.aggs ≡ agg_rows 0 rule.aggregations
  pub breach : lookup row_id t.breaches ≡ (
      if rule.having_thresholds.expression == ""
      then none
      else some rule.having_thresholds.expression)

read_agg-agg_columns :
    (i : ℕ) (agg : AggregationSpec) → HasKnownHint agg → read_agg (agg_columns i agg) ≡ agg
unfolding read_agg agg_columns
read_agg-agg_columns i agg (inl h) = ground (arith, eq_iff agg.hint "HIGH")
read_agg-agg_columns i agg (inr h) = ground (arith, eq_iff agg.hint "HIGH")

map-read_agg-agg_rows :
    (i : ℕ) (aggs : List AggregationSpec)
    → All HasKnownHint aggs
    → map read_agg (agg_rows i aggs) ≡ aggs
unfolding agg_rows
map-read_agg-agg_rows i [] h = refl
map-read_agg-agg_rows i (agg ∷ aggs) h =
    ground (arith, read_agg-agg_columns i agg h.0, map-read_agg-agg_rows (suc i) aggs h.1)

expression_read : (expr : String) → or_zero "" (if expr == "" then none else some expr) ≡ expr
expression_read expr = ground (arith, eq_iff expr "")

-- The record that the load makes of a rule, given the rule's payload.
unfoldable pub loaded_record : VelocityRule → ℕ → String → RuleRecord
loaded_record rule version payload = record {
  id = rule.rule_metadata.rule_id;
  name = rule.rule_metadata.rule_name;
  status = rule.rule_metadata.status;
  rule_payload = payload;
  is_published = rule.rule_metadata.status == "ACTIVE" || rule.rule_metadata.status == "PAUSED";
  version = version;
}

-- What a JSON column gives back for an optional text
abbrev pub stored : (String → String) → Option String → Option String
stored column none = none
stored column (some text) = some (column text)

read_filters-stored :
    (codec : RuleCodec) (column : String → String) (filters : Option FilterNode)
    (written : Option String)
    → marshal_optional codec filters ≡ some written
    → ((node : FilterNode) (text : String)
        → filters ≡ some node
        → written ≡ some text
        → codec.unmarshal_filters (column text) ≡ some node)
    → read_filters codec (stored column written) ≡ some filters
unfolding read_filters marshal_optional
read_filters-stored codec column none none e back = refl
read_filters-stored codec column none (some text) e back = absurd (ground (arith, e))
read_filters-stored codec column (some node) none e back =
    elim (Option-cases (codec.marshal_filters node)) [
      | inl q ↦ absurd (ground (arith, e, q))
      | inr (text, q) ↦ absurd (ground (arith, e, q))
    ]
read_filters-stored codec column (some node) (some text) e back =
    rw (back node text refl refl, read_filters) refl

module _ (codec : RuleCodec) (t : Tables) (row_id version : ℕ) (rule : VelocityRule)
    (sinks : SinkConfig) (rows : IsStored t row_id rule)
    (hints : All HasKnownHint rule.aggregations) (has_sinks : rule.sinks ≡ some sinks) where
  -- The rule that the load rebuilds is the rule that was saved.
  rebuild_rule_lem :
      (text : String) (filters : Option String)
      → rebuild_rule t row_id
          (rule_columns codec rule version text filters)
          rule.grouping.keys
          rule.filters
        ≡ rule
  unfolding rebuild_rule rule_columns aggs_of sink_columns
  rebuild_rule_lem text filters =
      rw
        (
          rows.window,
          rows.sink,
          rows.aggs,
          rows.breach,
          has_sinks,
          map-read_agg-agg_rows 0 rule.aggregations hints,
          expression_read rule.having_thresholds.expression,
        )
        refl

  -- A row that a save wrote, read back beside its side rows, is the record of the rule that was saved,
  -- with the payload its JSON gives. The rule names its sinks, each aggregation's hint is HIGH or LOW,
  -- and what the JSON columns give back for the texts of the rule's own grouping keys and filters
  -- decodes to these keys and filters; the text that comes back may differ from the one written.
  pub load_rule-rule_columns :
      (column : String → String) (keys_text : String) (filters : Option String) (payload : String)
      → codec.marshal_keys rule.grouping.keys ≡ some keys_text
      → marshal_optional codec rule.filters ≡ some filters
      → codec.unmarshal_keys (column keys_text) ≡ some rule.grouping.keys
      → ((node : FilterNode) (text : String)
          → rule.filters ≡ some node
          → filters ≡ some text
          → codec.unmarshal_filters (column text) ≡ some node)
      → codec.marshal_rule rule ≡ some payload
      → load_rule codec t row_id
          (rule_columns codec rule version (column keys_text) (stored column filters))
        ≡ some (loaded_record rule version payload)
  unfolding load_rule rule_columns loaded_record
  load_rule-rule_columns column keys_text filters payload k f keys_back filters_back p =
      rw
        (
          keys_back,
          read_filters-stored codec column rule.filters filters f filters_back,
          rebuild_rule_lem (column keys_text) (stored column filters),
          p,
          load_rule,
        )
        refl
