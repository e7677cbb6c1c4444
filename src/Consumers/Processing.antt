-- ===== src/Consumers/Processing.antt =====
-- What processMessage and processAnomaly of internal/services hand on.
use velocity_engine_backend.Prelude.{
  String, ◌≡◌, refl, ◌∙◌, Bool, true, false, ◌&&◌, not, if◌then◌else◌, ◌==◌, comparable_string,
  ==_iff, Bool-cases, inl, inr, arith,
}
use velocity_engine_backend.Prelude.Maps.{insert, lookup-insert}
use velocity_engine_backend.Json.{Value, Row, str, bool, at, has, as_string}
use velocity_engine_backend.Runtime.{Runtime, object}
use velocity_engine_backend.LiveStore.{LiveStore}
use velocity_engine_backend.LiveStore.Bounded.{IsValid, IsAdded, add-IsAdded}
use velocity_engine_backend.Consumers.{
  processed, process_message, process_row, normalize, normalize_rule_id, normalize_group_key,
  decode_field, target_rule, set_absent,
}

at-insert :
    (k j : String) (v : Value) (row : Row)
    → at j (insert k v row) ≡ (if k == j then v else at j row)
unfolding at
at-insert k j v row = ground (arith, lookup-insert k j v row)

has-insert :
    (k j : String) (v : Value) (row : Row)
    → has j (insert k v row) ≡ (if k == j then true else has j row)
unfolding has
has-insert k j v row = ground (arith, lookup-insert k j v row)

event_type-normalize_rule_id :
    (row : Row) → at "event_type" (normalize_rule_id row) ≡ at "event_type" row
unfolding normalize_rule_id
event_type-normalize_rule_id row =
    elim (Bool-cases (not (as_string (at "id" row) == "") && not (has "ruleId" row))) [
      | inl q ↦ rw (q, normalize_rule_id) (at-insert "ruleId" "event_type" _ row)
      | inr q ↦ rw (q, normalize_rule_id) refl
    ]

event_type-normalize_group_key :
    (row : Row) → at "event_type" (normalize_group_key row) ≡ at "event_type" row
unfolding normalize_group_key
event_type-normalize_group_key row =
    elim (Bool-cases (not (has "groupKey" row) && not (as_string (at "entityValue" row) == ""))) [
      | inl q ↦ rw (q, normalize_group_key) (at-insert "groupKey" "event_type" _ row)
      | inr q ↦ rw (q, normalize_group_key) refl
    ]

at-set_absent :
    (k j : String) (b : Bool) (row : Row) → (k == j) ≡ false → at j (set_absent k b row) ≡ at j row
unfolding set_absent
at-set_absent k j b row h = ground (arith, at-insert k j (bool b) row)

has-set_absent :
    (k j : String) (b : Bool) (row : Row)
    → has j (set_absent k b row) ≡ (if k == j then true else has j row)
unfolding set_absent
has-set_absent k j b row = ground (arith, has-insert k j (bool b) row, ==_iff k j)

module _ (rt : Runtime) where
  -- A message that decodes to a row, over a valid store, is processed: processMessage stores the
  -- normalized row as Add does, keeps the store valid, and broadcasts that same row.
  pub process_message-processed :
      (text : String) (row : Row) (s : LiveStore)
      → rt.unmarshal_object text ≡ object row
      → IsValid rt s
      → (t : LiveStore) × (process_message rt text s
          ≡ processed t (target_rule (normalize rt row)) (normalize rt row))
        × IsAdded rt (normalize rt row) s t
  unfolding process_message process_row
  process_message-processed text row s e v =
      let (t, h) = add-IsAdded rt (normalize rt row) s v in
      (t, rw (e, process_message, h.returned, process_row) refl, h)

  -- The row that goes on carries the type `agg`, and says whether it breached and whether it is final.
  pub normalize_lem :
      (row : Row)
      → (at "event_type" (normalize rt row) ≡ str "agg")
        × (has "thresholdBreached" (normalize rt row) ≡ true)
        × (has "isFinal" (normalize rt row) ≡ true)
  unfolding normalize
  normalize_lem row =
      let decoded = decode_field rt "aggregationResults" (decode_field rt "aggResult" row) in
      let tagged = insert "event_type" (str "agg") decoded in
      let keyed = normalize_group_key (normalize_rule_id tagged) in
      let marked = set_absent "thresholdBreached" false keyed in
      (
        at-set_absent "isFinal" "event_type" true marked refl
            ∙ at-set_absent "thresholdBreached" "event_type" false keyed refl
            ∙ event_type-normalize_group_key (normalize_rule_id tagged)
            ∙ event_type-normalize_rule_id tagged
            ∙ at-insert "event_type" "event_type" (str "agg") decoded,
        has-set_absent "isFinal" "thresholdBreached" true marked
            ∙ has-set_absent "thresholdBreached" "thresholdBreached" false keyed,
        has-set_absent "isFinal" "isFinal" true marked,
      )
