-- ===== src/Rules.antt =====
-- internal/handlers/rules.go: the rules in memory and the requests that change them. A request runs
-- from start to end before the next one; MySQL, Kafka, JSON and the strings package are parameters.
pub mod Durable
pub mod Announced
pub mod Invariant
pub mod Published
pub mod Concurrent
pub mod Endpoints
use velocity_engine_backend.Prelude.{
  ℕ, ◌+◌, String, Bool, true, false, ◌&&◌, ◌||◌, not, List, [], ◌∷◌, Option, none, some,
  if◌then◌else◌, ◌==◌, comparable_string, str_append,
}
use velocity_engine_backend.Prelude.Maps.{Map, lookup, insert, remove}
use velocity_engine_backend.Prelude.Int.{ℤ, lt_int, not_positive}
use velocity_engine_backend.Json.{Value, Members, Row, obj, str, at, set_field}
use velocity_engine_backend.Runtime.{Decoded, malformed, nil_map, object}
use velocity_engine_backend.Models.{RuleMetadata, VelocityRule, RuleRecord}
use velocity_engine_backend.RuleStore.{
  Mysql, Stmt, Outcome, ok, err, RuleCodec, save_new_rule_version, update_rule_status_in_place,
}
use velocity_engine_backend.Kafka.{Producer, Sent, as_object, publish}

-- What the handlers use of encoding/json and strings. `equal_fold` is strings.EqualFold, `is_blank`
-- tells whether strings.TrimSpace leaves the empty string.
pub record Api : Type 0 where
  pub codec : RuleCodec
  pub unmarshal_rule : String → Option VelocityRule
  pub unmarshal_dict : String → Decoded
  pub marshal_dict : Row → Option String
  pub is_blank : String → Bool
  pub equal_fold : String → String → Bool

-- The outcome of ShouldBindJSON: the error's text, or the body.
pub data Bound {ℓ} (A : Type ℓ) : Type ℓ where
  unbound : String → Bound A
  bound : A → Bound A

-- An answer that is not 200 carries its status and its detail.
pub data Reply : Type 0 where
  refused : ℕ → String → Reply
  one_rule : VelocityRule → Reply
  all_rules : List VelocityRule → Reply
  success : String → Reply

-- The handler's map, the statements that MySQL was given and the messages that Kafka was given.
pub record World : Type 0 where
  pub rules_db : Map String RuleRecord
  pub statements : List Stmt
  pub sent : List Sent

abbrev pub is_found : Option RuleRecord → Bool
is_found none = false
is_found (some _) = true

unfoldable pub with_status : String → VelocityRule → VelocityRule
with_status status rule = record rule {
  rule_metadata = record rule.rule_metadata { status = status };
}

unfoldable pub with_default_name : Api → String → VelocityRule → VelocityRule
with_default_name api name rule =
    if api.is_blank rule.rule_metadata.rule_name
    then record rule { rule_metadata = record rule.rule_metadata { rule_name = name } }
    else rule

unfoldable pub is_no_windowing : Api → VelocityRule → Bool
is_no_windowing api rule = api.equal_fold rule.windowing.window_type "NONE"

abbrev pub is_empty {ℓ} : {A : Type ℓ} → List A → Bool
is_empty [] = true
is_empty (_ ∷ _) = false

-- What CreateRule finds wrong with a body, first things first.
unfoldable pub create_problem : Api → VelocityRule → Option String
unfolding is_no_windowing
create_problem api rule =
    if is_no_windowing api rule
    then none
    else if is_empty rule.aggregations
    then some "aggregations list must not be empty"
    else if not_positive rule.windowing.size_ms
    then some "windowing.size_ms must be > 0"
    else if not_positive rule.windowing.slide_ms
    then some "windowing.slide_ms must be > 0"
    else if (rule.windowing.window_type == "SLIDING")
        && lt_int rule.windowing.size_ms rule.windowing.slide_ms
    then some "windowing.slide_ms must not exceed windowing.size_ms for SLIDING windows"
    else none

-- What UpdateRule finds wrong with one.
unfoldable pub update_problem : Api → VelocityRule → Option String
unfolding is_no_windowing
update_problem api rule =
    if is_no_windowing api rule
    then none
    else if is_empty rule.aggregations
    then some "aggregations list must not be empty"
    else if not_positive rule.windowing.size_ms
    then some "windowing.size_ms must be > 0"
    else none

-- `rm["status"] = status`, where rule_metadata is an object.
unfoldable pub set_status : String → Row → Row
unfolding at set_field insert
set_status status rule_dict = elim (as_object (at "rule_metadata" rule_dict)) [
  | none ↦ rule_dict
  | some metadata ↦
      insert "rule_metadata" (obj (set_field "status" (str status) metadata)) rule_dict
]

-- json.Unmarshal of a payload into the rule's map; a nil map reads as an empty one.
unfoldable pub dict_of : Api → String → Option Row
dict_of api payload = elim (api.unmarshal_dict payload) [
  | malformed ↦ none
  | nil_map ↦ some []
  | object row ↦ some row
]

unfoldable pub created_record : VelocityRule → String → RuleRecord
created_record rule payload = record {
  id = rule.rule_metadata.rule_id;
  name = rule.rule_metadata.rule_name;
  status = "DRAFT";
  rule_payload = payload;
  is_published = false;
  version = 1;
}

unfoldable pub edited_record : RuleRecord → VelocityRule → String → RuleRecord
edited_record old rule payload = record old {
  rule_payload = payload;
  status = "DRAFT";
  name = rule.rule_metadata.rule_name;
  version = old.version + 1;
}

abbrev pub is_editable : RuleRecord → Bool
is_editable old = old.status == "DRAFT" || old.status == "PAUSED"

abbrev pub is_settable : String → Bool
is_settable status = status == "ACTIVE" || status == "PAUSED"

-- The requests that change something.
pub data Request : Type 0 where
  create : Bound VelocityRule → Request
  edit : String → Bound VelocityRule → Request
  promote delete : String → Request
  change_status : String → Bound String → Request

module _ (api : Api) (mysql : Mysql) (producer : Producer) where
  -- The end of CreateRule and of UpdateRule: the row is saved, and then the map changes.
  unfoldable pub store_saved :
      VelocityRule → RuleRecord → String → World → Outcome (Unit {0}) × List Stmt → Reply × World
  unfolding insert
  store_saved rule rule_record detail w (ok _, log) = (
    one_rule rule,
    record w {
      rules_db = insert rule.rule_metadata.rule_id rule_record w.rules_db;
      statements = log;
    },
  )
  store_saved rule rule_record detail w (err, log) =
      (refused 503 detail, record w { statements = log })

  -- CreateRule, from `Force DRAFT` on
  unfoldable pub create_draft : VelocityRule → World → Reply × World
  unfolding store_saved save_new_rule_version created_record
  create_draft rule w = elim (api.codec.marshal_rule rule) [
    | none ↦ (refused 500 "Failed to serialize rule", w)
    | some payload ↦
        store_saved rule (created_record rule payload) "Failed to persist rule — please try again" w
          (save_new_rule_version mysql api.codec rule 1 w.statements)
  ]

  unfoldable pub create_rule : Bound VelocityRule → World → Reply × World
  unfolding lookup with_default_name create_problem with_status create_draft
  create_rule (unbound text) w = (refused 400 (str_append "Invalid request body: " text), w)
  create_rule (bound body) w =
      let rule_id = body.rule_metadata.rule_id in
      let rule = with_default_name api rule_id body in
      if is_found (lookup rule_id w.rules_db)
      then (refused 400 "Rule with this ID already exists", w)
      else elim (create_problem api rule) [
        | some detail ↦ (refused 400 detail, w)
        | none ↦ create_draft (with_status "DRAFT" rule) w
      ]

  -- UpdateRule, from `Force back to DRAFT` on
  unfoldable pub update_draft : RuleRecord → VelocityRule → World → Reply × World
  unfolding store_saved save_new_rule_version edited_record
  update_draft old rule w = elim (api.codec.marshal_rule rule) [
    | none ↦ (refused 500 "Failed to serialize rule", w)
    | some payload ↦
        store_saved rule (edited_record old rule payload)
          "Failed to persist rule update — please try again" w
          (save_new_rule_version mysql api.codec rule (old.version + 1) w.statements)
  ]

  unfoldable pub update_rule : String → Bound VelocityRule → World → Reply × World
  unfolding lookup with_default_name update_problem with_status update_draft
  update_rule rule_id (unbound text) w = (refused 400 (str_append "Invalid request body: " text), w)
  update_rule rule_id (bound body) w =
      let rule = with_default_name api rule_id body in
      if not (body.rule_metadata.rule_id == rule_id)
      then (refused 400 "rule_id in payload must match URL parameter", w)
      else elim (lookup rule_id w.rules_db) [
        | none ↦ (refused 404 "Rule not found", w)
        | some old ↦
            if not (is_editable old)
            then (
              refused 409 (
                  str_append "Rule is " (str_append old.status ". Pause the rule before editing.")),
              w,
            )
            else elim (update_problem api rule) [
              | some detail ↦ (refused 400 detail, w)
              | none ↦ update_draft old (with_status "DRAFT" rule) w
            ]
      ]

  -- The end of PublishRule and of UpdateRuleStatus: the map's JSON, the row's status, whose failure is
  -- passed over, and the record.
  unfoldable pub store_published :
      String → RuleRecord → String → Row → String → World → Reply × World
  unfolding insert update_rule_status_in_place
  store_published rule_id updated status rule_dict text w = elim (api.marshal_dict rule_dict) [
    | none ↦ (refused 500 "Internal server error", w)
    | some payload ↦ (
      success text,
      record w {
        rules_db = insert rule_id (record updated { rule_payload = payload }) w.rules_db;
        statements = (update_rule_status_in_place mysql rule_id status false w.statements).1;
      },
    )
  ]

  -- Kafka first: the record changes only behind a confirmed message.
  unfoldable pub publish_then : Row → World → Reply → (World → Reply × World) → Reply × World
  unfolding publish
  publish_then rule_dict w refusal next =
      let result = publish api.marshal_dict producer rule_dict w.sent in
      if result.0
      then next (record w { sent = result.1 })
      else (refusal, record w { sent = result.1 })

  unfoldable pub publish_rule : String → World → Reply × World
  unfolding lookup dict_of set_status publish_then store_published
  publish_rule rule_id w = elim (lookup rule_id w.rules_db) [
    | none ↦ (refused 404 "Rule not found", w)
    | some old ↦ elim (dict_of api old.rule_payload) [
      | none ↦ (refused 500 "Failed to deserialize rule", w)
      | some row ↦
          let rule_dict = set_status "ACTIVE" row in
          publish_then rule_dict w (refused 500 "Failed to publish rule to Kafka") (
            store_published rule_id (record old { is_published = true; status = "ACTIVE" }) "ACTIVE"
              rule_dict (str_append "Rule " (str_append rule_id " moved to PROD (ACTIVE)")))
    ]
  ]

  unfoldable pub update_rule_status : String → Bound String → World → Reply × World
  unfolding lookup dict_of set_status publish_then store_published
  update_rule_status rule_id (unbound text) w = (refused 400 "Invalid request body", w)
  update_rule_status rule_id (bound status) w =
      if not (is_settable status)
      then (refused 400 "Invalid status. Use ACTIVE or PAUSED.", w)
      else elim (lookup rule_id w.rules_db) [
        | none ↦ (refused 404 "Rule not found", w)
        | some old ↦ elim (dict_of api old.rule_payload) [
          | none ↦ (refused 500 "Failed to deserialize rule", w)
          | some row ↦
              let rule_dict = set_status status row in
              publish_then rule_dict w (refused 500 "Failed to publish status update to Kafka") (
                store_published rule_id (record old { status = status }) status rule_dict
                  (str_append "Rule "
                    (str_append rule_id (str_append " status updated to " status))))
        ]
      ]

  -- The end of DeleteRule: the row's tombstone, whose failure is passed over, and the map.
  unfoldable pub forget : String → World → Reply × World
  unfolding remove update_rule_status_in_place
  forget rule_id w = (
    success (str_append "Rule " (str_append rule_id " removed from Flink and permanently deleted")),
    record w {
      rules_db = remove rule_id w.rules_db;
      statements = (update_rule_status_in_place mysql rule_id "DELETED" true w.statements).1;
    },
  )

  unfoldable pub delete_rule : String → World → Reply × World
  unfolding lookup dict_of set_status publish_then forget
  delete_rule rule_id w = elim (lookup rule_id w.rules_db) [
    | none ↦ (refused 404 "Rule not found", w)
    | some old ↦ elim (dict_of api old.rule_payload) [
      | none ↦ (refused 500 "Failed to deserialize rule", w)
      | some row ↦
          if old.is_published
          then publish_then (set_status "DELETED" row) w
              (refused 500 "Failed to publish DELETED tombstone to Kafka. Safety abort.")
              (forget rule_id)
          else forget rule_id w
    ]
  ]

  -- GetRule and ListRules
  unfoldable pub get_rule : String → World → Reply
  unfolding lookup
  get_rule rule_id w = elim (lookup rule_id w.rules_db) [
    | none ↦ refused 404 "Rule not found"
    | some old ↦ elim (api.unmarshal_rule old.rule_payload) [
      | none ↦ refused 500 "Failed to deserialize rule"
      | some rule ↦ one_rule rule
    ]
  ]

  unfoldable pub readable : Map String RuleRecord → List VelocityRule
  readable [] = []
  readable ((_, r) ∷ rest) = elim (api.unmarshal_rule r.rule_payload) [
    | none ↦ readable rest
    | some rule ↦ rule ∷ readable rest
  ]

  unfoldable pub list_rules : World → Reply
  unfolding readable
  list_rules w = all_rules (readable w.rules_db)

  unfoldable pub serve : Request → World → Reply × World
  unfolding create_rule update_rule publish_rule delete_rule update_rule_status
  serve (create body) = create_rule body
  serve (edit rule_id body) = update_rule rule_id body
  serve (promote rule_id) = publish_rule rule_id
  serve (delete rule_id) = delete_rule rule_id
  serve (change_status rule_id body) = update_rule_status rule_id body

  unfoldable pub serve_all : List Request → World → World
  unfolding serve
  serve_all [] w = w
  serve_all (r ∷ rs) w = serve_all rs (serve r w).1
