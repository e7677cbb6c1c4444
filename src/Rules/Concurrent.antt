-- ===== src/Rules/Concurrent.antt =====
-- internal/handlers/rules.go under requests that overlap: the handlers hold pointers to the records and
-- lock the map for each access to memory, while Kafka and MySQL are called between two locks. A step of
-- a request is one locked access, one message or one transaction; a schedule says whose step is next.
pub mod Sound
pub mod Steps
pub mod Orders
pub mod View
pub mod Rest
pub mod Alone
pub mod Races
use velocity_engine_backend.Prelude.{
  ℕ, zero, suc, ◌+◌, String, Bool, true, false, not, List, [], ◌∷◌, ◌++◌, Option, none, some,
  if◌then◌else◌, ◌==◌, comparable_string, str_append, length, get_elem?, set,
}
use velocity_engine_backend.Prelude.Maps.{Map, lookup, insert, remove}
use velocity_engine_backend.Json.{Row}
use velocity_engine_backend.Models.{VelocityRule, RuleRecord}
use velocity_engine_backend.RuleStore.{
  Mysql, Stmt, Outcome, ok, err, save_new_rule_version, update_rule_status_in_place,
}
use velocity_engine_backend.Kafka.{Producer, Sent, publish}
use velocity_engine_backend.Rules.{
  Api, unbound, bound, Reply, refused, one_rule, success, with_status, with_default_name,
  create_problem, update_problem, set_status, dict_of, created_record, is_editable, is_settable,
  Request, create, edit, promote, delete, change_status,
}

-- `heap` holds every record ever made, by its address; `table` is rulesDB, a map to pointers.
pub record Shared : Type 0 where
  pub heap : List RuleRecord
  pub table : Map String ℕ
  pub statements : List Stmt
  pub sent : List Sent

-- What PublishRule and UpdateRuleStatus keep from their first lock on: the rule's id, the pointer to its
-- record, the status asked for, whether IsPublished is set too, and the two answers.
pub record Change : Type 0 where
  pub rule_id : String
  pub address : ℕ
  pub status : String
  pub marks_published : Bool
  pub refusal : String
  pub text : String

-- Where a request stands, with its local variables.
pub data Task : Type 0 where
  arrived : Request → Task
  announcing : Change → Row → Task
  persisting : Change → String → Task
  storing : Change → String → Task
  tombstoning : String → Row → Task
  deactivating : String → Task
  removing : String → Task
  saving_new : VelocityRule → String → Task
  storing_new : VelocityRule → String → Task
  saving_edit : ℕ → ℕ → VelocityRule → String → Task
  storing_edit : ℕ → ℕ → VelocityRule → String → Task
  answered : Reply → Task

-- A write through a pointer.
abbrev pub update_at : ℕ → (RuleRecord → RuleRecord) → List RuleRecord → List RuleRecord
update_at i f [] = []
update_at zero f (r ∷ rs) = f r ∷ rs
update_at (suc i) f (r ∷ rs) = r ∷ update_at i f rs

-- `record, ok := h.rulesDB[ruleID]`, and what the pointer leads to.
unfoldable pub find : String → Shared → Option (ℕ × RuleRecord)
unfolding lookup
find rule_id s = elim (lookup rule_id s.table) [
  | none ↦ none
  | some address ↦ elim (get_elem? s.heap address) [
    | none ↦ none
    | some found ↦ some (address, found)
  ]
]

-- The assignments under the last lock of PublishRule and UpdateRuleStatus.
unfoldable pub changed : Change → String → RuleRecord → RuleRecord
changed c payload r = record r {
  is_published = if c.marks_published then true else r.is_published;
  status = c.status;
  rule_payload = payload;
}

-- The assignments under the last lock of UpdateRule.
unfoldable pub revised : ℕ → VelocityRule → String → RuleRecord → RuleRecord
revised version rule payload r = record r {
  rule_payload = payload;
  status = "DRAFT";
  name = rule.rule_metadata.rule_name;
  version = version;
}

abbrev pub publication : String → ℕ → Change
publication rule_id address = record {
  rule_id = rule_id;
  address = address;
  status = "ACTIVE";
  marks_published = true;
  refusal = "Failed to publish rule to Kafka";
  text = str_append "Rule " (str_append rule_id " moved to PROD (ACTIVE)");
}

abbrev pub status_change : String → ℕ → String → Change
status_change rule_id address status = record {
  rule_id = rule_id;
  address = address;
  status = status;
  marks_published = false;
  refusal = "Failed to publish status update to Kafka";
  text = str_append "Rule " (str_append rule_id (str_append " status updated to " status));
}

module _ (api : Api) (mysql : Mysql) (producer : Producer) where
  -- From `Force DRAFT` to json.Marshal, which no other request sees.
  unfoldable pub drafted : (VelocityRule → String → Task) → VelocityRule → Task
  unfolding with_status
  drafted next rule = elim (api.codec.marshal_rule rule) [
    | none ↦ answered (refused 500 "Failed to serialize rule")
    | some payload ↦ next rule payload
  ]

  -- The first locked read of each handler, and what it decides by it.
  unfoldable pub receive : Request → Shared → Task
  unfolding lookup find with_default_name create_problem update_problem with_status drafted dict_of
      set_status
  receive (create (unbound text)) s =
      answered (refused 400 (str_append "Invalid request body: " text))
  receive (create (bound body)) s =
      let rule_id = body.rule_metadata.rule_id in
      let rule = with_default_name api rule_id body in
      elim (lookup rule_id s.table) [
        | some _ ↦ answered (refused 400 "Rule with this ID already exists")
        | none ↦ elim (create_problem api rule) [
          | some detail ↦ answered (refused 400 detail)
          | none ↦ drafted saving_new (with_status "DRAFT" rule)
        ]
      ]
  receive (edit rule_id (unbound text)) s =
      answered (refused 400 (str_append "Invalid request body: " text))
  receive (edit rule_id (bound body)) s =
      let rule = with_default_name api rule_id body in
      if not (body.rule_metadata.rule_id == rule_id)
      then answered (refused 400 "rule_id in payload must match URL parameter")
      else elim (find rule_id s) [
        | none ↦ answered (refused 404 "Rule not found")
        | some (address, old) ↦
            if not (is_editable old)
            then answered (
                refused 409 (
                  str_append "Rule is " (str_append old.status ". Pause the rule before editing.")))
            else elim (update_problem api rule) [
              | some detail ↦ answered (refused 400 detail)
              | none ↦ drafted (saving_edit address (old.version + 1)) (with_status "DRAFT" rule)
            ]
      ]
  receive (promote rule_id) s = elim (find rule_id s) [
    | none ↦ answered (refused 404 "Rule not found")
    | some (address, old) ↦ elim (dict_of api old.rule_payload) [
      | none ↦ answered (refused 500 "Failed to deserialize rule")
      | some row ↦ announcing (publication rule_id address) (set_status "ACTIVE" row)
    ]
  ]
  receive (delete rule_id) s = elim (find rule_id s) [
    | none ↦ answered (refused 404 "Rule not found")
    | some (address, old) ↦ elim (dict_of api old.rule_payload) [
      | none ↦ answered (refused 500 "Failed to deserialize rule")
      | some row ↦
          if old.is_published
          then tombstoning rule_id (set_status "DELETED" row)
          else deactivating rule_id
    ]
  ]
  receive (change_status rule_id (unbound text)) s = answered (refused 400 "Invalid request body")
  receive (change_status rule_id (bound status)) s =
      if not (is_settable status)
      then answered (refused 400 "Invalid status. Use ACTIVE or PAUSED.")
      else elim (find rule_id s) [
        | none ↦ answered (refused 404 "Rule not found")
        | some (address, old) ↦ elim (dict_of api old.rule_payload) [
          | none ↦ answered (refused 500 "Failed to deserialize rule")
          | some row ↦ announcing (status_change rule_id address status) (set_status status row)
        ]
      ]

  -- services.PublishRule, and where the request goes on with true and with false.
  unfoldable pub send : Row → Shared → Task → Task → Task × Shared
  unfolding publish
  send rule_dict s delivered undelivered =
      let result = publish api.marshal_dict producer rule_dict s.sent in
      (if result.0 then delivered else undelivered, record s { sent = result.1 })

  -- services.SaveNewRuleVersion, likewise.
  unfoldable pub saved : Outcome (Unit {0}) × List Stmt → Shared → Task → String → Task × Shared
  saved (ok _, log) s next detail = (next, record s { statements = log })
  saved (err, log) s next detail = (answered (refused 503 detail), record s { statements = log })

  -- json.Marshal of the rule's map, after the message.
  unfoldable pub marshalled : Change → Row → Task
  marshalled c rule_dict = elim (api.marshal_dict rule_dict) [
    | none ↦ answered (refused 500 "Internal server error")
    | some payload ↦ persisting c payload
  ]

  -- One step of a request.
  unfoldable pub advance : Task → Shared → Task × Shared
  unfolding receive send saved marshalled update_rule_status_in_place save_new_rule_version changed
      revised created_record insert remove
  advance (arrived request) s = (receive request s, s)
  advance (announcing c rule_dict) s =
      send rule_dict s (marshalled c rule_dict) (answered (refused 500 c.refusal))
  advance (persisting c payload) s = (
    storing c payload,
    record s {
      statements = (update_rule_status_in_place mysql c.rule_id c.status false s.statements).1;
    },
  )
  advance (storing c payload) s = (
    answered (success c.text),
    record s { heap = update_at c.address (changed c payload) s.heap },
  )
  advance (tombstoning rule_id rule_dict) s =
      send rule_dict s (deactivating rule_id)
        (answered (refused 500 "Failed to publish DELETED tombstone to Kafka. Safety abort."))
  advance (deactivating rule_id) s = (
    removing rule_id,
    record s {
      statements = (update_rule_status_in_place mysql rule_id "DELETED" true s.statements).1;
    },
  )
  advance (removing rule_id) s = (
    answered (
        success
          (str_append "Rule " (str_append rule_id " removed from Flink and permanently deleted"))),
    record s { table = remove rule_id s.table },
  )
  advance (saving_new rule payload) s =
      saved (save_new_rule_version mysql api.codec rule 1 s.statements) s (storing_new rule payload)
        "Failed to persist rule — please try again"
  advance (storing_new rule payload) s = (
    answered (one_rule rule),
    record s {
      heap = s.heap ++ created_record rule payload ∷ [];
      table = insert rule.rule_metadata.rule_id (length s.heap) s.table;
    },
  )
  advance (saving_edit address version rule payload) s =
      saved (save_new_rule_version mysql api.codec rule version s.statements) s
        (storing_edit address version rule payload)
        "Failed to persist rule update — please try again"
  advance (storing_edit address version rule payload) s = (
    answered (one_rule rule),
    record s { heap = update_at address (revised version rule payload) s.heap },
  )
  advance (answered reply) s = (answered reply, s)

  -- The request at place `i` makes a step.
  unfoldable pub turn : ℕ → List Task × Shared → List Task × Shared
  unfolding advance
  turn i (tasks, s) = elim (get_elem? tasks i) [
    | none ↦ (tasks, s)
    | some task ↦ (set tasks i (advance task s).0, (advance task s).1)
  ]

  unfoldable pub run : List ℕ → List Task × Shared → List Task × Shared
  unfolding turn
  run [] system = system
  run (i ∷ schedule) system = run schedule (turn i system)
