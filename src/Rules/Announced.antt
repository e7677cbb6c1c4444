-- ===== src/Rules/Announced.antt =====
-- PublishRule, UpdateRuleStatus and DeleteRule of internal/handlers/rules.go: Kafka first, memory second.
use velocity_engine_backend.Prelude.{
  String, ◌≡◌, refl, ◌⊎◌, inl, inr, true, false, some, comparable_string, Bool-cases, Option-cases,
}
use velocity_engine_backend.Prelude.Maps.{lookup, insert, remove}
use velocity_engine_backend.Json.{Row}
use velocity_engine_backend.Models.{RuleRecord}
use velocity_engine_backend.RuleStore.{Mysql}
use velocity_engine_backend.Kafka.{Producer, publish_lem, IsDelivered, IsUndelivered}
use velocity_engine_backend.Rules.{
  Api, bound, Reply, refused, World, set_status, dict_of, store_published, publish_then,
  publish_rule, is_settable, update_rule_status, forget, delete_rule,
}
use velocity_engine_backend.Rules.Durable.{is_success}

module _ (api : Api) (mysql : Mysql) (producer : Producer) where
  -- An error that leaves the rules in memory alone, and no message that Kafka confirmed.
  abbrev pub IsAbandoned : World → Reply × World → Type 0
  IsAbandoned w result =
      (is_success result.0 ≡ false)
      × (result.1.rules_db ≡ w.rules_db)
      × IsUndelivered api.marshal_dict producer w.sent result.1.sent

  -- The map's message was confirmed, and the record changed with the text that was sent.
  abbrev pub IsAnnounced : Row → String → RuleRecord → World → Reply × World → Type 0
  IsAnnounced rule_dict rule_id updated w result =
      (is_success result.0 ≡ true)
      × IsDelivered api.marshal_dict producer rule_dict w.sent result.1.sent
      × ((payload : String) × (api.marshal_dict rule_dict ≡ some payload)
          × (result.1.rules_db
              ≡ insert rule_id (record updated { rule_payload = payload }) w.rules_db))

  announce :
      (rule_dict : Row) (rule_id : String) (updated : RuleRecord) (status detail text : String)
      (w : World)
      → IsAbandoned w (
          publish_then api mysql producer rule_dict w
            (refused 500 detail)
            (store_published api mysql producer rule_id updated status rule_dict text))
        ⊎ IsAnnounced rule_dict rule_id updated w (
            publish_then api mysql producer rule_dict w
              (refused 500 detail)
              (store_published api mysql producer rule_id updated status rule_dict text))
  unfolding publish_then store_published
  announce rule_dict rule_id updated status detail text w =
      elim (publish_lem api.marshal_dict producer rule_dict w.sent) [
        | inr (f, u) ↦ inl (rw (f, publish_then) (refl, refl, u))
        | inl (t, (key, content, k, m, e)) ↦ inr (
            rw (t, publish_then, m, store_published)
              (refl, (key, content, k, refl, e), (content, refl, refl)))
      ]

  -- PublishRule either fails, with the rules in memory as they were and no confirmed message, or makes
  -- the rule ACTIVE and published behind one confirmed message that carries the ACTIVE rule.
  pub publish_rule-IsAnnounced :
      (rule_id : String) (w : World)
      → IsAbandoned w (publish_rule api mysql producer rule_id w)
        ⊎ ((old : RuleRecord) × (row : Row) × (lookup rule_id w.rules_db ≡ some old)
            × (dict_of api old.rule_payload ≡ some row)
            × IsAnnounced
                (set_status "ACTIVE" row)
                rule_id
                (record old { is_published = true; status = "ACTIVE" })
                w
                (publish_rule api mysql producer rule_id w))
  unfolding publish_rule
  publish_rule-IsAnnounced rule_id w = elim (Option-cases (lookup rule_id w.rules_db)) [
    | inl q ↦ inl (rw (q, publish_rule) (refl, refl, inl refl))
    | inr (old, q) ↦ elim (Option-cases (dict_of api old.rule_payload)) [
      | inl d ↦ inl (rw (q, d, publish_rule) (refl, refl, inl refl))
      | inr (row, d) ↦
          elim (announce (set_status "ACTIVE" row) rule_id
            (record old { is_published = true; status = "ACTIVE" }) "ACTIVE" _ _ w) [
              | inl a ↦ inl (rw (q, d, publish_rule) a)
              | inr a ↦ inr (old, row, q, d, rw (q, d, publish_rule) a)
            ]
    ]
  ]

  -- UpdateRuleStatus either fails, with the rules in memory as they were and no confirmed message, or
  -- sets ACTIVE or PAUSED, whichever it was asked for, behind one confirmed message that carries it.
  pub update_rule_status-IsAnnounced :
      (rule_id status : String) (w : World)
      → IsAbandoned w (update_rule_status api mysql producer rule_id (bound status) w)
        ⊎ ((old : RuleRecord) × (row : Row) × (is_settable status ≡ true)
            × (lookup rule_id w.rules_db ≡ some old)
            × (dict_of api old.rule_payload ≡ some row)
            × IsAnnounced
                (set_status status row)
                rule_id
                (record old { status = status })
                w
                (update_rule_status api mysql producer rule_id (bound status) w))
  unfolding update_rule_status
  update_rule_status-IsAnnounced rule_id status w = elim (Bool-cases (is_settable status)) [
    | inr n ↦ inl (rw (n, update_rule_status) (refl, refl, inl refl))
    | inl n ↦ elim (Option-cases (lookup rule_id w.rules_db)) [
      | inl q ↦ inl (rw (n, q, update_rule_status) (refl, refl, inl refl))
      | inr (old, q) ↦ elim (Option-cases (dict_of api old.rule_payload)) [
        | inl d ↦ inl (rw (n, q, d, update_rule_status) (refl, refl, inl refl))
        | inr (row, d) ↦
            elim (announce (set_status status row) rule_id (record old { status = status }) status _
              _ w) [
                | inl a ↦ inl (rw (n, q, d, update_rule_status) a)
                | inr a ↦ inr (old, row, n, q, d, rw (n, q, d, update_rule_status) a)
              ]
      ]
    ]
  ]

  -- The rule is gone from the map; a published one only behind a confirmed DELETED message.
  abbrev pub IsDeleted : String → World → Reply × World → Type 0
  IsDeleted rule_id w result =
      (old : RuleRecord) × (row : Row) × (lookup rule_id w.rules_db ≡ some old)
      × (dict_of api old.rule_payload ≡ some row)
      × (is_success result.0 ≡ true)
      × (result.1.rules_db ≡ remove rule_id w.rules_db)
      × (((old.is_published ≡ true)
            × IsDelivered api.marshal_dict producer (set_status "DELETED" row) w.sent result.1.sent)
          ⊎ ((old.is_published ≡ false) × (result.1.sent ≡ w.sent)))

  -- DeleteRule either fails, with the rules in memory as they were and no confirmed message, or takes
  -- the rule off the map: where it is marked as published, behind a confirmed DELETED message, and
  -- otherwise without a message.
  pub delete_rule-IsDeleted :
      (rule_id : String) (w : World)
      → IsAbandoned w (delete_rule api mysql producer rule_id w)
        ⊎ IsDeleted rule_id w (delete_rule api mysql producer rule_id w)
  unfolding delete_rule forget publish_then
  delete_rule-IsDeleted rule_id w = elim (Option-cases (lookup rule_id w.rules_db)) [
    | inl q ↦ inl (rw (q, delete_rule) (refl, refl, inl refl))
    | inr (old, q) ↦ elim (Option-cases (dict_of api old.rule_payload)) [
      | inl d ↦ inl (rw (q, d, delete_rule) (refl, refl, inl refl))
      | inr (row, d) ↦ elim (Bool-cases old.is_published) [
        | inr n ↦ inr (
          old,
          row,
          q,
          d,
          rw (q, d, delete_rule, n) refl,
          rw (q, d, delete_rule, n) refl,
          inr (n, rw (q, d, delete_rule, n) refl),
        )
        | inl y ↦ elim (publish_lem api.marshal_dict producer (set_status "DELETED" row) w.sent) [
          | inr (f, u) ↦ inl (rw (q, d, delete_rule, y, f, publish_then) (refl, refl, u))
          | inl (t, delivered) ↦ inr (
            old,
            row,
            q,
            d,
            rw (q, d, delete_rule, y, t, publish_then) refl,
            rw (q, d, delete_rule, y, t, publish_then) refl,
            inl (y, rw (q, d, delete_rule, y, t, publish_then) delivered),
          )
        ]
      ]
    ]
  ]
