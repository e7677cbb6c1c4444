-- ===== src/Rules/Concurrent/Rest.antt =====
-- What is left to do of a request of internal/handlers/rules.go when no other comes between its steps.
use velocity_engine_backend.Prelude.{
  ℕ, zero, suc, ◌+◌, String, ◌≡◌, refl, ap, ◌∙◌, inl, inr, true, List, none, some,
  comparable_string, Bool-cases, Option-cases, get_elem?,
}
use velocity_engine_backend.Prelude.Maps.{lookup, insert}
use velocity_engine_backend.Json.{Row}
use velocity_engine_backend.Models.{VelocityRule, RuleRecord}
use velocity_engine_backend.RuleStore.{
  Mysql, Stmt, Outcome, ok, err, save_new_rule_version, update_rule_status_in_place,
}
use velocity_engine_backend.Kafka.{Producer, Sent, publish, publish_lem}
use velocity_engine_backend.Rules.{
  Api, Reply, refused, one_rule, World, created_record, edited_record, create_draft, store_saved,
  update_draft, publish_then, store_published, forget,
}
use velocity_engine_backend.Rules.Concurrent.{
  Shared, Change, Task, announcing, tombstoning, deactivating, saving_new, storing_new, saving_edit,
  storing_edit, answered, update_at, changed, revised, drafted, send, saved, marshalled, advance,
}
use velocity_engine_backend.Rules.Concurrent.Sound.{IsHeld}
use velocity_engine_backend.Rules.Concurrent.View.{
  view, world_of, linked, IsLinked, view-insert, view-remove, view-update_at,
}

module _ (api : Api) (mysql : Mysql) (producer : Producer) where
  -- This many steps of one request
  unfoldable pub finish : ℕ → Task → Shared → Task × Shared
  unfolding advance
  finish zero task s = (task, s)
  finish (suc n) task s =
      finish n (advance api mysql producer task s).0 (advance api mysql producer task s).1

  -- The request has answered, and the memory reads as this world.
  abbrev pub IsServed : Task × Shared → Reply × World → Type 0
  IsServed (task, s) (reply, w) = (task ≡ answered reply) × (world_of s ≡ w)

  pub links : (s : Shared) → IsHeld api mysql producer s → IsLinked s.heap s.table
  links s v = linked s.heap s.table v.unique v.owned

  -- A write through a pointer, in the memory with other statements and messages
  written :
      (s : Shared) (log : List Stmt) (messages : List Sent) (k : String) (address : ℕ)
      (f : RuleRecord → RuleRecord) (old updated : RuleRecord)
      → lookup k s.table ≡ some address
      → get_elem? s.heap address ≡ some old
      → f old ≡ updated
      → IsHeld api mysql producer s
      → world_of (record {
        heap = update_at address f s.heap;
        table = s.table;
        statements = log;
        sent = messages;
      })
        ≡ record {
          rules_db = insert k updated (view s.table s.heap);
          statements = log;
          sent = messages;
        }
  unfolding world_of
  written s log messages k address f old updated there held same v =
      ap (λ m. record { rules_db = m; statements = log; sent = messages })
        (view-update_at k s.table s.heap address f old there held v.unique (links s v)
          ∙ ap (λ r. insert k r (view s.table s.heap)) same)

  pub announcing-IsServed :
      (c : Change) (rule_dict : Row) (old updated : RuleRecord) (s : Shared)
      → lookup c.rule_id s.table ≡ some c.address
      → get_elem? s.heap c.address ≡ some old
      → ((payload : String) → changed c payload old ≡ record updated { rule_payload = payload })
      → IsHeld api mysql producer s
      → IsServed (finish 3 (announcing c rule_dict) s) (
          publish_then api mysql producer rule_dict
            (world_of s)
            (refused 500 c.refusal)
            (store_published api mysql producer c.rule_id updated c.status rule_dict c.text))
  unfolding finish advance send marshalled publish_then store_published world_of
  announcing-IsServed c rule_dict old updated s there held same v =
      elim (publish_lem api.marshal_dict producer rule_dict s.sent) [
        | inr (f, lost) ↦ rw (publish_then, send, f) (refl, refl)
        | inl (t, (key, content, k, m, e)) ↦
            rw (publish_then, send, t, marshalled, store_published, m)
              (
                refl,
                written s _ _ c.rule_id c.address (changed c content) old _ there held
                    (same content) v,
              )
      ]

  pub removing-IsServed :
      (k : String) (s : Shared) (messages : List Sent)
      → IsHeld api mysql producer s
      → IsServed
          (finish 2 (deactivating k) (record s { sent = messages }))
          (forget api mysql producer k (record (world_of s) { sent = messages }))
  unfolding finish advance forget world_of
  removing-IsServed k s messages v = (
    refl,
    ap
        (λ m. record {
          rules_db = m;
          statements = (update_rule_status_in_place mysql k "DELETED" true s.statements).1;
          sent = messages;
        })
        (view-remove k s.table s.heap (links s v)),
  )

  pub tombstoning-IsServed :
      (k : String) (rule_dict : Row) (s : Shared)
      → IsHeld api mysql producer s
      → IsServed (finish 3 (tombstoning k rule_dict) s) (
          publish_then api mysql producer rule_dict
            (world_of s)
            (refused 500 "Failed to publish DELETED tombstone to Kafka. Safety abort.")
            (forget api mysql producer k))
  unfolding finish advance send publish_then world_of
  tombstoning-IsServed k rule_dict s v =
      elim (Bool-cases (publish api.marshal_dict producer rule_dict s.sent).0) [
        | inr f ↦ rw (publish_then, send, f) (refl, refl)
        | inl t ↦
            rw (publish_then, send, t)
              (removing-IsServed k s (publish api.marshal_dict producer rule_dict s.sent).1 v)
      ]

  -- The end of CreateRule and of UpdateRule, after the transaction
  saved-IsServed :
      (result : Outcome (Unit {0}) × List Stmt) (s : Shared) (next : Task) (rule : VelocityRule)
      (updated : RuleRecord) (detail : String)
      → ((log : List Stmt)
          → IsServed (finish 2 next (record s { statements = log })) (
            one_rule rule,
            record {
              rules_db = insert rule.rule_metadata.rule_id updated (view s.table s.heap);
              statements = log;
              sent = s.sent;
            },
          ))
      → IsServed
          (finish 2
            (saved api mysql producer result s next detail).0
            (saved api mysql producer result s next detail).1)
          (store_saved api mysql producer rule updated detail (world_of s) result)
  unfolding finish advance saved store_saved world_of
  saved-IsServed (ok _, log) s next rule updated detail h = h log
  saved-IsServed (err, log) s next rule updated detail h = (refl, refl)

  pub saving_edit-IsServed :
      (address : ℕ) (old : RuleRecord) (rule : VelocityRule) (s : Shared)
      → lookup rule.rule_metadata.rule_id s.table ≡ some address
      → get_elem? s.heap address ≡ some old
      → IsHeld api mysql producer s
      → IsServed
          (finish 3 (drafted api mysql producer (saving_edit address (old.version + 1)) rule) s)
          (update_draft api mysql producer old rule (world_of s))
  unfolding finish advance drafted update_draft edited_record revised world_of
  saving_edit-IsServed address old rule s there held v =
      elim (Option-cases (api.codec.marshal_rule rule)) [
        | inl q ↦ rw (drafted, update_draft, q) (refl, refl)
        | inr (payload, q) ↦
            rw (drafted, update_draft, q)
              (saved-IsServed
                (save_new_rule_version mysql api.codec rule (old.version + 1) s.statements) s
                (storing_edit address (old.version + 1) rule payload) rule
                (edited_record old rule payload) "Failed to persist rule update — please try again"
                (λ log. (
                  refl,
                  written s log s.sent rule.rule_metadata.rule_id address
                      (revised (old.version + 1) rule payload) old (edited_record old rule payload)
                      there held refl v,
                )))
      ]

  pub saving_new-IsServed :
      (rule : VelocityRule) (s : Shared)
      → lookup rule.rule_metadata.rule_id s.table ≡ none
      → IsHeld api mysql producer s
      → IsServed
          (finish 3 (drafted api mysql producer saving_new rule) s)
          (create_draft api mysql producer rule (world_of s))
  unfolding finish advance drafted create_draft created_record world_of
  saving_new-IsServed rule s absent v = elim (Option-cases (api.codec.marshal_rule rule)) [
    | inl q ↦ rw (drafted, create_draft, q) (refl, refl)
    | inr (payload, q) ↦
        rw (drafted, create_draft, q)
          (saved-IsServed (save_new_rule_version mysql api.codec rule 1 s.statements) s
            (storing_new rule payload) rule (created_record rule payload)
            "Failed to persist rule — please try again"
            (λ log. (
              refl,
              ap (λ m. record { rules_db = m; statements = log; sent = s.sent })
                  (view-insert rule.rule_metadata.rule_id s.table s.heap
                    (created_record rule payload) absent (links s v)),
            )))
  ]
