-- ===== src/Rules/Concurrent/Races.antt =====
-- Two orders of steps in internal/handlers/rules.go that leave memory, MySQL and Flink at odds.
use velocity_engine_backend.Prelude.{
  ℕ, ◌+◌, String, ◌≡◌, refl, ap, ◌∙◌, true, false, List, [], ◌∷◌, none, some, ◌==◌,
  comparable_string, ==_self, get_elem?, set, All, Bool, inl, inr, refl, arith,
}
use velocity_engine_backend.Prelude.Maps.{lookup, lookup-remove, IsUnique}
use velocity_engine_backend.Json.{Row}
use velocity_engine_backend.Models.{VelocityRule, RuleRecord}
use velocity_engine_backend.RuleStore.{
  Mysql, Stmt, ok, save_new_rule_version, update_rule_status_in_place,
}
use velocity_engine_backend.Kafka.{Producer, publish, publish_lem, IsDelivered}
use velocity_engine_backend.Rules.{
  Api, bound, one_rule, success, with_status, with_default_name, update_problem, set_status,
  dict_of, is_editable, edit, promote, delete,
}
use velocity_engine_backend.Rules.Durable.{is_success}
use velocity_engine_backend.Rules.Concurrent.{
  Shared, Change, Task, arrived, announcing, persisting, saving_edit, storing_edit, answered,
  update_at, find, changed, revised, publication, receive, drafted, send, saved, marshalled,
  advance, turn, run,
}
use velocity_engine_backend.Rules.Concurrent.View.{get_elem?-update_at_self}

abbrev pub has_succeeded : Task → Bool
has_succeeded (answered reply) = is_success reply
has_succeeded _ = false

module _ (api : Api) (mysql : Mysql) (producer : Producer) where
  -- DeleteRule reads the map, PublishRule runs from start to end, and DeleteRule goes on.
  abbrev pub publish_during_delete : String → Shared → List Task × Shared
  publish_during_delete k s =
      run api mysql producer (0 ∷ 1 ∷ 1 ∷ 1 ∷ 1 ∷ 0 ∷ 0 ∷ [])
        (arrived (delete k) ∷ arrived (promote k) ∷ [], s)

  -- If a rule that is not marked as published is published while DeleteRule has read it and not yet
  -- removed it, and Kafka confirms the message, both requests succeed, the map no longer holds the rule,
  -- and the one message to Kafka is the confirmed ACTIVE one: nothing tells Flink to stop.
  pub publish_during_delete-undeleted :
      (k : String) (address : ℕ) (old : RuleRecord) (row : Row) (s : Shared)
      → IsUnique s.table
      → find k s ≡ some (address, old)
      → old.is_published ≡ false
      → dict_of api old.rule_payload ≡ some row
      → (publish api.marshal_dict producer (set_status "ACTIVE" row) s.sent).0 ≡ true
      → All (λ task. has_succeeded task ≡ true) (publish_during_delete k s).0
        × (lookup k (publish_during_delete k s).1.table ≡ none)
        × IsDelivered api.marshal_dict producer
            (set_status "ACTIVE" row)
            s.sent
            (publish_during_delete k s).1.sent
  unfolding run turn advance receive send marshalled
  publish_during_delete-undeleted k address old row s u found unpublished decoded t =
      elim (publish_lem api.marshal_dict producer (set_status "ACTIVE" row) s.sent) [
        | inr (f, _) ↦ absurd (ground arith)
        | inl (_, (key, content, d, m, e)) ↦
            rw (receive, found, decoded, unpublished, send, t, marshalled, m)
              (
                (refl, (refl, tt)),
                ground (arith, lookup-remove k k s.table u, ==_self k),
                (key, content, d, refl, e),
              )
      ]

  turn-advance :
      (i : ℕ) (tasks : List Task) (task next : Task) (s after : Shared)
      → get_elem? tasks i ≡ some task
      → advance api mysql producer task s ≡ (next, after)
      → turn api mysql producer i (tasks, s) ≡ (set tasks i next, after)
  unfolding turn
  turn-advance i tasks task next s after e a = rw (turn, e, a) refl

  advance-announcing :
      (c : Change) (rule_dict : Row) (payload : String) (s : Shared)
      → (publish api.marshal_dict producer rule_dict s.sent).0 ≡ true
      → api.marshal_dict rule_dict ≡ some payload
      → advance api mysql producer (announcing c rule_dict) s ≡ (
        persisting c payload,
        record s { sent = (publish api.marshal_dict producer rule_dict s.sent).1 },
      )
  unfolding advance send marshalled
  advance-announcing c rule_dict payload s t m = rw (send, t, marshalled, m) refl

  advance-saving_edit :
      (address version : ℕ) (rule : VelocityRule) (text : String) (log : List Stmt) (s : Shared)
      → save_new_rule_version mysql api.codec rule version s.statements ≡ (ok tt, log)
      → advance api mysql producer (saving_edit address version rule text) s
        ≡ (storing_edit address version rule text, record s { statements = log })
  unfolding advance saved
  advance-saving_edit address version rule text log s e = rw (e, saved) refl

  -- PublishRule reads the record, UpdateRule runs from start to end, and PublishRule goes on.
  abbrev pub edit_during_publish : String → VelocityRule → Shared → List Task × Shared
  edit_during_publish k body s =
      run api mysql producer (0 ∷ 1 ∷ 1 ∷ 1 ∷ 0 ∷ 0 ∷ 0 ∷ [])
        (arrived (promote k) ∷ arrived (edit k (bound body)) ∷ [], s)

  received_promote :
      (k : String) (address : ℕ) (old : RuleRecord) (row : Row) (s : Shared)
      → find k s ≡ some (address, old)
      → dict_of api old.rule_payload ≡ some row
      → receive api mysql producer (promote k) s
        ≡ announcing (publication k address) (set_status "ACTIVE" row)
  unfolding receive
  received_promote k address old row s found decoded = rw (receive, found, decoded) refl

  received_edit :
      (k : String) (address : ℕ) (old : RuleRecord) (body : VelocityRule) (text : String)
      (s : Shared)
      → find k s ≡ some (address, old)
      → is_editable old ≡ true
      → (body.rule_metadata.rule_id == k) ≡ true
      → update_problem api (with_default_name api k body) ≡ none
      → api.codec.marshal_rule (with_status "DRAFT" (with_default_name api k body)) ≡ some text
      → receive api mysql producer (edit k (bound body)) s
        ≡ saving_edit address
            (old.version + 1)
            (with_status "DRAFT" (with_default_name api k body))
            text
  unfolding receive drafted
  received_edit k address old body text s found editable named valid written =
      rw (receive, found, named, editable, valid, drafted, written) refl

  -- The requests and the memory after that order of steps
  edit_during_publish_lem :
      (k : String) (address : ℕ) (old : RuleRecord) (row : Row) (body : VelocityRule)
      (text payload : String) (log : List Stmt) (s : Shared)
      → find k s ≡ some (address, old)
      → is_editable old ≡ true
      → dict_of api old.rule_payload ≡ some row
      → (body.rule_metadata.rule_id == k) ≡ true
      → update_problem api (with_default_name api k body) ≡ none
      → api.codec.marshal_rule (with_status "DRAFT" (with_default_name api k body)) ≡ some text
      → save_new_rule_version mysql api.codec
          (with_status "DRAFT" (with_default_name api k body))
          (old.version + 1)
          s.statements
        ≡ (ok tt, log)
      → (publish api.marshal_dict producer (set_status "ACTIVE" row) s.sent).0 ≡ true
      → api.marshal_dict (set_status "ACTIVE" row) ≡ some payload
      → edit_during_publish k body s ≡ (
        answered (success (publication k address).text)
            ∷ answered (one_rule (with_status "DRAFT" (with_default_name api k body)))
            ∷ [],
        record {
          heap = update_at address (changed (publication k address) payload) (
              update_at address
                (revised
                  (old.version + 1)
                  (with_status "DRAFT" (with_default_name api k body))
                  text)
                s.heap);
          table = s.table;
          statements = (update_rule_status_in_place mysql k "ACTIVE" false log).1;
          sent = (publish api.marshal_dict producer (set_status "ACTIVE" row) s.sent).1;
        },
      )
  unfolding run turn advance
  edit_during_publish_lem k address old row body text payload log s found editable decoded named
        valid written_text stored t m =
      let rule = with_status "DRAFT" (with_default_name api k body) in
      let c = publication k address in
      let saving = saving_edit address (old.version + 1) rule text in
      let edited = record s {
        heap = update_at address (revised (old.version + 1) rule text) s.heap;
        statements = log;
      } in
      let read =
        turn-advance 0 (arrived (promote k) ∷ arrived (edit k (bound body)) ∷ []) _
          (announcing c (set_status "ACTIVE" row)) s s refl
          (ap (λ t. (t, s)) (received_promote k address old row s found decoded)) in
      let read_too =
        turn-advance 1 (announcing c (set_status "ACTIVE" row) ∷ arrived (edit k (bound body)) ∷ [])
          _ saving s s refl
          (ap (λ t. (t, s))
            (received_edit k address old body text s found editable named valid written_text)) in
      let save =
        turn-advance 1 (announcing c (set_status "ACTIVE" row) ∷ saving ∷ []) _ _ s _ refl
          (advance-saving_edit address (old.version + 1) rule text log s stored) in
      let sent =
        turn-advance 0 (announcing c (set_status "ACTIVE" row) ∷ answered (one_rule rule) ∷ []) _ _
          edited _ refl (advance-announcing c (set_status "ACTIVE" row) payload edited t m) in
      ap (run api mysql producer (1 ∷ 1 ∷ 1 ∷ 0 ∷ 0 ∷ 0 ∷ [])) read
      ∙ ap (run api mysql producer (1 ∷ 1 ∷ 0 ∷ 0 ∷ 0 ∷ [])) read_too
      ∙ ap (run api mysql producer (1 ∷ 0 ∷ 0 ∷ 0 ∷ [])) save
      ∙ ap (run api mysql producer (0 ∷ 0 ∷ [])) sent

  -- If a rule that may be edited is edited while PublishRule has read it and not yet sent it, both
  -- requests succeed, where the edit is valid and saved and Kafka confirms the message: the message and
  -- the ACTIVE record then hold the rule as it was before the edit, under the edit's version.
  pub edit_during_publish-lost :
      (k : String) (address : ℕ) (old : RuleRecord) (row : Row) (body : VelocityRule)
      (text : String) (log : List Stmt) (s : Shared)
      → find k s ≡ some (address, old)
      → get_elem? s.heap address ≡ some old
      → is_editable old ≡ true
      → dict_of api old.rule_payload ≡ some row
      → (body.rule_metadata.rule_id == k) ≡ true
      → update_problem api (with_default_name api k body) ≡ none
      → api.codec.marshal_rule (with_status "DRAFT" (with_default_name api k body)) ≡ some text
      → save_new_rule_version mysql api.codec
          (with_status "DRAFT" (with_default_name api k body))
          (old.version + 1)
          s.statements
        ≡ (ok tt, log)
      → (publish api.marshal_dict producer (set_status "ACTIVE" row) s.sent).0 ≡ true
      → All (λ task. has_succeeded task ≡ true) (edit_during_publish k body s).0
        × ((payload : String) × (after : RuleRecord) × (api.marshal_dict (set_status "ACTIVE" row)
              ≡ some payload)
            × (get_elem? (edit_during_publish k body s).1.heap address ≡ some after)
            × (after.rule_payload ≡ payload)
            × (after.status ≡ "ACTIVE")
            × (after.version ≡ old.version + 1))
        × IsDelivered api.marshal_dict producer
            (set_status "ACTIVE" row)
            s.sent
            (edit_during_publish k body s).1.sent
  unfolding changed revised
  edit_during_publish-lost k address old row body text log s found held editable decoded named valid
        written_text stored t =
      elim (publish_lem api.marshal_dict producer (set_status "ACTIVE" row) s.sent) [
        | inr (f, _) ↦ absurd (ground arith)
        | inl (_, (key, content, d, m, e)) ↦
            let edited =
              get_elem?-update_at_self s.heap address
                (revised (old.version + 1) (with_status "DRAFT" (with_default_name api k body))
                  text)
                old held in
            let published =
              get_elem?-update_at_self _ address (changed (publication k address) content) _
                edited in
            rw
              (edit_during_publish_lem k address old row body text content log s found editable
                decoded named valid written_text stored t m)
              (
                (refl, (refl, tt)),
                (content, _, m, published, refl, refl, refl),
                (key, content, d, m, e),
              )
      ]
