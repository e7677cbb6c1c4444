-- ===== src/Rules/Durable.antt =====
-- CreateRule and UpdateRule of internal/handlers/rules.go: MySQL first, memory second.
use velocity_engine_backend.Prelude.{
  ℕ, ◌+◌, String, ◌≡◌, refl, sym, ◌⊎◌, inl, inr, Bool, true, false, List, ◌++◌, none, some,
  if◌then◌else◌, ◌==◌, comparable_string, arith, ==_iff, Bool-cases, Option-cases,
}
use velocity_engine_backend.Prelude.Maps.{lookup, insert}
use velocity_engine_backend.Models.{VelocityRule, RuleRecord}
use velocity_engine_backend.RuleStore.{Mysql, Stmt, Outcome, ok, err}
use velocity_engine_backend.RuleStore.Save.{succeeded, commits}
use velocity_engine_backend.RuleStore.Written.{IsVersion, save-IsVersion}
use velocity_engine_backend.Kafka.{Producer}
use velocity_engine_backend.Rules.{
  Api, bound, Reply, refused, one_rule, all_rules, success, World, with_status, with_default_name,
  create_problem, update_problem, created_record, edited_record, store_saved, create_draft,
  create_rule, is_editable, update_draft, update_rule,
}

-- A status of 200
abbrev pub is_success : Reply → Bool
is_success (refused _ _) = false
is_success (one_rule _) = true
is_success (all_rules _) = true
is_success (success _) = true

-- An error that leaves the rules in memory and Kafka alone.
abbrev pub IsRefused : World → Reply × World → Type 0
IsRefused w result =
    (is_success result.0 ≡ false) × (result.1.rules_db ≡ w.rules_db) × (result.1.sent ≡ w.sent)

-- The rule of a body, as a DRAFT, with a name in place of a blank one.
abbrev pub draft_of : Api → String → VelocityRule → VelocityRule
draft_of api name body = record body {
  rule_metadata = record body.rule_metadata {
    rule_name =
        if api.is_blank body.rule_metadata.rule_name then name else body.rule_metadata.rule_name;
    status = "DRAFT";
  };
}

with_status-draft_of :
    (api : Api) (name : String) (body : VelocityRule)
    → with_status "DRAFT" (with_default_name api name body) ≡ draft_of api name body
unfolding with_status with_default_name
with_status-draft_of api name body = elim (Bool-cases (api.is_blank body.rule_metadata.rule_name)) [
  | inl q ↦ rw q refl
  | inr q ↦ rw q refl
]

-- The checks of a body do not read its name.
create_problem-named :
    (api : Api) (name : String) (body : VelocityRule)
    → create_problem api (with_default_name api name body) ≡ create_problem api body
unfolding create_problem with_default_name
create_problem-named api name body = elim (Bool-cases (api.is_blank body.rule_metadata.rule_name)) [
  | inl q ↦ rw q refl
  | inr q ↦ rw q refl
]

update_problem-named :
    (api : Api) (name : String) (body : VelocityRule)
    → update_problem api (with_default_name api name body) ≡ update_problem api body
unfolding update_problem with_default_name
update_problem-named api name body = elim (Bool-cases (api.is_blank body.rule_metadata.rule_name)) [
  | inl q ↦ rw q refl
  | inr q ↦ rw q refl
]

module _ (api : Api) (mysql : Mysql) (producer : Producer) where
  -- The new statements begin with the transaction of a version, MySQL confirmed their commit, and the
  -- record is in the map.
  abbrev pub IsSaved : VelocityRule → ℕ → RuleRecord → World → Reply × World → Type 0
  IsSaved rule version rule_record w result =
      (result.0 ≡ one_rule rule)
      × (result.1.rules_db ≡ insert rule.rule_metadata.rule_id rule_record w.rules_db)
      × (result.1.sent ≡ w.sent)
      × ((issued : List Stmt) × (result.1.statements ≡ w.statements ++ issued)
          × (commits mysql w.statements issued ≡ true)
          × IsVersion rule version issued)

  store_by :
      (rule : VelocityRule) (version : ℕ) (rule_record : RuleRecord) (detail : String) (w : World)
      (result : Outcome (Unit {0}) × List Stmt)
      → ((issued : List Stmt) × (result.1 ≡ w.statements ++ issued)
          × (succeeded result.0 ≡ commits mysql w.statements issued)
          × (commits mysql w.statements issued ≡ true → IsVersion rule version issued))
      → IsRefused w (store_saved api mysql producer rule rule_record detail w result)
        ⊎ IsSaved rule version rule_record w
            (store_saved api mysql producer rule rule_record detail w result)
  unfolding store_saved
  store_by rule version rule_record detail w (ok _, log) (issued, e, c, written) =
      inr (refl, refl, refl, (issued, e, sym c, written (sym c)))
  store_by rule version rule_record detail w (err, log) saved = inl (refl, refl, refl)

  -- What CreateRule stores for a body: a DRAFT of version 1 under a fresh id, its body valid.
  abbrev pub IsCreated : VelocityRule → World → Reply × World → Type 0
  IsCreated body w result =
      let rule = draft_of api body.rule_metadata.rule_id body in
      (payload : String) × (lookup body.rule_metadata.rule_id w.rules_db ≡ none)
      × (create_problem api body ≡ none)
      × (api.codec.marshal_rule rule ≡ some payload)
      × IsSaved rule 1
          (record {
            id = body.rule_metadata.rule_id;
            name = rule.rule_metadata.rule_name;
            status = "DRAFT";
            rule_payload = payload;
            is_published = false;
            version = 1;
          })
          w result

  create_draft_lem :
      (rule : VelocityRule) (w : World)
      → IsRefused w (create_draft api mysql producer rule w)
        ⊎ ((payload : String) × (api.codec.marshal_rule rule ≡ some payload)
            × IsSaved rule 1
                (record {
                  id = rule.rule_metadata.rule_id;
                  name = rule.rule_metadata.rule_name;
                  status = "DRAFT";
                  rule_payload = payload;
                  is_published = false;
                  version = 1;
                })
                w
                (create_draft api mysql producer rule w))
  unfolding create_draft created_record
  create_draft_lem rule w = elim (Option-cases (api.codec.marshal_rule rule)) [
    | inl q ↦ rw (q, create_draft) (inl (refl, refl, refl))
    | inr (payload, q) ↦
        rw (q, create_draft)
          (elim (store_by rule 1 (created_record rule payload)
            "Failed to persist rule — please try again" w _
            (save-IsVersion mysql api.codec rule 1 w.statements)) [
              | inl r ↦ inl r
              | inr s ↦ inr (payload, refl, s)
            ])
  ]

  -- CreateRule either refuses and leaves the rules in memory as they were, or answers with the rule.
  -- It answers with the rule only where the id was free, the body passed every check, and MySQL
  -- confirmed the commit of version 1 in this request; the map then gains the unpublished DRAFT of
  -- version 1, and Kafka nothing.
  pub create_rule-IsCreated :
      (body : VelocityRule) (w : World)
      → IsRefused w (create_rule api mysql producer (bound body) w)
        ⊎ IsCreated body w (create_rule api mysql producer (bound body) w)
  unfolding create_rule
  create_rule-IsCreated body w =
      let rule_id = body.rule_metadata.rule_id in
      elim (Option-cases (lookup rule_id w.rules_db)) [
        | inr (old, q) ↦ inl (rw (q, create_rule) (refl, refl, refl))
        | inl q ↦ elim (Option-cases (create_problem api body)) [
          | inr (detail, p) ↦
              inl (rw (q, create_rule, create_problem-named api rule_id body, p) (refl, refl, refl))
          | inl p ↦ elim (create_draft_lem (draft_of api rule_id body) w) [
            | inl r ↦ inl (
                rw
                  (
                    q,
                    create_rule,
                    create_problem-named api rule_id body,
                    p,
                    with_status-draft_of api rule_id body,
                  )
                  r)
            | inr (payload, m, s) ↦ inr (
              payload,
              q,
              p,
              m,
              rw
                  (
                    q,
                    create_rule,
                    create_problem-named api rule_id body,
                    p,
                    with_status-draft_of api rule_id body,
                  )
                  s,
            )
          ]
        ]
      ]

  -- What UpdateRule stores: the next version of an editable rule, a DRAFT again, under its own id.
  abbrev pub IsUpdated : String → VelocityRule → World → Reply × World → Type 0
  IsUpdated rule_id body w result =
      let rule = draft_of api rule_id body in
      (old : RuleRecord) × (payload : String) × (body.rule_metadata.rule_id ≡ rule_id)
      × (lookup rule_id w.rules_db ≡ some old)
      × ((old.status ≡ "DRAFT") ⊎ (old.status ≡ "PAUSED"))
      × (update_problem api body ≡ none)
      × (api.codec.marshal_rule rule ≡ some payload)
      × IsSaved rule (old.version + 1)
          (record {
            id = old.id;
            name = rule.rule_metadata.rule_name;
            status = "DRAFT";
            rule_payload = payload;
            is_published = old.is_published;
            version = old.version + 1;
          })
          w result

  editable_status :
      (old : RuleRecord) → is_editable old ≡ true → (old.status ≡ "DRAFT") ⊎ (old.status ≡ "PAUSED")
  editable_status old h = elim (Bool-cases (old.status == "DRAFT")) [
    | inl q ↦ inl ((==_iff old.status "DRAFT").0 q)
    | inr q ↦ inr ((==_iff old.status "PAUSED").0 (ground (arith, h, q)))
  ]

  update_draft_lem :
      (old : RuleRecord) (rule : VelocityRule) (w : World)
      → IsRefused w (update_draft api mysql producer old rule w)
        ⊎ ((payload : String) × (api.codec.marshal_rule rule ≡ some payload)
            × IsSaved rule
                (old.version + 1)
                (record {
                  id = old.id;
                  name = rule.rule_metadata.rule_name;
                  status = "DRAFT";
                  rule_payload = payload;
                  is_published = old.is_published;
                  version = old.version + 1;
                })
                w
                (update_draft api mysql producer old rule w))
  unfolding update_draft edited_record
  update_draft_lem old rule w = elim (Option-cases (api.codec.marshal_rule rule)) [
    | inl q ↦ rw (q, update_draft) (inl (refl, refl, refl))
    | inr (payload, q) ↦
        rw (q, update_draft)
          (elim (store_by rule (old.version + 1) (edited_record old rule payload)
            "Failed to persist rule update — please try again" w _
            (save-IsVersion mysql api.codec rule (old.version + 1) w.statements)) [
              | inl r ↦ inl r
              | inr s ↦ inr (payload, refl, s)
            ])
  ]

  -- UpdateRule either refuses and leaves the rules in memory as they were, or answers with the rule.
  -- It answers with the rule only where the body names the rule of the URL, that rule is a DRAFT or
  -- PAUSED, and MySQL confirmed the commit of the version after the present one; the rule is then a
  -- DRAFT of that version, still published if it was.
  pub update_rule-IsUpdated :
      (rule_id : String) (body : VelocityRule) (w : World)
      → IsRefused w (update_rule api mysql producer rule_id (bound body) w)
        ⊎ IsUpdated rule_id body w (update_rule api mysql producer rule_id (bound body) w)
  unfolding update_rule
  update_rule-IsUpdated rule_id body w =
      let checks = update_problem-named api rule_id body in
      let draft = with_status-draft_of api rule_id body in
      elim (Bool-cases (body.rule_metadata.rule_id == rule_id)) [
        | inr n ↦ inl (rw (n, update_rule) (refl, refl, refl))
        | inl n ↦ elim (Option-cases (lookup rule_id w.rules_db)) [
          | inl q ↦ inl (rw (n, q, update_rule) (refl, refl, refl))
          | inr (old, q) ↦ elim (Bool-cases (is_editable old)) [
            | inr d ↦ inl (rw (n, q, d, update_rule) (refl, refl, refl))
            | inl d ↦ elim (Option-cases (update_problem api body)) [
              | inr (detail, p) ↦ inl (rw (n, q, d, update_rule, checks, p) (refl, refl, refl))
              | inl p ↦ elim (update_draft_lem old (draft_of api rule_id body) w) [
                | inl r ↦ inl (rw (n, q, d, update_rule, checks, p, draft) r)
                | inr (payload, m, s) ↦ inr (
                  old,
                  payload,
                  (==_iff body.rule_metadata.rule_id rule_id).0 n,
                  q,
                  editable_status old d,
                  p,
                  m,
                  rw (n, q, d, update_rule, checks, p, draft) s,
                )
              ]
            ]
          ]
        ]
      ]
