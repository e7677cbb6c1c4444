-- ===== src/Rules/Invariant.antt =====
-- What stays true of the rules in memory of internal/handlers/rules.go, whatever is asked of them.
use velocity_engine_backend.Prelude.{
  ◌≤◌, String, ◌≡◌, refl, sym, ◌∙◌, ◌⊎◌, inl, inr, true, List, [], ◌∷◌, some, ◌==◌,
  comparable_string, ==_iff, Bool-cases, arith,
}
use velocity_engine_backend.Prelude.Maps.{
  Map, lookup, insert, remove, IsUnique, lookup-insert, lookup-remove, insert-IsUnique,
  remove-IsUnique,
}
use velocity_engine_backend.Models.{VelocityRule, RuleRecord}
use velocity_engine_backend.RuleStore.{Mysql}
use velocity_engine_backend.Kafka.{Producer}
use velocity_engine_backend.Rules.{
  Api, unbound, bound, World, Request, create, edit, promote, delete, change_status, serve,
  serve_all, create_rule, update_rule, update_rule_status, is_settable, with_status,
  with_default_name,
}
use velocity_engine_backend.Rules.Durable.{create_rule-IsCreated, update_rule-IsUpdated}
use velocity_engine_backend.Rules.Announced.{
  publish_rule-IsAnnounced, update_rule_status-IsAnnounced, delete_rule-IsDeleted,
}

-- A record under the key `k`: its own id, a version from 1 on, and one of three statuses.
pub record IsRecord (k : String) (r : RuleRecord) : Type 0 where
  pub id : r.id ≡ k
  pub version : 1 ≤ r.version
  pub status : (r.status ≡ "DRAFT") ⊎ (r.status ≡ "ACTIVE") ⊎ (r.status ≡ "PAUSED")

pub record IsValid (m : Map String RuleRecord) : Type 0 where
  pub unique : IsUnique m
  pub each : (k : String) (r : RuleRecord) → lookup k m ≡ some r → IsRecord k r

insert-IsValid :
    (k : String) (r : RuleRecord) (m : Map String RuleRecord)
    → IsRecord k r
    → IsValid m
    → IsValid (insert k r m)
insert-IsValid k r m h v = record {
  unique = insert-IsUnique k r m v.unique;
  each = λ j s e. elim (Bool-cases (k == j)) [
    | inl q ↦
        let same : r ≡ s = ground (arith, lookup-insert k j r m) in
        rw (sym ((==_iff k j).0 q), sym same) h
    | inr q ↦ v.each j s (ground (arith, lookup-insert k j r m))
  ];
}

remove-IsValid : (k : String) (m : Map String RuleRecord) → IsValid m → IsValid (remove k m)
remove-IsValid k m v = record {
  unique = remove-IsUnique k m v.unique;
  each = λ j s e. v.each j s (ground (arith, lookup-remove k j m v.unique));
}

module _ (api : Api) (mysql : Mysql) (producer : Producer) where
  -- Neither the status nor the default name touches the id.
  pub rule_id-prepared :
      (name : String) (body : VelocityRule)
      → (with_status "DRAFT" (with_default_name api name body)).rule_metadata.rule_id
        ≡ body.rule_metadata.rule_id
  unfolding with_status with_default_name
  rule_id-prepared name body = elim (Bool-cases (api.is_blank body.rule_metadata.rule_name)) [
    | inl q ↦ rw q refl
    | inr q ↦ rw q refl
  ]

  pub settable_cases :
      (status : String) → is_settable status ≡ true → (status ≡ "ACTIVE") ⊎ (status ≡ "PAUSED")
  settable_cases status h = elim (Bool-cases (status == "ACTIVE")) [
    | inl q ↦ inl ((==_iff status "ACTIVE").0 q)
    | inr q ↦ inr ((==_iff status "PAUSED").0 (ground arith))
  ]

  -- Every request, accepted or refused, keeps the rules in memory valid: no id twice, and each record
  -- under its own id, of version 1 or more, and DRAFT, ACTIVE or PAUSED.
  pub serve-IsValid :
      (request : Request) (w : World)
      → IsValid w.rules_db
      → IsValid (serve api mysql producer request w).1.rules_db
  unfolding serve create_rule update_rule update_rule_status
  serve-IsValid (create (unbound text)) w v = v
  serve-IsValid (create (bound body)) w v = elim (create_rule-IsCreated api mysql producer body w) [
    | inl (_, same, _) ↦ rw same v
    | inr (payload, _, _, _, (_, added, _, _)) ↦ rw added (
        insert-IsValid _ _ w.rules_db
          (record { id = refl; version = omega arith; status = inl refl }) v)
  ]
  serve-IsValid (edit k (unbound text)) w v = v
  serve-IsValid (edit k (bound body)) w v =
      elim (update_rule-IsUpdated api mysql producer k body w) [
        | inl (_, same, _) ↦ rw same v
        | inr (old, payload, named, found, _, _, _, (_, added, _, _)) ↦
            let h = v.each k old found in
            rw added (
              insert-IsValid _ _ w.rules_db
                (record { id = h.id ∙ sym named; version = omega arith; status = inl refl }) v)
      ]
  serve-IsValid (promote k) w v = elim (publish_rule-IsAnnounced api mysql producer k w) [
    | inl (_, same, _) ↦ rw same v
    | inr (old, row, found, _, (_, _, (payload, _, added))) ↦
        let h = v.each k old found in
        rw added (
          insert-IsValid k _ w.rules_db
            (record { id = h.id; version = h.version; status = inr (inl refl) }) v)
  ]
  serve-IsValid (delete k) w v = elim (delete_rule-IsDeleted api mysql producer k w) [
    | inl (_, same, _) ↦ rw same v
    | inr (old, row, found, _, _, gone, _) ↦ rw gone (remove-IsValid k w.rules_db v)
  ]
  serve-IsValid (change_status k (unbound text)) w v = v
  serve-IsValid (change_status k (bound status)) w v =
      elim (update_rule_status-IsAnnounced api mysql producer k status w) [
        | inl (_, same, _) ↦ rw same v
        | inr (old, row, settable, found, _, (_, _, (payload, _, added))) ↦
            let h = v.each k old found in
            rw added (
              insert-IsValid k _ w.rules_db
                (record {
                  id = h.id;
                  version = h.version;
                  status = inr (settable_cases status settable);
                })
                v)
      ]

  -- The rules in memory are valid after any sequence of requests, from a process that starts with none.
  pub serve_all-IsValid :
      (requests : List Request) (w : World)
      → IsValid w.rules_db
      → IsValid (serve_all api mysql producer requests w).rules_db
  unfolding serve_all
  serve_all-IsValid [] w v = v
  serve_all-IsValid (request ∷ requests) w v =
      serve_all-IsValid requests (serve api mysql producer request w).1 (serve-IsValid request w v)
