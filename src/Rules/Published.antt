-- ===== src/Rules/Published.antt =====
-- The published mark of a rule in internal/handlers/rules.go, which decides whether DeleteRule tells Flink.
use velocity_engine_backend.Prelude.{
  String, ◌≡◌, ◌≢◌, refl, sym, inl, inr, Bool, true, false, some, ◌==◌, comparable_string, ==_iff,
  Bool-cases, arith,
}
use velocity_engine_backend.Prelude.Maps.{
  Map, lookup, insert, IsUnique, lookup-insert, lookup-remove,
}
use velocity_engine_backend.Models.{RuleRecord}
use velocity_engine_backend.RuleStore.{Mysql}
use velocity_engine_backend.Kafka.{Producer}
use velocity_engine_backend.Rules.{
  Api, unbound, bound, World, Request, create, edit, promote, delete, change_status, serve,
  create_rule, update_rule, update_rule_status, created_record, edited_record,
}
use velocity_engine_backend.Rules.Durable.{create_rule-IsCreated, update_rule-IsUpdated}
use velocity_engine_backend.Rules.Announced.{
  publish_rule-IsAnnounced, update_rule_status-IsAnnounced, delete_rule-IsDeleted,
}

-- Every ACTIVE rule is marked as published.
abbrev pub IsMarked : Map String RuleRecord → Type 0
IsMarked m =
    (k : String) (r : RuleRecord)
    → lookup k m ≡ some r
    → r.status ≡ "ACTIVE"
    → r.is_published ≡ true

-- A request that activates by the status endpoint.
abbrev pub activates : Request → Bool
activates (change_status k (bound status)) = status == "ACTIVE"
activates _ = false

insert-IsMarked :
    (k : String) (r : RuleRecord) (m : Map String RuleRecord)
    → (r.status ≡ "ACTIVE" → r.is_published ≡ true)
    → IsMarked m
    → IsMarked (insert k r m)
insert-IsMarked k r m h v j s e active = elim (Bool-cases (k == j)) [
  | inl q ↦
      let same : r ≡ s = ground (arith, lookup-insert k j r m) in rw (sym same) (h (rw same active))
  | inr q ↦ v j s (ground (arith, lookup-insert k j r m)) active
]

draft_ne_active : ◌≢◌ {A = String} "DRAFT" "ACTIVE"
draft_ne_active h = let e : false ≡ true = (==_iff "DRAFT" "ACTIVE").1 h in ground arith

module _ (api : Api) (mysql : Mysql) (producer : Producer) where
  -- If every ACTIVE rule is marked as published and no id stands twice, every ACTIVE rule is marked
  -- after any request but a change of status to ACTIVE.
  pub serve-IsMarked :
      (request : Request) (w : World)
      → activates request ≡ false
      → IsUnique w.rules_db
      → IsMarked w.rules_db
      → IsMarked (serve api mysql producer request w).1.rules_db
  unfolding serve create_rule update_rule update_rule_status created_record edited_record
  serve-IsMarked (create (unbound text)) w a u v = v
  serve-IsMarked (create (bound body)) w a u v =
      elim (create_rule-IsCreated api mysql producer body w) [
        | inl (_, same, _) ↦ rw same v
        | inr (payload, _, _, _, (_, added, _, _)) ↦
            rw added (insert-IsMarked _ _ w.rules_db (λ e. absurd (draft_ne_active e)) v)
      ]
  serve-IsMarked (edit k (unbound text)) w a u v = v
  serve-IsMarked (edit k (bound body)) w a u v =
      elim (update_rule-IsUpdated api mysql producer k body w) [
        | inl (_, same, _) ↦ rw same v
        | inr (old, payload, _, found, _, _, _, (_, added, _, _)) ↦
            rw added (insert-IsMarked _ _ w.rules_db (λ e. absurd (draft_ne_active e)) v)
      ]
  serve-IsMarked (promote k) w a u v = elim (publish_rule-IsAnnounced api mysql producer k w) [
    | inl (_, same, _) ↦ rw same v
    | inr (old, row, found, _, (_, _, (payload, _, added))) ↦
        rw added (insert-IsMarked k _ w.rules_db (λ _. refl) v)
  ]
  serve-IsMarked (delete k) w a u v = elim (delete_rule-IsDeleted api mysql producer k w) [
    | inl (_, same, _) ↦ rw same v
    | inr (old, row, found, _, _, gone, _) ↦
        rw gone (λ j s e. v j s (ground (arith, lookup-remove k j w.rules_db u)))
  ]
  serve-IsMarked (change_status k (unbound text)) w a u v = v
  serve-IsMarked (change_status k (bound status)) w a u v =
      elim (update_rule_status-IsAnnounced api mysql producer k status w) [
        | inl (_, same, _) ↦ rw same v
        | inr (old, row, settable, found, _, (_, _, (payload, _, added))) ↦ rw added (
            insert-IsMarked k _ w.rules_db (λ e. absurd (ground (arith, ==_iff status "ACTIVE"))) v)
      ]
