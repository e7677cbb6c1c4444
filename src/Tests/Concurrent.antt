-- ===== src/Tests/Concurrent.antt =====
-- Runs of overlapping requests on sample rules: the handlers of internal/handlers/rules.go.
use velocity_engine_backend.Prelude.{
  ℕ, zero, suc, String, ◌≡◌, refl, inl, inr, true, List, [], ◌∷◌, some, none, All, ◌==◌,
  comparable_string, ==_iff, Bool-cases, get_elem?, arith,
}
use velocity_engine_backend.Prelude.Maps.{lookup}
use velocity_engine_backend.Models.{VelocityRule, RuleRecord}
use velocity_engine_backend.Rules.{
  bound, promote, delete, change_status, serve, set_status, dict_of, with_status, with_default_name,
  update_problem,
}
use velocity_engine_backend.RuleStore.{Stmt, save_new_rule_version}
use velocity_engine_backend.Kafka.{publish, IsDelivered}
use velocity_engine_backend.Rules.Concurrent.{Task, arrived, answered, find, run}
use velocity_engine_backend.Rules.Concurrent.Sound.{IsOwner, IsHeld}
use velocity_engine_backend.Rules.Concurrent.Orders.{IsSound, run-IsSound}
use velocity_engine_backend.Rules.Concurrent.View.{world_of}
use velocity_engine_backend.Rules.Concurrent.Alone.{run-serve}
use velocity_engine_backend.Rules.Concurrent.Races.{
  has_succeeded, publish_during_delete, publish_during_delete-undeleted, edit_during_publish,
  edit_during_publish-lost,
}
use velocity_engine_backend.Samples.{
  sample_api, sample_mysql, sample_producer, sample_record, sample_rule, sample_dict, sample_shared,
  sample_codec,
}

abbrev named_rule : VelocityRule
named_rule = with_status "DRAFT" (with_default_name sample_api "r1" sample_rule)

-- Three requests for the sample rule
abbrev overlapping : List Task
overlapping =
    arrived (delete "r1")
    ∷ arrived (promote "r1")
    ∷ arrived (change_status "r1" (bound "PAUSED"))
    ∷ []

abbrev order : List ℕ
order = 2 ∷ 1 ∷ 2 ∷ 1 ∷ 0 ∷ 1 ∷ 2 ∷ 1 ∷ 2 ∷ 0 ∷ []

sample_owned :
    (k : String) (address : ℕ)
    → lookup k sample_shared.table ≡ some address
    → IsOwner sample_shared.heap address k
unfolding lookup
sample_owned k zero e = elim (Bool-cases ("r1" == k)) [
  | inl q ↦ (sample_record, refl, (==_iff "r1" k).0 q)
  | inr q ↦ absurd (ground arith)
]
sample_owned k (suc address) e = absurd (ground arith)

sample_shared-IsHeld : IsHeld sample_api sample_mysql sample_producer sample_shared
unfolding lookup
sample_shared-IsHeld = record {
  unique = (refl, tt);
  owned = sample_owned;
  backed = ((omega arith, inl refl), tt);
}

-- PAUSED was sent before ACTIVE and stored after it.
overlapping_result :
    (run sample_api sample_mysql sample_producer order (overlapping, sample_shared)).1.heap
    ≡ record sample_record { status = "PAUSED"; rule_payload = "dict"; is_published = true } ∷ []
unfolding run
overlapping_result = refl

run-IsSound_example :
    IsSound sample_api sample_mysql sample_producer
      (run sample_api sample_mysql sample_producer order (overlapping, sample_shared))
run-IsSound_example =
    run-IsSound sample_api sample_mysql sample_producer order (overlapping, sample_shared)
      (sample_shared-IsHeld, (tt, (tt, (tt, tt))))

run-serve_example :
    ((run sample_api sample_mysql sample_producer
        (0 ∷ 0 ∷ 0 ∷ 0 ∷ [])
        (arrived (promote "r1") ∷ [], sample_shared)).0
      ≡ answered
          (serve sample_api sample_mysql sample_producer (promote "r1") (world_of sample_shared)).0
        ∷ [])
    × (world_of
          (run sample_api sample_mysql sample_producer
            (0 ∷ 0 ∷ 0 ∷ 0 ∷ [])
            (arrived (promote "r1") ∷ [], sample_shared)).1
        ≡ (serve sample_api sample_mysql sample_producer (promote "r1") (world_of sample_shared)).1)
run-serve_example =
    run-serve sample_api sample_mysql sample_producer (promote "r1") sample_shared
      sample_shared-IsHeld

publish_during_delete-undeleted_example :
    All
      (λ task. has_succeeded task ≡ true)
      (publish_during_delete sample_api sample_mysql sample_producer "r1" sample_shared).0
    × (lookup "r1"
          (publish_during_delete sample_api sample_mysql sample_producer "r1" sample_shared).1.table
        ≡ none)
    × IsDelivered sample_api.marshal_dict sample_producer
        (set_status "ACTIVE" sample_dict)
        []
        (publish_during_delete sample_api sample_mysql sample_producer "r1" sample_shared).1.sent
unfolding find dict_of publish set_status
publish_during_delete-undeleted_example =
    publish_during_delete-undeleted sample_api sample_mysql sample_producer "r1" 0 sample_record
      sample_dict sample_shared (sample_shared-IsHeld.unique) refl refl refl refl

abbrev edit_log : List Stmt
edit_log = (save_new_rule_version sample_mysql sample_codec named_rule 2 []).1

edit_during_publish-lost_example :
    All
      (λ task. has_succeeded task ≡ true)
      (edit_during_publish sample_api sample_mysql sample_producer "r1" sample_rule sample_shared).0
    × ((payload : String) × (after : RuleRecord) × (sample_api.marshal_dict
            (set_status "ACTIVE" sample_dict)
          ≡ some payload)
        × (get_elem?
              (edit_during_publish sample_api sample_mysql sample_producer "r1" sample_rule
                sample_shared).1.heap
              0
            ≡ some after)
        × (after.rule_payload ≡ payload)
        × (after.status ≡ "ACTIVE")
        × (after.version ≡ 2))
    × IsDelivered sample_api.marshal_dict sample_producer
        (set_status "ACTIVE" sample_dict)
        []
        (edit_during_publish sample_api sample_mysql sample_producer "r1" sample_rule
          sample_shared).1.sent
unfolding find dict_of publish set_status save_new_rule_version update_problem with_default_name
    with_status
edit_during_publish-lost_example =
    edit_during_publish-lost sample_api sample_mysql sample_producer "r1" 0 sample_record
      sample_dict sample_rule "rule" edit_log sample_shared refl refl refl refl refl refl refl refl
      refl
