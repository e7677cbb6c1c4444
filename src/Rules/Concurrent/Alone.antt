-- ===== src/Rules/Concurrent/Alone.antt =====
-- A request of internal/handlers/rules.go that runs with no other between its steps.
use velocity_engine_backend.Prelude.{
  ℕ, String, ◌≡◌, refl, ap, ◌⊎◌, inl, inr, true, [], ◌∷◌, none, some, ◌==◌, comparable_string,
  ==_iff, Bool-cases, Option-cases, get_elem?,
}
use velocity_engine_backend.Prelude.Maps.{lookup}
use velocity_engine_backend.Models.{VelocityRule, RuleRecord}
use velocity_engine_backend.RuleStore.{Mysql}
use velocity_engine_backend.Kafka.{Producer}
use velocity_engine_backend.Rules.{
  Api, unbound, bound, with_status, with_default_name, create_problem, update_problem, set_status,
  dict_of, is_editable, is_settable, Request, create, edit, promote, delete, change_status, serve,
  create_rule, update_rule, publish_rule, update_rule_status, delete_rule,
}
use velocity_engine_backend.Rules.Invariant.{rule_id-prepared}
use velocity_engine_backend.Rules.Concurrent.{
  Shared, arrived, answered, find, publication, status_change, receive, advance, turn, run,
}
use velocity_engine_backend.Rules.Concurrent.Sound.{IsHeld}
use velocity_engine_backend.Rules.Concurrent.View.{
  view, world_of, lookup-view-none, lookup-view-some,
}
use velocity_engine_backend.Rules.Concurrent.Rest.{
  finish, IsServed, links, announcing-IsServed, removing-IsServed, tombstoning-IsServed,
  saving_edit-IsServed, saving_new-IsServed,
}

module _ (api : Api) (mysql : Mysql) (producer : Producer) where
  -- What the handlers read under their first lock, in both views of the memory
  found-cases :
      (k : String) (s : Shared)
      → IsHeld api mysql producer s
      → ((find k s ≡ none) × (lookup k (view s.table s.heap) ≡ none))
        ⊎ ((address : ℕ) × (old : RuleRecord) × (find k s ≡ some (address, old))
            × (lookup k (view s.table s.heap) ≡ some old)
            × (lookup k s.table ≡ some address)
            × (get_elem? s.heap address ≡ some old))
  unfolding find
  found-cases k s v = elim (Option-cases (lookup k s.table)) [
    | inl q ↦
        inl (rw (find, q) refl, lookup-view-none k s.table s.heap q (links api mysql producer s v))
    | inr (address, q) ↦
        let (r, held, _) = v.owned k address q in
        inr (
          address,
          r,
          rw (find, q, held) refl,
          lookup-view-some k s.table s.heap address r q held (links api mysql producer s v),
          q,
          held,
        )
  ]

  create-IsServed :
      (body : VelocityRule) (s : Shared)
      → IsHeld api mysql producer s
      → IsServed api mysql producer
          (finish api mysql producer 3 (receive api mysql producer (create (bound body)) s) s)
          (create_rule api mysql producer (bound body) (world_of s))
  unfolding finish advance receive create_rule world_of
  create-IsServed body s v = elim (Option-cases (lookup body.rule_metadata.rule_id s.table)) [
    | inr (address, q) ↦
        let (r, held, _) = v.owned body.rule_metadata.rule_id address q in
        let present =
          lookup-view-some body.rule_metadata.rule_id s.table s.heap address r q held
            (links api mysql producer s v) in
        rw (receive, q, create_rule, present) (refl, refl)
    | inl q ↦
        let absent =
          lookup-view-none body.rule_metadata.rule_id s.table s.heap q
            (links api mysql producer s v) in
        elim (Option-cases
          (create_problem api (with_default_name api body.rule_metadata.rule_id body))) [
            | inr (detail, p) ↦ rw (receive, q, create_rule, absent, p) (refl, refl)
            | inl p ↦
                rw (receive, q, create_rule, absent, p)
                  (saving_new-IsServed api mysql producer
                    (with_status "DRAFT" (with_default_name api body.rule_metadata.rule_id body)) s
                    (rw (rule_id-prepared api mysql producer body.rule_metadata.rule_id body) q) v)
          ]
  ]

  edit-IsServed :
      (k : String) (body : VelocityRule) (s : Shared)
      → IsHeld api mysql producer s
      → IsServed api mysql producer
          (finish api mysql producer 3 (receive api mysql producer (edit k (bound body)) s) s)
          (update_rule api mysql producer k (bound body) (world_of s))
  unfolding finish advance receive update_rule world_of
  edit-IsServed k body s v = elim (Bool-cases (body.rule_metadata.rule_id == k)) [
    | inr n ↦ rw (receive, n, update_rule) (refl, refl)
    | inl n ↦ elim (found-cases k s v) [
      | inl (q, absent) ↦ rw (receive, n, q, update_rule, absent) (refl, refl)
      | inr (address, old, q, present, there, held) ↦ elim (Bool-cases (is_editable old)) [
        | inr e ↦ rw (receive, n, q, update_rule, present, e) (refl, refl)
        | inl e ↦ elim (Option-cases (update_problem api (with_default_name api k body))) [
          | inr (detail, p) ↦ rw (receive, n, q, update_rule, present, e, p) (refl, refl)
          | inl p ↦
              rw (receive, n, q, update_rule, present, e, p)
                (saving_edit-IsServed api mysql producer address old
                  (with_status "DRAFT" (with_default_name api k body)) s
                  (rw
                    (
                      rule_id-prepared api mysql producer k body,
                      (==_iff body.rule_metadata.rule_id k).0 n,
                    )
                    there)
                  held v)
        ]
      ]
    ]
  ]

  change_status-IsServed :
      (k status : String) (s : Shared)
      → IsHeld api mysql producer s
      → IsServed api mysql producer
          (finish api mysql producer 3
            (receive api mysql producer (change_status k (bound status)) s)
            s)
          (update_rule_status api mysql producer k (bound status) (world_of s))
  unfolding finish advance receive update_rule_status world_of
  change_status-IsServed k status s v = elim (Bool-cases (is_settable status)) [
    | inr n ↦ rw (receive, n, update_rule_status) (refl, refl)
    | inl n ↦ elim (found-cases k s v) [
      | inl (q, absent) ↦ rw (receive, n, q, update_rule_status, absent) (refl, refl)
      | inr (address, old, q, present, there, held) ↦
          elim (Option-cases (dict_of api old.rule_payload)) [
            | inl d ↦ rw (receive, n, q, update_rule_status, present, d) (refl, refl)
            | inr (row, d) ↦
                rw (receive, n, q, update_rule_status, present, d)
                  (announcing-IsServed api mysql producer (status_change k address status)
                    (set_status status row) old (record old { status = status }) s there held
                    (λ payload. refl) v)
          ]
    ]
  ]

  finish-IsServed :
      (request : Request) (s : Shared)
      → IsHeld api mysql producer s
      → IsServed api mysql producer
          (finish api mysql producer 3 (receive api mysql producer request s) s)
          (serve api mysql producer request (world_of s))
  unfolding finish advance receive serve world_of create_rule update_rule publish_rule delete_rule
      update_rule_status
  finish-IsServed (create (unbound text)) s v = (refl, refl)
  finish-IsServed (create (bound body)) s v = create-IsServed body s v
  finish-IsServed (edit k (unbound text)) s v = (refl, refl)
  finish-IsServed (edit k (bound body)) s v = edit-IsServed k body s v
  finish-IsServed (promote k) s v = elim (found-cases k s v) [
    | inl (q, absent) ↦ rw (receive, q, publish_rule, absent) (refl, refl)
    | inr (address, old, q, present, there, held) ↦
        elim (Option-cases (dict_of api old.rule_payload)) [
          | inl d ↦ rw (receive, q, publish_rule, present, d) (refl, refl)
          | inr (row, d) ↦
              rw (receive, q, publish_rule, present, d)
                (announcing-IsServed api mysql producer (publication k address)
                  (set_status "ACTIVE" row) old
                  (record old { is_published = true; status = "ACTIVE" }) s there held
                  (λ payload. refl) v)
        ]
  ]
  finish-IsServed (delete k) s v = elim (found-cases k s v) [
    | inl (q, absent) ↦ rw (receive, q, delete_rule, absent) (refl, refl)
    | inr (address, old, q, present, there, held) ↦
        elim (Option-cases (dict_of api old.rule_payload)) [
          | inl d ↦ rw (receive, q, delete_rule, present, d) (refl, refl)
          | inr (row, d) ↦ elim (Bool-cases old.is_published) [
            | inl y ↦
                rw (receive, q, delete_rule, present, d, y)
                  (tombstoning-IsServed api mysql producer k (set_status "DELETED" row) s v)
            | inr y ↦
                rw (receive, q, delete_rule, present, d, y)
                  (removing-IsServed api mysql producer k s s.sent v)
          ]
        ]
  ]
  finish-IsServed (change_status k (unbound text)) s v = (refl, refl)
  finish-IsServed (change_status k (bound status)) s v = change_status-IsServed k status s v

  -- A request that makes its four steps with no other between them answers as `serve` does, and leaves
  -- the rules in memory, the statements and the messages that `serve` leaves.
  pub run-serve :
      (request : Request) (s : Shared)
      → IsHeld api mysql producer s
      → ((run api mysql producer (0 ∷ 0 ∷ 0 ∷ 0 ∷ []) (arrived request ∷ [], s)).0
          ≡ answered (serve api mysql producer request (world_of s)).0 ∷ [])
        × (world_of (run api mysql producer (0 ∷ 0 ∷ 0 ∷ 0 ∷ []) (arrived request ∷ [], s)).1
            ≡ (serve api mysql producer request (world_of s)).1)
  unfolding run turn advance finish
  run-serve request s v =
      let (answer, memory) = finish-IsServed request s v in (ap (λ t. t ∷ []) answer, memory)
