-- ===== src/Rules/Concurrent/Orders.antt =====
-- Every step of every request of internal/handlers/rules.go keeps what Sound states, in any order.
use velocity_engine_backend.Prelude.{
  ℕ, zero, suc, String, ◌≡◌, refl, sym, ap, ◌∙◌, inl, inr, true, List, [], ◌∷◌, ◌++◌, some,
  comparable_string, Option-cases, get_elem?, set, All, arith,
}
use velocity_engine_backend.Prelude.Maps.{lookup-remove, remove-IsUnique}
use velocity_engine_backend.Json.{Row}
use velocity_engine_backend.RuleStore.{Mysql}
use velocity_engine_backend.Kafka.{Producer}
use velocity_engine_backend.Rules.{Api, one_rule, success, set_status}
use velocity_engine_backend.Rules.Concurrent.{
  Shared, Change, Task, arrived, announcing, persisting, storing, tombstoning, deactivating,
  removing, saving_new, storing_new, saving_edit, storing_edit, answered, changed, revised,
  marshalled, advance, turn, run,
}
use velocity_engine_backend.Rules.Concurrent.Sound.{
  IsLive, IsOwner, IsConfirmed-last, IsHeld, IsReady, All-grown, IsGrown-refl, receive-IsReady,
}
use velocity_engine_backend.Rules.Concurrent.Steps.{
  IsKept, logged-IsKept, send-IsKept, rewritten-IsKept, changed-IsBacked, revised-IsBacked,
  saved-IsKept, created-IsKept,
}

module _ (api : Api) (mysql : Mysql) (producer : Producer) where
  marshalled-IsReady :
      (c : Change) (rule_dict row : Row) (key payload : String) (s : Shared)
      → IsOwner s.heap c.address c.rule_id
      → IsLive c.status
      → rule_dict ≡ set_status c.status row
      → api.marshal_dict rule_dict ≡ some payload
      → IsReady api mysql producer
          (record s {
            sent = s.sent ++ record { key = key; content = payload; confirmed = true } ∷ [];
          })
          (marshalled api mysql producer c rule_dict)
  unfolding marshalled
  marshalled-IsReady c rule_dict row key payload s o l e m =
      rw (marshalled, m)
        (o, l, ((row, ap api.marshal_dict (sym e) ∙ m), IsConfirmed-last key payload s.sent))

  advance-IsKept :
      (task : Task) (s : Shared)
      → IsHeld api mysql producer s
      → IsReady api mysql producer s task
      → IsKept api mysql producer s (advance api mysql producer task s)
  unfolding advance changed revised
  advance-IsKept (arrived request) s v h =
      (v, receive-IsReady api mysql producer request s v, IsGrown-refl api mysql producer s)
  advance-IsKept (announcing c rule_dict) s v (o, l, (row, e)) =
      send-IsKept api mysql producer rule_dict s (marshalled api mysql producer c rule_dict) _
        (λ t. tt) (λ payload key m. marshalled-IsReady c rule_dict row key payload s o l e m) v
  advance-IsKept (persisting c payload) s v h =
      logged-IsKept api mysql producer s _ (storing c payload) v h
  advance-IsKept (storing c payload) s v (o, l, a) =
      rewritten-IsKept api mysql producer s c.address (changed c payload) (success c.text)
        (λ r. refl) (λ r b. changed-IsBacked api mysql producer c payload s.sent r l a b) v
  advance-IsKept (tombstoning rule_id rule_dict) s v h =
      send-IsKept api mysql producer rule_dict s (deactivating rule_id) _ (λ t. tt)
        (λ payload key m. tt) v
  advance-IsKept (deactivating rule_id) s v h =
      logged-IsKept api mysql producer s _ (removing rule_id) v tt
  advance-IsKept (removing rule_id) s v h = (
    record {
      unique = remove-IsUnique rule_id s.table v.unique;
      owned = λ k a e. v.owned k a (ground (arith, lookup-remove rule_id k s.table v.unique));
      backed = v.backed;
    },
    tt,
    record { owners = λ a k o. o; confirmed = λ p c. c },
  )
  advance-IsKept (saving_new rule payload) s v h =
      saved-IsKept api mysql producer _ s _ _ v (λ log. tt)
  advance-IsKept (storing_new rule payload) s v h =
      created-IsKept api mysql producer s rule payload v
  advance-IsKept (saving_edit address version rule payload) s v h =
      saved-IsKept api mysql producer _ s _ _ v (λ log. h)
  advance-IsKept (storing_edit address version rule payload) s v (o, w) =
      rewritten-IsKept api mysql producer s address (revised version rule payload) (one_rule rule)
        (λ r. refl) (λ r b. revised-IsBacked api mysql producer version rule payload s.sent r w) v
  advance-IsKept (answered reply) s v h = (v, tt, IsGrown-refl api mysql producer s)

  -- The memory is held, and every request is ready to go on.
  abbrev pub IsSound : List Task × Shared → Type 0
  IsSound (tasks, s) = IsHeld api mysql producer s × All (IsReady api mysql producer s) tasks

  All-get :
      (s : Shared) (tasks : List Task) (i : ℕ) (task : Task)
      → All (IsReady api mysql producer s) tasks
      → get_elem? tasks i ≡ some task
      → IsReady api mysql producer s task
  All-get s [] i task a e = absurd (ground arith)
  All-get s (t ∷ tasks) zero task (h, a) e = let same : t ≡ task = ground arith in rw (sym same) h
  All-get s (t ∷ tasks) (suc i) task (h, a) e = All-get s tasks i task a e

  All-set :
      (s : Shared) (tasks : List Task) (i : ℕ) (task : Task)
      → All (IsReady api mysql producer s) tasks
      → IsReady api mysql producer s task
      → All (IsReady api mysql producer s) (set tasks i task)
  All-set s [] i task a h = tt
  All-set s (t ∷ tasks) zero task (_, a) h = (h, a)
  All-set s (t ∷ tasks) (suc i) task (g, a) h = (g, All-set s tasks i task a h)

  turn-IsSound :
      (i : ℕ) (system : List Task × Shared)
      → IsSound system
      → IsSound (turn api mysql producer i system)
  unfolding turn
  turn-IsSound i (tasks, s) (v, a) = elim (Option-cases (get_elem? tasks i)) [
    | inl q ↦ rw (turn, q) (v, a)
    | inr (task, q) ↦
        let (w, ready, grown) = advance-IsKept task s v (All-get s tasks i task a q) in
        rw (turn, q)
          (
            w,
            All-set (advance api mysql producer task s).1 tasks i _
                (All-grown api mysql producer tasks grown a) ready,
          )
  ]

  -- Whatever the order of the steps: no id stands twice in the map, every entry leads to a record with
  -- its id, versions stay from 1 on, and a record that is not a DRAFT is ACTIVE or PAUSED and holds the
  -- text of a message with that status, which Kafka confirmed.
  pub run-IsSound :
      (schedule : List ℕ) (system : List Task × Shared)
      → IsSound system
      → IsSound (run api mysql producer schedule system)
  unfolding run
  run-IsSound [] system h = h
  run-IsSound (i ∷ schedule) system h =
      run-IsSound schedule (turn api mysql producer i system) (turn-IsSound i system h)
