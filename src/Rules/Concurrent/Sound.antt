-- ===== src/Rules/Concurrent/Sound.antt =====
-- What stays true of internal/handlers/rules.go whatever the order in which overlapping requests step.
use velocity_engine_backend.Prelude.{
  ℕ, zero, suc, ◌+◌, ◌≤◌, String, ◌≡◌, refl, ap, ◌∙◌, ◌⊎◌, inl, inr, true, List, [], ◌∷◌, ◌++◌,
  none, some, ◌==◌, comparable_string, ==_iff, Bool-cases, Option-cases, get_elem?, All, arith,
}
use velocity_engine_backend.Prelude.Maps.{lookup, IsUnique}
use velocity_engine_backend.Json.{Row}
use velocity_engine_backend.Models.{VelocityRule, RuleRecord}
use velocity_engine_backend.RuleStore.{Mysql}
use velocity_engine_backend.Kafka.{Producer, Sent}
use velocity_engine_backend.Rules.{
  Api, unbound, bound, with_default_name, create_problem, update_problem, set_status, dict_of,
  is_editable, is_settable, Request, create, edit, promote, delete, change_status,
}
use velocity_engine_backend.Rules.Invariant.{rule_id-prepared, settable_cases}
use velocity_engine_backend.Rules.Concurrent.{
  Shared, Task, arrived, announcing, persisting, storing, tombstoning, deactivating, removing,
  saving_new, storing_new, saving_edit, storing_edit, answered, update_at, find, receive, drafted,
}

-- A message with this content was given to Kafka, and confirmed.
abbrev pub IsConfirmed : String → List Sent → Type 0
IsConfirmed payload [] = ⊥
IsConfirmed payload (m ∷ ms) =
    ((m.content ≡ payload) × (m.confirmed ≡ true)) ⊎ IsConfirmed payload ms

abbrev pub IsLive : String → Type 0
IsLive status = (status ≡ "ACTIVE") ⊎ (status ≡ "PAUSED")

-- The record at this address is the rule's.
abbrev pub IsOwner : List RuleRecord → ℕ → String → Type 0
IsOwner heap address k = (r : RuleRecord) × (get_elem? heap address ≡ some r) × (r.id ≡ k)

pub IsConfirmed-append :
    (payload : String) (ms ns : List Sent) → IsConfirmed payload ms → IsConfirmed payload (ms ++ ns)
IsConfirmed-append payload [] ns h = absurd h
IsConfirmed-append payload (m ∷ ms) ns (inl h) = inl h
IsConfirmed-append payload (m ∷ ms) ns (inr h) = inr (IsConfirmed-append payload ms ns h)

pub IsConfirmed-last :
    (key payload : String) (ms : List Sent)
    → IsConfirmed payload (ms ++ record { key = key; content = payload; confirmed = true } ∷ [])
IsConfirmed-last key payload [] = inl (refl, refl)
IsConfirmed-last key payload (m ∷ ms) = inr (IsConfirmed-last key payload ms)

pub IsOwner-update_at :
    (i : ℕ) (f : RuleRecord → RuleRecord) (heap : List RuleRecord) (address : ℕ) (k : String)
    → ((r : RuleRecord) → (f r).id ≡ r.id)
    → IsOwner heap address k
    → IsOwner (update_at i f heap) address k
IsOwner-update_at i f [] address k same h = h
IsOwner-update_at zero f (r ∷ rs) zero k same (q, e, o) =
    (f r, refl, same r ∙ (ground (arith, ap (λ (s : RuleRecord). s.id) {x = r} {y = q})))
IsOwner-update_at zero f (r ∷ rs) (suc address) k same h = h
IsOwner-update_at (suc i) f (r ∷ rs) zero k same h = h
IsOwner-update_at (suc i) f (r ∷ rs) (suc address) k same h =
    IsOwner-update_at i f rs address k same h

pub All-update_at {ℓ} :
    {P : RuleRecord → Type ℓ} (i : ℕ) (f : RuleRecord → RuleRecord) (heap : List RuleRecord)
    → ((r : RuleRecord) → P r → P (f r))
    → All P heap
    → All P (update_at i f heap)
All-update_at i f [] h a = a
All-update_at zero f (r ∷ rs) h (p, a) = (h r p, a)
All-update_at (suc i) f (r ∷ rs) h (p, a) = (p, All-update_at i f rs h a)

module _ (api : Api) (mysql : Mysql) (producer : Producer) where
  -- Kafka confirmed a message with this content, a rule's JSON with this status.
  abbrev pub IsAnnouncement : List Sent → String → String → Type 0
  IsAnnouncement sent status payload =
      ((row : Row) × (api.marshal_dict (set_status status row) ≡ some payload))
      × IsConfirmed payload sent

  -- A version from 1 on, and DRAFT, or ACTIVE or PAUSED as a confirmed message says that the record holds.
  abbrev pub IsBacked : List Sent → RuleRecord → Type 0
  IsBacked sent r =
      (1 ≤ r.version)
      × ((r.status ≡ "DRAFT") ⊎ (IsLive r.status × IsAnnouncement sent r.status r.rule_payload))

  pub record IsHeld (s : Shared) : Type 0 where
    pub unique : IsUnique s.table
    pub owned :
        (k : String) (address : ℕ) → lookup k s.table ≡ some address → IsOwner s.heap address k
    pub backed : All (IsBacked s.sent) s.heap

  -- What a request's local variables have to do with the memory.
  abbrev pub IsReady : Shared → Task → Type 0
  IsReady s (announcing c rule_dict) =
      IsOwner s.heap c.address c.rule_id
      × IsLive c.status
      × ((row : Row) × (rule_dict ≡ set_status c.status row))
  IsReady s (persisting c payload) =
      IsOwner s.heap c.address c.rule_id × IsLive c.status × IsAnnouncement s.sent c.status payload
  IsReady s (storing c payload) =
      IsOwner s.heap c.address c.rule_id × IsLive c.status × IsAnnouncement s.sent c.status payload
  IsReady s (saving_edit address version rule payload) =
      IsOwner s.heap address rule.rule_metadata.rule_id × (1 ≤ version)
  IsReady s (storing_edit address version rule payload) =
      IsOwner s.heap address rule.rule_metadata.rule_id × (1 ≤ version)
  IsReady s _ = Unit

  -- Records stay where they are, and confirmed messages stay confirmed.
  pub record IsGrown (s t : Shared) : Type 0 where
    pub owners : (address : ℕ) (k : String) → IsOwner s.heap address k → IsOwner t.heap address k
    pub confirmed : (payload : String) → IsConfirmed payload s.sent → IsConfirmed payload t.sent

  pub IsReady-grown : {s t : Shared} (task : Task) → IsGrown s t → IsReady s task → IsReady t task
  IsReady-grown (arrived request) g h = tt
  IsReady-grown (announcing c rule_dict) g (o, l, row) = (g.owners c.address c.rule_id o, l, row)
  IsReady-grown (persisting c payload) g (o, l, (row, sent)) =
      (g.owners c.address c.rule_id o, l, (row, g.confirmed payload sent))
  IsReady-grown (storing c payload) g (o, l, (row, sent)) =
      (g.owners c.address c.rule_id o, l, (row, g.confirmed payload sent))
  IsReady-grown (tombstoning rule_id rule_dict) g h = tt
  IsReady-grown (deactivating rule_id) g h = tt
  IsReady-grown (removing rule_id) g h = tt
  IsReady-grown (saving_new rule payload) g h = tt
  IsReady-grown (storing_new rule payload) g h = tt
  IsReady-grown (saving_edit address version rule payload) g (o, v) =
      (g.owners address rule.rule_metadata.rule_id o, v)
  IsReady-grown (storing_edit address version rule payload) g (o, v) =
      (g.owners address rule.rule_metadata.rule_id o, v)
  IsReady-grown (answered reply) g h = tt

  pub IsBacked-grown :
      {s t : Shared} (heap : List RuleRecord)
      → IsGrown s t
      → All (IsBacked s.sent) heap
      → All (IsBacked t.sent) heap
  IsBacked-grown [] g a = tt
  IsBacked-grown (r ∷ rs) g ((v, inl d), a) = ((v, inl d), IsBacked-grown rs g a)
  IsBacked-grown (r ∷ rs) g ((v, inr (l, (row, sent))), a) =
      ((v, inr (l, (row, g.confirmed r.rule_payload sent))), IsBacked-grown rs g a)

  pub All-grown :
      {s t : Shared} (tasks : List Task)
      → IsGrown s t
      → All (IsReady s) tasks
      → All (IsReady t) tasks
  All-grown [] g a = tt
  All-grown (task ∷ tasks) g (h, a) = (IsReady-grown task g h, All-grown tasks g a)

  pub IsGrown-refl : (s : Shared) → IsGrown s s
  IsGrown-refl s = record { owners = λ address k o. o; confirmed = λ payload h. h }

  pub find-cases :
      (k : String) (s : Shared)
      → (find k s ≡ none)
        ⊎ ((address : ℕ) × (r : RuleRecord) × (find k s ≡ some (address, r))
            × (lookup k s.table ≡ some address)
            × (get_elem? s.heap address ≡ some r))
  unfolding find
  find-cases k s = elim (Option-cases (lookup k s.table)) [
    | inl q ↦ inl (rw (q, find) refl)
    | inr (address, q) ↦ elim (Option-cases (get_elem? s.heap address)) [
      | inl e ↦ inl (rw (q, e, find) refl)
      | inr (r, e) ↦ inr (address, r, rw (q, e, find) refl, q, e)
    ]
  ]

  drafted-IsReady :
      (s : Shared) (next : VelocityRule → String → Task) (rule : VelocityRule)
      → ((payload : String) → IsReady s (next rule payload))
      → IsReady s (drafted api mysql producer next rule)
  unfolding drafted
  drafted-IsReady s next rule h = elim (Option-cases (api.codec.marshal_rule rule)) [
    | inl q ↦ rw (q, drafted) tt
    | inr (payload, q) ↦ rw (q, drafted) (h payload)
  ]

  pub receive-IsReady :
      (request : Request) (s : Shared) → IsHeld s → IsReady s (receive api mysql producer request s)
  unfolding receive
  receive-IsReady (create (unbound text)) s v = tt
  receive-IsReady (create (bound body)) s v =
      elim (Option-cases (lookup body.rule_metadata.rule_id s.table)) [
        | inr (address, q) ↦ rw (receive, q) tt
        | inl q ↦
            elim (Option-cases
              (create_problem api (with_default_name api body.rule_metadata.rule_id body))) [
                | inr (detail, p) ↦ rw (receive, q, p) tt
                | inl p ↦ rw (receive, q, p) (drafted-IsReady s saving_new _ (λ payload. tt))
              ]
      ]
  receive-IsReady (edit k (unbound text)) s v = tt
  receive-IsReady (edit k (bound body)) s v = elim (Bool-cases (body.rule_metadata.rule_id == k)) [
    | inr n ↦ rw (receive, n) tt
    | inl n ↦ elim (find-cases k s) [
      | inl q ↦ rw (receive, n, q) tt
      | inr (address, old, q, there, held) ↦ elim (Bool-cases (is_editable old)) [
        | inr e ↦ rw (receive, n, q, e) tt
        | inl e ↦ elim (Option-cases (update_problem api (with_default_name api k body))) [
          | inr (detail, p) ↦ rw (receive, n, q, e, p) tt
          | inl p ↦
              rw (receive, n, q, e, p)
                (drafted-IsReady s (saving_edit address (old.version + 1)) _ (λ payload. (
                  rw
                      (
                        rule_id-prepared api mysql producer k body,
                        (==_iff body.rule_metadata.rule_id k).0 n,
                      )
                      (v.owned k address there),
                  omega arith,
                )))
        ]
      ]
    ]
  ]
  receive-IsReady (promote k) s v = elim (find-cases k s) [
    | inl q ↦ rw (receive, q) tt
    | inr (address, old, q, there, held) ↦ elim (Option-cases (dict_of api old.rule_payload)) [
      | inl d ↦ rw (receive, q, d) tt
      | inr (row, d) ↦ rw (receive, q, d) (v.owned k address there, inl refl, (row, refl))
    ]
  ]
  receive-IsReady (delete k) s v = elim (find-cases k s) [
    | inl q ↦ rw (receive, q) tt
    | inr (address, old, q, there, held) ↦ elim (Option-cases (dict_of api old.rule_payload)) [
      | inl d ↦ rw (receive, q, d) tt
      | inr (row, d) ↦ elim (Bool-cases old.is_published) [
        | inl y ↦ rw (receive, q, d, y) tt
        | inr y ↦ rw (receive, q, d, y) tt
      ]
    ]
  ]
  receive-IsReady (change_status k (unbound text)) s v = tt
  receive-IsReady (change_status k (bound status)) s v = elim (Bool-cases (is_settable status)) [
    | inr n ↦ rw (receive, n) tt
    | inl n ↦ elim (find-cases k s) [
      | inl q ↦ rw (receive, n, q) tt
      | inr (address, old, q, there, held) ↦ elim (Option-cases (dict_of api old.rule_payload)) [
        | inl d ↦ rw (receive, n, q, d) tt
        | inr (row, d) ↦
            rw (receive, n, q, d)
              (v.owned k address there, settable_cases api mysql producer status n, (row, refl))
      ]
    ]
  ]
