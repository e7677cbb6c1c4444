-- ===== src/Rules/Concurrent/Steps.antt =====
-- What the steps of internal/handlers/rules.go keep of the memory that the requests share.
use velocity_engine_backend.Prelude.{
  ℕ, ◌≤◌, String, ◌≡◌, refl, sym, ◌∙◌, inl, inr, true, false, List, [], ◌∷◌, ◌++◌, some, ◌==◌,
  comparable_string, ==_iff, Bool-cases, length, All, get_elem?-append_left, get_elem?-append_last,
  lt_of_get_elem?, arith,
}
use velocity_engine_backend.Prelude.Maps.{lookup-insert, insert-IsUnique}
use velocity_engine_backend.Json.{Row}
use velocity_engine_backend.Models.{VelocityRule, RuleRecord}
use velocity_engine_backend.RuleStore.{Mysql, Stmt, Outcome, ok, err}
use velocity_engine_backend.Kafka.{Producer, Sent, publish_lem, IsUndelivered}
use velocity_engine_backend.Rules.{Api, Reply, refused, created_record}
use velocity_engine_backend.Rules.Concurrent.{
  Shared, Change, Task, storing_new, answered, update_at, changed, revised, send, saved, advance,
}
use velocity_engine_backend.Rules.Concurrent.Sound.{
  IsLive, IsOwner, IsConfirmed-append, IsOwner-update_at, All-update_at, IsAnnouncement, IsBacked,
  IsHeld, IsReady, IsGrown, IsBacked-grown, IsGrown-refl,
}

module _ (api : Api) (mysql : Mysql) (producer : Producer) where
  -- The memory is held, the request is ready to go on, and nothing that others rely on is gone.
  abbrev pub IsKept : Shared → Task × Shared → Type 0
  IsKept s (task, t) =
      IsHeld api mysql producer t
      × IsReady api mysql producer t task
      × IsGrown api mysql producer s t

  pub logged-IsKept :
      (s : Shared) (log : List Stmt) (task : Task)
      → IsHeld api mysql producer s
      → IsReady api mysql producer (record s { statements = log }) task
      → IsKept s (task, record s { statements = log })
  logged-IsKept s log task v h = (
    record { unique = v.unique; owned = v.owned; backed = v.backed },
    h,
    record { owners = λ address k o. o; confirmed = λ payload c. c },
  )

  -- More messages change nothing in the memory.
  messaged-IsGrown :
      (s : Shared) (more : List Sent)
      → IsGrown api mysql producer s (record s { sent = s.sent ++ more })
  messaged-IsGrown s more = record {
    owners = λ address k o. o;
    confirmed = λ payload c. IsConfirmed-append payload s.sent more c;
  }

  messaged-IsHeld :
      (s : Shared) (more : List Sent)
      → IsHeld api mysql producer s
      → IsHeld api mysql producer (record s { sent = s.sent ++ more })
  messaged-IsHeld s more v = record {
    unique = v.unique;
    owned = v.owned;
    backed = IsBacked-grown api mysql producer s.heap (messaged-IsGrown s more) v.backed;
  }

  undelivered-IsKept :
      (s : Shared) (after : List Sent) (task : Task)
      → ((t : Shared) → IsReady api mysql producer t task)
      → IsUndelivered api.marshal_dict producer s.sent after
      → IsHeld api mysql producer s
      → IsKept s (task, record s { sent = after })
  undelivered-IsKept s after task r (inl e) v = rw e (v, r s, IsGrown-refl api mysql producer s)
  undelivered-IsKept s after task r (inr (key, content, e)) v = rw e (
    messaged-IsHeld s _ v,
    r (record s {
      sent = s.sent ++ record { key = key; content = content; confirmed = false } ∷ [];
    }),
    messaged-IsGrown s _,
  )

  -- A message, and what the request needs of it to go on.
  pub send-IsKept :
      (rule_dict : Row) (s : Shared) (delivered undelivered : Task)
      → ((t : Shared) → IsReady api mysql producer t undelivered)
      → ((payload key : String)
          → api.marshal_dict rule_dict ≡ some payload
          → IsReady api mysql producer
              (record s {
                sent = s.sent ++ record { key = key; content = payload; confirmed = true } ∷ [];
              })
              delivered)
      → IsHeld api mysql producer s
      → IsKept s (send api mysql producer rule_dict s delivered undelivered)
  unfolding send
  send-IsKept rule_dict s delivered undelivered u d v =
      elim (publish_lem api.marshal_dict producer rule_dict s.sent) [
        | inr (f, lost) ↦ rw (send, f) (undelivered-IsKept s _ undelivered u lost v)
        | inl (t, (key, content, k, m, e)) ↦
            rw (send, t, e) (messaged-IsHeld s _ v, d content key m, messaged-IsGrown s _)
      ]

  pub rewritten-IsKept :
      (s : Shared) (address : ℕ) (f : RuleRecord → RuleRecord) (reply : Reply)
      → ((r : RuleRecord) → (f r).id ≡ r.id)
      → ((r : RuleRecord)
          → IsBacked api mysql producer s.sent r
          → IsBacked api mysql producer s.sent (f r))
      → IsHeld api mysql producer s
      → IsKept s (answered reply, record s { heap = update_at address f s.heap })
  rewritten-IsKept s address f reply same b v = (
    record {
      unique = v.unique;
      owned = λ k a e. IsOwner-update_at address f s.heap a k same (v.owned k a e);
      backed = All-update_at address f s.heap b v.backed;
    },
    tt,
    record {
      owners = λ a k o. IsOwner-update_at address f s.heap a k same o;
      confirmed = λ payload c. c;
    },
  )

  pub changed-IsBacked :
      (c : Change) (payload : String) (sent : List Sent) (r : RuleRecord)
      → IsLive c.status
      → IsAnnouncement api mysql producer sent c.status payload
      → IsBacked api mysql producer sent r
      → IsBacked api mysql producer sent (changed c payload r)
  unfolding changed
  changed-IsBacked c payload sent r l a b = (b.0, inr (l, a))

  pub revised-IsBacked :
      (version : ℕ) (rule : VelocityRule) (payload : String) (sent : List Sent) (r : RuleRecord)
      → 1 ≤ version
      → IsBacked api mysql producer sent (revised version rule payload r)
  unfolding revised
  revised-IsBacked version rule payload sent r v = (v, inl refl)

  pub saved-IsKept :
      (result : Outcome (Unit {0}) × List Stmt) (s : Shared) (next : Task) (detail : String)
      → IsHeld api mysql producer s
      → ((log : List Stmt) → IsReady api mysql producer (record s { statements = log }) next)
      → IsKept s (saved api mysql producer result s next detail)
  unfolding saved
  saved-IsKept (ok _, log) s next detail v h = logged-IsKept s log next v (h log)
  saved-IsKept (err, log) s next detail v h =
      logged-IsKept s log (answered (refused 503 detail)) v tt

  All-append :
      (sent : List Sent) (heap : List RuleRecord) (r : RuleRecord)
      → All (IsBacked api mysql producer sent) heap
      → IsBacked api mysql producer sent r
      → All (IsBacked api mysql producer sent) (heap ++ r ∷ [])
  All-append sent [] r a b = (b, tt)
  All-append sent (q ∷ heap) r (p, a) b = (p, All-append sent heap r a b)

  IsOwner-append :
      (heap : List RuleRecord) (r : RuleRecord) (address : ℕ) (k : String)
      → IsOwner heap address k
      → IsOwner (heap ++ r ∷ []) address k
  IsOwner-append heap r address k (q, e, o) =
      (q, get_elem?-append_left heap (r ∷ []) address (lt_of_get_elem? heap address e) ∙ e, o)

  pub created-IsKept :
      (s : Shared) (rule : VelocityRule) (payload : String)
      → IsHeld api mysql producer s
      → IsKept s (advance api mysql producer (storing_new rule payload) s)
  unfolding advance created_record
  created-IsKept s rule payload v = (
    record {
      unique = insert-IsUnique rule.rule_metadata.rule_id (length s.heap) s.table v.unique;
      owned = λ k a e. elim (Bool-cases (rule.rule_metadata.rule_id == k)) [
        | inl q ↦
            let same : length s.heap ≡ a =
              ground (arith, lookup-insert rule.rule_metadata.rule_id k (length s.heap) s.table) in
            rw (sym same) (
              created_record rule payload,
              get_elem?-append_last s.heap (created_record rule payload),
              (==_iff rule.rule_metadata.rule_id k).0 q,
            )
        | inr q ↦ IsOwner-append s.heap (created_record rule payload) a k (
            v.owned k a
              (ground (arith, lookup-insert rule.rule_metadata.rule_id k (length s.heap) s.table)))
      ];
      backed =
          All-append s.sent s.heap (created_record rule payload) v.backed (omega arith, inl refl);
    },
    tt,
    record {
      owners = λ a k o. IsOwner-append s.heap (created_record rule payload) a k o;
      confirmed = λ p c. c;
    },
  )
