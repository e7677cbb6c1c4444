-- ===== src/Sockets/Bounded.antt =====
-- The bound on the outboxes of internal/services/wsmanager.go and the count of its connections.
use velocity_engine_backend.Prelude.{
  ℕ, suc, ◌≤◌, String, ◌≡◌, refl, ap, Bool, List, [], ◌∷◌, none, some, sym, if◌then◌else◌,
  comparable_nat, comparable_string, length, length-append, Bool-cases, Option-cases, inl, inr,
  ◌==◌, ==_iff, true, arith,
}
use velocity_engine_backend.Prelude.Maps.{
  Map, lookup, insert, remove, IsUnique, insert-IsUnique, remove-IsUnique,
}
use velocity_engine_backend.Sockets.{
  WsEntry, WsManager, outbox_size, is_true, id_set, enqueue, connect, disconnect, write_to_conn,
  deliver, broadcast, tail, take_oldest, Event, connected, disconnected, written, broadcasted,
  drained, stopped, shut_down, handle, stop, stop_conn, close_each, close_all,
}

-- No outbox holds more than its size.
abbrev pub IsBounded : Map ℕ WsEntry → Type 0
IsBounded [] = Unit
IsBounded ((_, entry) ∷ conns) = (length entry.outbox ≤ outbox_size) × IsBounded conns

pub record IsValid (m : WsManager) : Type 0 where
  pub unique : IsUnique m.conns
  pub bounded : IsBounded m.conns
  pub active : m.active ≡ length m.conns

length-insert :
    {V : Type 0} (k : ℕ) (v : V) (m : Map ℕ V)
    → length (insert k v m) ≡ elim (lookup k m) [ none ↦ suc (length m) | some _ ↦ length m ]
unfolding lookup insert
length-insert k v [] = refl
length-insert k v ((j, w) ∷ m) = ground (arith, length-insert k v m)

length-remove :
    {V : Type 0} (k : ℕ) (m : Map ℕ V)
    → length m
      ≡ elim (lookup k m) [ none ↦ length (remove k m) | some _ ↦ suc (length (remove k m)) ]
unfolding lookup remove
length-remove k [] = refl
length-remove k ((j, w) ∷ m) = ground (arith, length-remove k m)

insert-IsBounded :
    (k : ℕ) (entry : WsEntry) (m : Map ℕ WsEntry)
    → length entry.outbox ≤ outbox_size
    → IsBounded m
    → IsBounded (insert k entry m)
unfolding insert
insert-IsBounded k entry [] h b = (h, tt)
insert-IsBounded k entry ((j, w) ∷ m) h b = elim (Bool-cases (j == k)) [
  | inl q ↦ rw q (h, b.1)
  | inr q ↦ rw q (b.0, insert-IsBounded k entry m h b.1)
]

remove-IsBounded : (k : ℕ) (m : Map ℕ WsEntry) → IsBounded m → IsBounded (remove k m)
unfolding remove
remove-IsBounded k [] b = tt
remove-IsBounded k ((j, w) ∷ m) b = elim (Bool-cases (j == k)) [
  | inl q ↦ rw q b.1
  | inr q ↦ rw q (b.0, remove-IsBounded k m b.1)
]

bounded_at :
    (k : ℕ) (m : Map ℕ WsEntry) (entry : WsEntry)
    → IsBounded m
    → lookup k m ≡ some entry
    → length entry.outbox ≤ outbox_size
unfolding lookup
bounded_at k [] entry b e = absurd (ground arith)
bounded_at k ((j, w) ∷ m) entry b e = elim (Bool-cases (j == k)) [
  | inl q ↦ let same : w ≡ entry = ground arith in rw (sym same) b.0
  | inr q ↦ bounded_at k m entry b.1 (ground arith)
]

enqueue-le :
    (msg : String) (entry : WsEntry)
    → length entry.outbox ≤ outbox_size
    → length (enqueue msg entry).1.outbox ≤ outbox_size
unfolding enqueue
enqueue-le msg entry h = ground (arith, length-append entry.outbox (msg ∷ []))

length-tail-le : (msgs : List String) → length (tail msgs) ≤ length msgs
length-tail-le [] = omega arith
length-tail-le (_ ∷ rest) = omega arith

deliver-IsBounded :
    (rule_id msg : String) (conns : Map ℕ WsEntry)
    → IsBounded conns
    → IsBounded (deliver rule_id msg conns).0
unfolding deliver
deliver-IsBounded rule_id msg [] b = tt
deliver-IsBounded rule_id msg ((conn, entry) ∷ conns) b =
    elim (Bool-cases (is_true (lookup rule_id entry.rule_ids))) [
      | inl q ↦ rw q (enqueue-le msg entry b.0, deliver-IsBounded rule_id msg conns b.1)
      | inr q ↦ rw q (b.0, deliver-IsBounded rule_id msg conns b.1)
    ]

length-deliver :
    (rule_id msg : String) (conns : Map ℕ WsEntry)
    → length (deliver rule_id msg conns).0 ≡ length conns
unfolding deliver
length-deliver rule_id msg [] = refl
length-deliver rule_id msg ((conn, entry) ∷ conns) =
    ground (arith, length-deliver rule_id msg conns)

lookup-deliver-none :
    (rule_id msg : String) (k : ℕ) (conns : Map ℕ WsEntry)
    → lookup k conns ≡ none
    → lookup k (deliver rule_id msg conns).0 ≡ none
unfolding deliver lookup
lookup-deliver-none rule_id msg k [] h = refl
lookup-deliver-none rule_id msg k ((conn, entry) ∷ conns) h =
    elim (Bool-cases (is_true (lookup rule_id entry.rule_ids))) [
      | inl q ↦ rw q (ground (arith, lookup-deliver-none rule_id msg k conns))
      | inr q ↦ rw q (ground (arith, lookup-deliver-none rule_id msg k conns))
    ]

deliver-IsUnique :
    (rule_id msg : String) (conns : Map ℕ WsEntry)
    → IsUnique conns
    → IsUnique (deliver rule_id msg conns).0
unfolding deliver
deliver-IsUnique rule_id msg [] u = tt
deliver-IsUnique rule_id msg ((conn, entry) ∷ conns) u =
    elim (Bool-cases (is_true (lookup rule_id entry.rule_ids))) [
      | inl q ↦
          rw q
            (lookup-deliver-none rule_id msg conn conns u.0, deliver-IsUnique rule_id msg conns u.1)
      | inr q ↦
          rw q
            (lookup-deliver-none rule_id msg conn conns u.0, deliver-IsUnique rule_id msg conns u.1)
    ]

replace-IsValid :
    (k : ℕ) (old entry : WsEntry) (m : WsManager)
    → lookup k m.conns ≡ some old
    → length entry.outbox ≤ outbox_size
    → IsValid m
    → IsValid (record m { conns = insert k entry m.conns })
replace-IsValid k old entry m found h v = record {
  unique = insert-IsUnique k entry m.conns v.unique;
  bounded = insert-IsBounded k entry m.conns h v.bounded;
  active = ground (arith, length-insert k entry m.conns, v.active);
}

disconnect-IsValid : (conn : ℕ) (m : WsManager) → IsValid m → IsValid (disconnect conn m)
unfolding disconnect
disconnect-IsValid conn m v = elim (Option-cases (lookup conn m.conns)) [
  | inr (old, q) ↦
      rw (q, disconnect)
        (record {
          unique = remove-IsUnique conn m.conns v.unique;
          bounded = remove-IsBounded conn m.conns v.bounded;
          active = ground (arith, length-remove conn m.conns, v.active);
        })
  | inl q ↦
      rw (q, disconnect)
        (record {
          unique = remove-IsUnique conn m.conns v.unique;
          bounded = remove-IsBounded conn m.conns v.bounded;
          active = ground (arith, length-remove conn m.conns, v.active);
        })
]

outbox-stop : (picks : ℕ → Bool) (entry : WsEntry) → (stop picks entry).outbox ≡ entry.outbox
unfolding stop
outbox-stop picks entry = elim (Option-cases entry.closed) [
  | inl q ↦ rw q refl
  | inr (_, q) ↦ rw q refl
]

stop_conn-IsValid :
    (conn : ℕ) (picks : ℕ → Bool) (m : WsManager) → IsValid m → IsValid (stop_conn conn picks m)
unfolding stop_conn
stop_conn-IsValid conn picks m v = elim (Option-cases (lookup conn m.conns)) [
  | inl q ↦ rw (q, stop_conn) v
  | inr (old, q) ↦
      rw (q, stop_conn)
        (replace-IsValid conn old (stop picks old) m q
          (omega
            (arith, ap length (outbox-stop picks old), bounded_at conn m.conns old v.bounded q))
          v)
]

close_each-IsValid :
    (picks : ℕ → ℕ → Bool) (conns : Map ℕ WsEntry) (m : WsManager)
    → IsValid m
    → IsValid (close_each picks conns m)
unfolding close_each
close_each-IsValid picks [] m v = v
close_each-IsValid picks ((conn, _) ∷ rest) m v =
    close_each-IsValid picks rest _
      (disconnect-IsValid conn _ (stop_conn-IsValid conn (picks conn) m v))

-- Every event, the steps of CloseAll and its whole run among them, keeps the manager valid: no connection twice, no outbox over 256 messages, and a gauge of
-- active connections that is their number.
pub handle-IsValid : (event : Event) (m : WsManager) → IsValid m → IsValid (handle event m)
unfolding handle connect write_to_conn broadcast take_oldest close_all
handle-IsValid (connected conn rule_ids) m v = elim (Option-cases (lookup conn m.conns)) [
  | inr (old, q) ↦
      rw (q, connect)
        (replace-IsValid conn old (record old { rule_ids = id_set rule_ids [] }) m q
          (bounded_at conn m.conns old v.bounded q) v)
  | inl q ↦
      rw (q, connect)
        (record {
          unique = insert-IsUnique conn _ m.conns v.unique;
          bounded = insert-IsBounded conn _ m.conns (omega arith) v.bounded;
          active = ground (
            arith,
            length-insert conn
                (record { rule_ids = id_set rule_ids []; outbox = []; closed = none }) m.conns,
            v.active,
          );
        })
]
handle-IsValid (disconnected conn) m v = disconnect-IsValid conn m v
handle-IsValid (written conn msg) m v = elim (Option-cases (lookup conn m.conns)) [
  | inl q ↦ rw (q, handle, write_to_conn) v
  | inr (old, q) ↦
      rw (q, handle, write_to_conn)
        (replace-IsValid conn old (enqueue msg old).1 m q
          (enqueue-le msg old (bounded_at conn m.conns old v.bounded q)) v)
]
handle-IsValid (broadcasted rule_id none) m v = v
handle-IsValid (broadcasted rule_id (some msg)) m v = record {
  unique = deliver-IsUnique rule_id msg m.conns v.unique;
  bounded = deliver-IsBounded rule_id msg m.conns v.bounded;
  active = ground (arith, length-deliver rule_id msg m.conns, v.active);
}
handle-IsValid (drained conn) m v = elim (Option-cases (lookup conn m.conns)) [
  | inl q ↦ rw (q, take_oldest) v
  | inr (old, q) ↦
      rw (q, take_oldest)
        (replace-IsValid conn old (record old { outbox = tail old.outbox }) m q
          (omega (arith, length-tail-le old.outbox, bounded_at conn m.conns old v.bounded q)) v)
]
handle-IsValid (stopped conn picks) m v = stop_conn-IsValid conn picks m v
handle-IsValid (shut_down picks) m v = close_each-IsValid picks m.conns m v

-- Broadcast offers the message to each connection that is subscribed to the rule, and leaves every
-- other connection as it was.
lookup-deliver :
    (rule_id msg : String) (k : ℕ) (conns : Map ℕ WsEntry)
    → lookup k (deliver rule_id msg conns).0 ≡ elim (lookup k conns) [
      | none ↦ none
      | some entry ↦
          some (if is_true (lookup rule_id entry.rule_ids) then (enqueue msg entry).1 else entry)
    ]
unfolding deliver lookup
lookup-deliver rule_id msg k [] = refl
lookup-deliver rule_id msg k ((conn, entry) ∷ conns) =
    ground (arith, lookup-deliver rule_id msg k conns)

close_step-conns :
    (conn : ℕ) (entry : WsEntry) (rest : Map ℕ WsEntry) (picks : ℕ → Bool) (m : WsManager)
    → m.conns ≡ (conn, entry) ∷ rest
    → (disconnect conn (stop_conn conn picks m)).conns ≡ rest
unfolding disconnect stop_conn lookup insert remove
close_step-conns conn entry rest picks m e =
    let same : (conn == conn) ≡ true = (==_iff conn conn).1 refl in
    let after : (stop_conn conn picks m).conns ≡ (conn, stop picks entry) ∷ rest =
      rw (stop_conn, e, same, e, same) refl in
    rw (disconnect, after, same, after, same) refl

close_each-conns :
    (picks : ℕ → ℕ → Bool) (conns : Map ℕ WsEntry) (m : WsManager)
    → m.conns ≡ conns
    → (close_each picks conns m).conns ≡ []
unfolding close_each
close_each-conns picks [] m e = e
close_each-conns picks ((conn, entry) ∷ rest) m e =
    close_each-conns picks rest (disconnect conn (stop_conn conn (picks conn) m))
      (close_step-conns conn entry rest (picks conn) m e)

-- CloseAll, with nothing in between, leaves no connection.
close_all-conns : (picks : ℕ → ℕ → Bool) (m : WsManager) → (close_all picks m).conns ≡ []
unfolding close_all
close_all-conns picks m = close_each-conns picks m.conns m refl
