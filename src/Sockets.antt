-- ===== src/Sockets.antt =====
-- internal/services/wsmanager.go: WebSocket subscribers, each with a bounded outbox. A connection is a
-- number. CloseAll closes an entry before it takes it off the map; the close frame, the wait for the
-- writer, and the writer goroutines but for the messages that they take are left out.
pub mod Bounded
use velocity_engine_backend.Prelude.{
  ℕ, zero, suc, ◌+◌, ◌-◌, ◌≤◌, String, ◌≡◌, refl, Bool, true, false, List, [], ◌∷◌, ◌++◌, Option,
  none, some, ◌&&◌, not, sym, if◌then◌else◌, ltb, comparable_nat, comparable_string, length,
  length-append, Bool-cases, inl, inr, ==_iff, ◌==◌, arith,
}
use velocity_engine_backend.Prelude.Maps.{
  Map, lookup, insert, remove, IsUnique, insert-IsUnique, remove-IsUnique,
}

abbrev pub outbox_size : ℕ
outbox_size = 256

-- wsEntry: the subscription, what waits for the writer, oldest first, and, once the entry is closed,
-- what Go's select picks in the next calls of enqueue that could send and return alike.
pub record WsEntry : Type 0 where
  pub rule_ids : Map String Bool
  pub outbox : List String
  pub closed : Option (ℕ → Bool)

-- WSManager, with its gauge of active connections and its count of dropped messages.
pub record WsManager : Type 0 where
  pub conns : Map ℕ WsEntry
  pub active : ℕ
  pub dropped : ℕ

abbrev pub is_true : Option Bool → Bool
is_true none = false
is_true (some b) = b

unfoldable pub id_set : List String → Map String Bool → Map String Bool
unfolding insert
id_set [] ids = ids
id_set (rule_id ∷ rule_ids) ids = id_set rule_ids (insert rule_id true ids)

-- enqueue: whether the message went in, and the entry.
unfoldable pub enqueue : String → WsEntry → Bool × WsEntry
enqueue msg entry = elim entry.closed [
  | none ↦
      if ltb (length entry.outbox) outbox_size
      then (true, record entry { outbox = entry.outbox ++ msg ∷ [] })
      else (false, entry)
  | some picks ↦
      let next : Option (ℕ → Bool) = some (λ n. picks (suc n)) in
      if ltb (length entry.outbox) outbox_size && picks 0
      then (true, record entry { outbox = entry.outbox ++ msg ∷ []; closed = next })
      else (false, record entry { closed = next })
]

-- stop: a second call does nothing.
unfoldable pub stop : (ℕ → Bool) → WsEntry → WsEntry
stop picks entry = elim entry.closed [
  | none ↦ record entry { closed = some picks }
  | some _ ↦ entry
]

unfoldable pub connect : ℕ → List String → WsManager → WsManager
unfolding lookup insert id_set
connect conn rule_ids m = elim (lookup conn m.conns) [
  | some entry ↦ record m {
    conns = insert conn (record entry { rule_ids = id_set rule_ids [] }) m.conns;
  }
  | none ↦ record m {
    conns =
        insert conn (record { rule_ids = id_set rule_ids []; outbox = []; closed = none }) m.conns;
    active = m.active + 1;
  }
]

unfoldable pub disconnect : ℕ → WsManager → WsManager
unfolding lookup remove
disconnect conn m = elim (lookup conn m.conns) [
  | some entry ↦ record m { conns = remove conn m.conns; active = m.active - 1 }
  | none ↦ record m { conns = remove conn m.conns }
]

-- WriteToConn: whether it returns ErrOutboxFull, and the manager.
unfoldable pub write_to_conn : ℕ → String → WsManager → Bool × WsManager
unfolding lookup insert enqueue
write_to_conn conn msg m = elim (lookup conn m.conns) [
  | none ↦ (false, m)
  | some entry ↦
      (not (enqueue msg entry).0, record m { conns = insert conn (enqueue msg entry).1 m.conns })
]

-- The loop of Broadcast over the subscribed entries, and the messages that it dropped.
unfoldable pub deliver : String → String → Map ℕ WsEntry → Map ℕ WsEntry × ℕ
unfolding lookup enqueue
deliver rule_id msg [] = ([], 0)
deliver rule_id msg ((conn, entry) ∷ conns) =
    let rest = deliver rule_id msg conns in
    if is_true (lookup rule_id entry.rule_ids)
    then (
      (conn, (enqueue msg entry).1) ∷ rest.0,
      if (enqueue msg entry).0 then rest.1 else suc rest.1,
    )
    else ((conn, entry) ∷ rest.0, rest.1)

-- Broadcast: `msg` is the marshalled delta, or none where json.Marshal fails.
unfoldable pub broadcast : String → Option String → WsManager → WsManager
unfolding deliver
broadcast rule_id none m = m
broadcast rule_id (some msg) m = record m {
  conns = (deliver rule_id msg m.conns).0;
  dropped = m.dropped + (deliver rule_id msg m.conns).1;
}

-- ConnectionCount
unfoldable pub connection_count : WsManager → ℕ
connection_count m = length m.conns

-- The writer takes the oldest message of a connection; without one nothing happens.
abbrev pub tail : List String → List String
tail [] = []
tail (_ ∷ rest) = rest

unfoldable pub take_oldest : ℕ → WsManager → WsManager
unfolding lookup insert
take_oldest conn m = elim (lookup conn m.conns) [
  | none ↦ m
  | some entry ↦ record m {
    conns = insert conn (record entry { outbox = tail entry.outbox }) m.conns;
  }
]

-- What CloseAll does first to an entry that is still in the map.
unfoldable pub stop_conn : ℕ → (ℕ → Bool) → WsManager → WsManager
unfolding lookup insert stop
stop_conn conn picks m = elim (lookup conn m.conns) [
  | none ↦ m
  | some entry ↦ record m { conns = insert conn (stop picks entry) m.conns }
]

-- The loop of CloseAll over the snapshot
unfoldable pub close_each : (ℕ → ℕ → Bool) → Map ℕ WsEntry → WsManager → WsManager
unfolding stop_conn disconnect
close_each picks [] m = m
close_each picks ((conn, _) ∷ rest) m =
    close_each picks rest (disconnect conn (stop_conn conn (picks conn) m))

-- CloseAll, with nothing in between; its steps on one connection are the events `stopped` and
-- `disconnected`, which others may come between.
unfoldable pub close_all : (ℕ → ℕ → Bool) → WsManager → WsManager
unfolding close_each
close_all picks m = close_each picks m.conns m

pub data Event : Type 0 where
  connected : ℕ → List String → Event
  disconnected : ℕ → Event
  written : ℕ → String → Event
  broadcasted : String → Option String → Event
  drained : ℕ → Event
  stopped : ℕ → (ℕ → Bool) → Event
  shut_down : (ℕ → ℕ → Bool) → Event

unfoldable pub handle : Event → WsManager → WsManager
unfolding connect disconnect write_to_conn broadcast take_oldest stop_conn close_all
handle (connected conn rule_ids) m = connect conn rule_ids m
handle (disconnected conn) m = disconnect conn m
handle (written conn msg) m = (write_to_conn conn msg m).1
handle (broadcasted rule_id msg) m = broadcast rule_id msg m
handle (drained conn) m = take_oldest conn m
handle (stopped conn picks) m = stop_conn conn picks m
handle (shut_down picks) m = close_all picks m
