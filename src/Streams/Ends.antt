-- ===== src/Streams/Ends.antt =====
-- What a WebSocket stream leaves behind.
use velocity_engine_backend.Prelude.{
  ℕ, ◌≡◌, refl, ◌∙◌, Bool, true, List, [], ◌∷◌, none, ◌==◌, ==_self, comparable_nat,
  comparable_string, Bool-cases, Option-cases, inl, inr, arith,
}
use velocity_engine_backend.Prelude.Maps.{lookup, lookup-remove}
use velocity_engine_backend.Json.{at, as_string}
use velocity_engine_backend.Runtime.{Decoded, malformed, nil_map, object}
use velocity_engine_backend.Sockets.{
  WsManager, connected, disconnected, written, connect, disconnect, write_to_conn, handle,
}
use velocity_engine_backend.Sockets.Bounded.{IsValid, handle-IsValid}
use velocity_engine_backend.Streams.{
  Occurrence, read_failed, timed_out, read_text, elsewhere, requested, Endpoint, on_message,
  run_stream,
}

lookup-disconnect :
    (conn : ℕ) (m : WsManager) → IsValid m → lookup conn (disconnect conn m).conns ≡ none
unfolding disconnect
lookup-disconnect conn m v = elim (Option-cases (lookup conn m.conns)) [
  | inl q ↦ rw (q, disconnect) (lookup-remove conn conn m.conns v.unique ∙ rw (==_self conn) refl)
  | inr (entry, q) ↦
      rw (q, disconnect) (lookup-remove conn conn m.conns v.unique ∙ rw (==_self conn) refl)
]

-- A stream that has ended has left the manager, which is valid.
pub record IsLeft (conn : ℕ) (r : Bool × WsManager) : Type 0 where
  pub valid : IsValid r.1
  pub gone : r.0 ≡ true → lookup conn r.1.conns ≡ none

module _ {S : Type 0} (endpoint : Endpoint S) where
  on_message-IsValid :
      (conn : ℕ) (d : Decoded) (s : S) (m : WsManager)
      → IsValid m
      → IsValid (on_message endpoint conn d s m).1
  unfolding on_message
  on_message-IsValid conn malformed s m v = v
  on_message-IsValid conn nil_map s m v = v
  on_message-IsValid conn (object msg) s m v =
      let rule_ids = requested (at "rule_ids" msg) in
      elim (Bool-cases (as_string (at "type" msg) == "subscribe")) [
        | inl q ↦ rw q (
            unfold handle in
            handle-IsValid (written conn (endpoint.bootstrap rule_ids s)) (connect conn rule_ids m)
              (handle-IsValid (connected conn rule_ids) m v))
        | inr q ↦ rw q v
      ]

  -- Whatever a stream reads, and whatever other streams and the broadcasts do in between, the manager
  -- keeps its connections unique, their outboxes bounded and its gauge right; and once the stream has
  -- ended, its connection is no longer subscribed.
  pub run_stream-IsLeft :
      (conn : ℕ) (occurrences : List (Occurrence S)) (m : WsManager)
      → IsValid m
      → IsLeft conn (run_stream endpoint conn occurrences m)
  unfolding run_stream handle
  run_stream-IsLeft conn [] m v = record { valid = v; gone = λ e. absurd (ground arith) }
  run_stream-IsLeft conn (read_failed ∷ rest) m v = record {
    valid = handle-IsValid (disconnected conn) m v;
    gone = λ e. lookup-disconnect conn m v;
  }
  run_stream-IsLeft conn (timed_out ∷ rest) m v =
      run_stream-IsLeft conn rest (write_to_conn conn endpoint.heartbeat m).1
        (handle-IsValid (written conn endpoint.heartbeat) m v)
  run_stream-IsLeft conn (elsewhere event ∷ rest) m v =
      run_stream-IsLeft conn rest (handle event m) (handle-IsValid event m v)
  run_stream-IsLeft conn (read_text text s ∷ rest) m v =
      let r = on_message endpoint conn (endpoint.unmarshal text) s m in
      let after = on_message-IsValid conn (endpoint.unmarshal text) s m v in
      elim (Bool-cases r.0) [
        | inl q ↦ rw q (record {
          valid = handle-IsValid (disconnected conn) r.1 after;
          gone = λ e. lookup-disconnect conn r.1 after;
        })
        | inr q ↦ rw q (run_stream-IsLeft conn rest r.1 after)
      ]
