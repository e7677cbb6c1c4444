-- ===== src/Tests/Stores.antt =====
-- The live store, the anomaly store and the subscribers on sample rows.
use velocity_engine_backend.Prelude.{
  ℕ, suc, List, ◌+◌, ◌-◌, String, ◌≡◌, refl, true, [], ◌∷◌, ◌++◌, length, drop, select, none,
  comparable_string, comparable_nat, arith,
}
use velocity_engine_backend.Prelude.Maps.{lookup}
use velocity_engine_backend.Json.{Row, str}
use velocity_engine_backend.LiveStore.{LiveStore, new_live_store, trim_excess}
use velocity_engine_backend.LiveStore.Invariant.{IsConsistent, new_live_store-IsConsistent}
use velocity_engine_backend.LiveStore.Bounded.{IsValid, IsAdded, add-IsAdded}
use velocity_engine_backend.LiveStore.Trim.{IsTrimmed, trim_excess-IsTrimmed}
use velocity_engine_backend.Consumers.{
  AnomalyStore, add_anomaly, get_recent, is_of_rule, Processed, processed,
}
use velocity_engine_backend.Consumers.Loop.{
  Happening, cancel, refuse_consumer, refuse_topics, connect, time_out, read_error, receive,
  connecting, Loop, one_second, by_half, run_loop, IsSteady, failures, run_loop-IsSteady,
}
use velocity_engine_backend.Consumers.Recent.{get_recent_lem, IsLatest, add_anomaly-IsLatest}
use velocity_engine_backend.Sockets.{WsManager, connected, handle}
use velocity_engine_backend.Sockets.Bounded.{IsValid as IsSound, handle-IsValid}
use velocity_engine_backend.Samples.{sample_row, sample_runtime}

abbrev empty_store : LiveStore
empty_store = new_live_store 1 24

empty_store-IsValid : IsValid sample_runtime empty_store
unfolding new_live_store
empty_store-IsValid = record {
  consistent = new_live_store-IsConsistent sample_runtime 1 24;
  bounded = omega arith;
}

add-IsAdded_example : (t : LiveStore) × IsAdded sample_runtime sample_row empty_store t
add-IsAdded_example = add-IsAdded sample_runtime sample_row empty_store empty_store-IsValid

abbrev other_row : Row
other_row = ("ruleId", str "r2") ∷ ("groupKey", str "u2") ∷ []

-- The store after one call of Add.
abbrev one_row_store : LiveStore
one_row_store = (add-IsAdded sample_runtime sample_row empty_store empty_store-IsValid).0

one_row_store-IsAdded : IsAdded sample_runtime sample_row empty_store one_row_store
one_row_store-IsAdded = (add-IsAdded sample_runtime sample_row empty_store empty_store-IsValid).1

-- The same rows under a cap of none.
abbrev over_store : LiveStore
over_store = record one_row_store { max_rows = 0 }

over_store-IsConsistent : IsConsistent sample_runtime over_store
over_store-IsConsistent =
    let c = one_row_store-IsAdded.valid.consistent in
    record {
      unique = c.unique;
      unique_index = c.unique_index;
      named = c.named;
      counted = c.counted;
      indexed = c.indexed;
    }

trim_excess-IsTrimmed_example :
    IsTrimmed sample_runtime
      (over_store.total_rows - over_store.max_rows)
      over_store
      (trim_excess sample_runtime over_store)
trim_excess-IsTrimmed_example =
    trim_excess-IsTrimmed sample_runtime over_store over_store-IsConsistent

abbrev two_anomalies : AnomalyStore
two_anomalies = record { events = sample_row ∷ other_row ∷ []; max_len = 2 }

get_recent_lem_example :
    get_recent "r1" 1 two_anomalies
    ≡ drop
        (length (select (is_of_rule "r1") two_anomalies.events) - 1)
        (select (is_of_rule "r1") two_anomalies.events)
get_recent_lem_example = get_recent_lem "r1" 1 two_anomalies

add_anomaly-IsLatest_example :
    IsLatest
      ((other_row ∷ sample_row ∷ other_row ∷ []) ++ sample_row ∷ [])
      (add_anomaly sample_row two_anomalies)
add_anomaly-IsLatest_example =
    add_anomaly-IsLatest (other_row ∷ sample_row ∷ other_row ∷ []) sample_row two_anomalies refl

abbrev one_client : WsManager
one_client = record {
  conns = (3, record { rule_ids = ("r1", true) ∷ []; outbox = []; closed = none }) ∷ [];
  active = 1;
  dropped = 0;
}

one_client-IsSound : IsSound one_client
unfolding lookup
one_client-IsSound = record { unique = (refl, tt); bounded = (omega arith, tt); active = refl }

handle-IsValid_example : IsSound (handle (connected 4 ("r2" ∷ [])) one_client)
handle-IsValid_example = handle-IsValid (connected 4 ("r2" ∷ [])) one_client one_client-IsSound

-- Two failures, a message, and the end of the context
abbrev happenings : List Happening
happenings =
    refuse_consumer
    ∷ refuse_consumer
    ∷ refuse_topics
    ∷ connect
    ∷ time_out
    ∷ receive "row"
    ∷ read_error
    ∷ connect
    ∷ cancel
    ∷ []

abbrev counting : String → ℕ → Processed ℕ
counting value n = processed (suc n) value []

abbrev starting : Loop ℕ
starting = record {
  place = connecting;
  backoff = one_second;
  waits = [];
  open_consumers = 0;
  store = 0;
}

run_loop-IsSteady_example :
    IsSteady by_half counting (run_loop by_half counting happenings starting)
    × (length (run_loop by_half counting happenings starting).waits
        ≡ failures by_half counting happenings starting + length starting.waits)
run_loop-IsSteady_example =
    run_loop-IsSteady by_half counting happenings starting
      (record { opened = refl; bounded = (omega arith, omega arith); waited = tt })
