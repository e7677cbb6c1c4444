-- ===== src/Consumers/Loop.antt =====
-- The run loops of internal/services/consumer.go and anomaly_consumer.go: connect, read, and connect again.
-- What Kafka and the context do is a list of happenings. What a message does to the store is a parameter:
-- it may panic, which no deferred call recovers from, so that the process ends.
use velocity_engine_backend.Prelude.{
  ℕ, suc, ◌+◌, ◌-◌, ◌*◌, ◌/◌, ◌≤◌, ◌<◌, String, ◌≡◌, refl, ap, ◌∙◌, Bool, true, false, List, [],
  ◌∷◌, if◌then◌else◌, ltb, All, length, arith,
}
use velocity_engine_backend.Consumers.{Processed, skipped, panicked, processed}

-- What happens next: the context ends, NewConsumer fails, SubscribeTopics fails, both succeed, ReadMessage
-- times out, fails, or returns a message.
pub data Happening : Type 0 where
  cancel : Happening
  refuse_consumer refuse_topics connect : Happening
  time_out read_error : Happening
  receive : String → Happening

-- In the outer loop, in the inner one, returned, or ended by a panic.
pub data Place : Type 0 where
  connecting subscribed returned crashed : Place

-- `waits` are the delays begun so far, the last one first, `open_consumers` counts the consumers that are not closed.
pub record Loop {ℓ} (S : Type ℓ) : Type ℓ where
  pub place : Place
  pub backoff : ℕ
  pub waits : List ℕ
  pub open_consumers : ℕ
  pub store : S

abbrev pub one_second : ℕ
one_second = 1000000000

-- ResultsConsumer lets the backoff grow by half, AnomalyConsumer doubles it, below thirty seconds.
pub data Growth : Type 0 where
  by_half doubled : Growth

abbrev pub times : Growth → ℕ → ℕ
times by_half backoff = backoff * 3 / 2
times doubled backoff = backoff * 2

unfoldable pub grown : Growth → ℕ → ℕ
grown growth backoff = if ltb backoff (30 * one_second) then times growth backoff else backoff

module _ {ℓ} {S : Type ℓ} (growth : Growth) (process : String → S → Processed S) where
  unfoldable pub connect_step : Happening → Loop S → Loop S
  unfolding grown
  connect_step cancel l = record l { place = returned }
  connect_step refuse_consumer l = record l {
    waits = l.backoff ∷ l.waits;
    backoff = grown growth l.backoff;
  }
  connect_step refuse_topics l = record l { waits = l.backoff ∷ l.waits }
  connect_step connect l = record l {
    place = subscribed;
    backoff = one_second;
    open_consumers = suc l.open_consumers;
  }
  connect_step _ l = l

  unfoldable pub after_message : Processed S → Loop S → Loop S
  after_message skipped l = l
  after_message panicked l = record l { place = crashed }
  after_message (processed s _ _) l = record l { store = s }

  unfoldable pub read_step : Happening → Loop S → Loop S
  unfolding after_message
  read_step cancel l = record l { place = returned; open_consumers = l.open_consumers - 1 }
  read_step read_error l = record l { place = connecting; open_consumers = l.open_consumers - 1 }
  read_step (receive value) l = after_message (process value l.store) l
  read_step _ l = l

  unfoldable pub loop_step : Place → Happening → Loop S → Loop S
  unfolding connect_step read_step
  loop_step connecting h l = connect_step h l
  loop_step subscribed h l = read_step h l
  loop_step returned h l = l
  loop_step crashed h l = l

  unfoldable pub run_loop : List Happening → Loop S → Loop S
  unfolding loop_step
  run_loop [] l = l
  run_loop (h ∷ hs) l = run_loop hs (loop_step l.place h l)

  abbrev pub IsBounded : ℕ → Type 0
  IsBounded wait = (one_second ≤ wait) × (wait < 60 * one_second)

  -- How many consumers are open at a place
  abbrev pub opened_at : Place → ℕ
  opened_at connecting = 0
  opened_at subscribed = 1
  opened_at returned = 0
  opened_at crashed = 1

  pub record IsSteady (l : Loop S) : Type 0 where
    pub opened : l.open_consumers ≡ opened_at l.place
    pub bounded : IsBounded l.backoff
    pub waited : All IsBounded l.waits

  -- Does an attempt to connect fail here?
  abbrev pub is_failure : Place → Happening → Bool
  is_failure connecting refuse_consumer = true
  is_failure connecting refuse_topics = true
  is_failure _ _ = false

  -- How many attempts to connect fail in a run
  unfoldable pub failures : List Happening → Loop S → ℕ
  unfolding loop_step
  failures [] l = 0
  failures (h ∷ hs) l =
      let later = failures hs (loop_step l.place h l) in
      if is_failure l.place h then suc later else later

  grown-IsBounded : (g : Growth) (backoff : ℕ) → IsBounded backoff → IsBounded (grown g backoff)
  unfolding grown
  grown-IsBounded by_half backoff (low, high) = (ground arith, ground arith)
  grown-IsBounded doubled backoff (low, high) = (ground arith, ground arith)

  connect_step-IsSteady :
      (h : Happening) (l : Loop S)
      → l.open_consumers ≡ 0
      → IsBounded l.backoff
      → All IsBounded l.waits
      → l.place ≡ connecting
      → IsSteady (connect_step h l)
  unfolding connect_step
  connect_step-IsSteady cancel l o b w p = record { opened = o; bounded = b; waited = w }
  connect_step-IsSteady refuse_consumer l o b w p = record {
    opened = rw p o;
    bounded = grown-IsBounded growth l.backoff b;
    waited = (b, w);
  }
  connect_step-IsSteady refuse_topics l o b w p = record {
    opened = rw p o;
    bounded = b;
    waited = (b, w);
  }
  connect_step-IsSteady connect l o b w p = record {
    opened = omega (arith, o);
    bounded = (omega arith, omega arith);
    waited = w;
  }
  connect_step-IsSteady time_out l o b w p = record { opened = rw p o; bounded = b; waited = w }
  connect_step-IsSteady read_error l o b w p = record { opened = rw p o; bounded = b; waited = w }
  connect_step-IsSteady (receive value) l o b w p = record {
    opened = rw p o;
    bounded = b;
    waited = w;
  }

  after_message-IsSteady :
      (outcome : Processed S) (l : Loop S)
      → l.open_consumers ≡ 1
      → IsBounded l.backoff
      → All IsBounded l.waits
      → l.place ≡ subscribed
      → IsSteady (after_message outcome l)
  unfolding after_message
  after_message-IsSteady skipped l o b w p = record { opened = rw p o; bounded = b; waited = w }
  after_message-IsSteady panicked l o b w p = record { opened = o; bounded = b; waited = w }
  after_message-IsSteady (processed s _ _) l o b w p = record {
    opened = rw p o;
    bounded = b;
    waited = w;
  }

  read_step-IsSteady :
      (h : Happening) (l : Loop S)
      → l.open_consumers ≡ 1
      → IsBounded l.backoff
      → All IsBounded l.waits
      → l.place ≡ subscribed
      → IsSteady (read_step h l)
  unfolding read_step
  read_step-IsSteady cancel l o b w p = record {
    opened = omega (arith, o);
    bounded = b;
    waited = w;
  }
  read_step-IsSteady read_error l o b w p = record {
    opened = omega (arith, o);
    bounded = b;
    waited = w;
  }
  read_step-IsSteady (receive value) l o b w p =
      after_message-IsSteady (process value l.store) l o b w p
  read_step-IsSteady refuse_consumer l o b w p = record { opened = rw p o; bounded = b; waited = w }
  read_step-IsSteady refuse_topics l o b w p = record { opened = rw p o; bounded = b; waited = w }
  read_step-IsSteady connect l o b w p = record { opened = rw p o; bounded = b; waited = w }
  read_step-IsSteady time_out l o b w p = record { opened = rw p o; bounded = b; waited = w }

  loop_step-IsSteady :
      (place : Place) (h : Happening) (l : Loop S)
      → l.place ≡ place
      → IsSteady l
      → IsSteady (loop_step place h l)
  unfolding loop_step
  loop_step-IsSteady connecting h l p v =
      connect_step-IsSteady h l (v.opened ∙ ap opened_at p) v.bounded v.waited p
  loop_step-IsSteady subscribed h l p v =
      read_step-IsSteady h l (v.opened ∙ ap opened_at p) v.bounded v.waited p
  loop_step-IsSteady returned h l p v = v
  loop_step-IsSteady crashed h l p v = v

  length-after_message :
      (outcome : Processed S) (l : Loop S) → length (after_message outcome l).waits ≡ length l.waits
  unfolding after_message
  length-after_message skipped l = refl
  length-after_message panicked l = refl
  length-after_message (processed s _ _) l = refl

  -- A step sleeps once where it is a failed attempt, and not otherwise.
  length-loop_step :
      (place : Place) (h : Happening) (l : Loop S)
      → length (loop_step place h l).waits
        ≡ (if is_failure place h then suc (length l.waits) else length l.waits)
  unfolding loop_step connect_step read_step
  length-loop_step connecting cancel l = refl
  length-loop_step connecting refuse_consumer l = refl
  length-loop_step connecting refuse_topics l = refl
  length-loop_step connecting connect l = refl
  length-loop_step connecting time_out l = refl
  length-loop_step connecting read_error l = refl
  length-loop_step connecting (receive value) l = refl
  length-loop_step subscribed cancel l = refl
  length-loop_step subscribed refuse_consumer l = refl
  length-loop_step subscribed refuse_topics l = refl
  length-loop_step subscribed connect l = refl
  length-loop_step subscribed time_out l = refl
  length-loop_step subscribed read_error l = refl
  length-loop_step subscribed (receive value) l = length-after_message (process value l.store) l
  length-loop_step returned h l = refl
  length-loop_step crashed h l = refl

  -- Whatever happens: one consumer is open while messages are read, none while the loop connects and
  -- once it has returned, and one where a panic has ended the process; the loop sleeps exactly once for
  -- each attempt to connect that fails, and not after an error of a read; and if every delay so far was
  -- at least one second and less than 60, as is the backoff, every delay is.
  pub run_loop-IsSteady :
      (hs : List Happening) (l : Loop S)
      → IsSteady l
      → IsSteady (run_loop hs l) × (length (run_loop hs l).waits ≡ failures hs l + length l.waits)
  unfolding run_loop failures
  run_loop-IsSteady [] l v = (v, omega arith)
  run_loop-IsSteady (h ∷ hs) l v =
      let after = loop_step l.place h l in
      let (steady, slept) = run_loop-IsSteady hs after (loop_step-IsSteady l.place h l refl v) in
      (steady, ground (arith, slept, length-loop_step l.place h l))
