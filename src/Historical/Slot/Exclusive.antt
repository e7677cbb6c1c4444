-- ===== src/Historical/Slot/Exclusive.antt =====
-- At most one request runs on the pinned connection of internal/services/duckdb.go, and the slot is
-- free again when all requests have ended.
use velocity_engine_backend.Prelude.{
  ℕ, zero, suc, ◌+◌, ◌-◌, ◌≤◌, ◌<◌, ◌≡◌, refl, sym, ap, ◌∙◌, ◌⊎◌, inl, inr, Bool, true, false, List,
  [], ◌∷◌, Option, none, some, get_elem?, set, All, arith,
}
use velocity_engine_backend.Historical.Slot.{
  Failure, busy, cancelled, init_failed, query_failed, Phase, waiting, holding, running, ended,
  Engine, release, capacity, Step, acquire, time_out, cancel, connect, fail_to_connect, answer,
  refuse, fatal, IsArriving, Reachable, start, then_step, holds, runs, connects, count_by,
}

count_by-set :
    (f : Phase → ℕ) (ps : List Phase) (i : ℕ) (old new : Phase)
    → get_elem? ps i ≡ some old
    → count_by f (set ps i new) + f old ≡ count_by f ps + f new
count_by-set f [] i old new h = ground arith
count_by-set f (p ∷ ps) zero old new h = ground (arith, ap f {x = p} {y = old})
count_by-set f (p ∷ ps) (suc i) old new h = omega (arith, count_by-set f ps i old new h)

count_by-holds : (ps : List Phase) → count_by holds ps ≡ count_by runs ps + count_by connects ps
unfolding holds runs connects
count_by-holds [] = refl
count_by-holds (waiting ∷ ps) = omega (arith, count_by-holds ps)
count_by-holds (holding ∷ ps) = omega (arith, count_by-holds ps)
count_by-holds (running ∷ ps) = omega (arith, count_by-holds ps)
count_by-holds (ended r ∷ ps) = omega (arith, count_by-holds ps)

arriving : (f : Phase → ℕ) (ps : List Phase) → f waiting ≡ 0 → All IsArriving ps → count_by f ps ≡ 0
arriving f [] z a = refl
arriving f (p ∷ ps) z (h, a) = omega (arith, ap f h, arriving f ps z a)

-- The tokens count the holders, at most one, and a query that runs has its connection.
pub record IsExclusive (e : Engine) : Type 0 where
  pub counted : count_by holds e.requests ≡ e.tokens
  pub bounded : e.tokens ≤ capacity
  pub connected : e.pinned ≡ false → count_by runs e.requests ≡ 0

-- One request's phase is replaced, and the tokens follow what it held.
moved-IsExclusive :
    (e : Engine) (i tokens : ℕ) (pinned : Bool) (old new : Phase)
    → get_elem? e.requests i ≡ some old
    → tokens + holds old ≡ e.tokens + holds new
    → tokens ≤ capacity
    → (pinned ≡ false → (e.pinned ≡ false) ⊎ (runs old ≡ 1))
    → (pinned ≡ false → runs new ≡ 0)
    → IsExclusive e
    → IsExclusive (record { tokens = tokens; pinned = pinned; requests = set e.requests i new })
unfolding holds runs connects
moved-IsExclusive e i tokens pinned old new h t b p q v =
    let a = count_by-set holds e.requests i old new h in
    let c = count_by-set runs e.requests i old new h in
    let split = count_by-holds e.requests in
    record {
      counted = omega (arith, a, t, v.counted);
      bounded = b;
      connected = λ n. elim (p n) [
        | inl unpinned ↦ omega (arith, c, q n, v.connected unpinned)
        | inr ran ↦ omega (arith, c, q n, ran, split, v.counted, v.bounded)
      ];
    }

count_by-pos :
    (f : Phase → ℕ) (ps : List Phase) (i : ℕ) (p : Phase)
    → get_elem? ps i ≡ some p
    → f p ≤ count_by f ps
count_by-pos f [] i p h = absurd (ground arith)
count_by-pos f (q ∷ ps) zero p h = ground (arith, ap f {x = q} {y = p})
count_by-pos f (q ∷ ps) (suc i) p h = omega (arith, count_by-pos f ps i p h)

released-IsExclusive :
    (e : Engine) (i : ℕ) (pinned : Bool) (old : Phase) (result : Option Failure)
    → get_elem? e.requests i ≡ some old
    → holds old ≡ 1
    → (pinned ≡ false → (e.pinned ≡ false) ⊎ (runs old ≡ 1))
    → IsExclusive e
    → IsExclusive (release i result (record e { pinned = pinned }))
unfolding holds runs
released-IsExclusive e i pinned old result h o p v =
    moved-IsExclusive e i (e.tokens - 1) pinned old (ended result) h
      (omega (arith, o, v.counted, count_by-pos holds e.requests i old h))
      (omega (arith, v.bounded)) p (λ n. refl) v

Step-IsExclusive : {e f : Engine} → Step e f → IsExclusive e → IsExclusive f
unfolding holds runs
Step-IsExclusive (acquire e i h l) v =
    moved-IsExclusive e i (suc e.tokens) e.pinned waiting holding h (omega arith) (omega (arith, l))
      (λ n. inl n) (λ n. refl) v
Step-IsExclusive (time_out e i h) v =
    moved-IsExclusive e i e.tokens e.pinned waiting (ended (some busy)) h refl v.bounded
      (λ n. inl n) (λ n. refl) v
Step-IsExclusive (cancel e i h) v =
    moved-IsExclusive e i e.tokens e.pinned waiting (ended (some cancelled)) h refl v.bounded
      (λ n. inl n) (λ n. refl) v
Step-IsExclusive (connect e i h) v =
    moved-IsExclusive e i e.tokens true holding running h refl v.bounded
      (λ n. absurd (ground arith)) (λ n. absurd (ground arith)) v
Step-IsExclusive (fail_to_connect e i h n) v =
    released-IsExclusive e i e.pinned holding (some init_failed) h refl (λ m. inl m) v
Step-IsExclusive (answer e i h) v =
    released-IsExclusive e i e.pinned running none h refl (λ m. inl m) v
Step-IsExclusive (refuse e i h) v =
    released-IsExclusive e i e.pinned running (some query_failed) h refl (λ m. inl m) v
Step-IsExclusive (fatal e i h) v =
    released-IsExclusive e i false running (some query_failed) h refl (λ m. inr refl) v

-- Whatever the order in which requests wait, give up, run and fail: the slot has as many tokens as
-- there are requests behind acquireDuckDB, at most one, and while a query runs the connection that it
-- runs on has not been torn down.
pub Reachable-IsExclusive : {e : Engine} → Reachable e → IsExclusive e
unfolding holds runs
Reachable-IsExclusive (start e z a) =
    let h = arriving holds e.requests refl a in
    let r = arriving runs e.requests refl a in
    record { counted = omega (arith, h, z); bounded = omega (arith, z); connected = λ p. r }
Reachable-IsExclusive (then_step e f r s) = Step-IsExclusive s (Reachable-IsExclusive r)

abbrev pub IsEnded : Phase → Type 0
IsEnded p = (result : Option Failure) × (p ≡ ended result)

-- What a request has before it: to wait, to connect, to run.
unfoldable pub ahead : Phase → ℕ
ahead waiting = 3
ahead holding = 2
ahead running = 1
ahead (ended _) = 0

-- Every step of any request brings the requests nearer to their ends, three steps for each at most: no
-- order of steps goes on for ever.
pub Step-ahead : {e f : Engine} → Step e f → count_by ahead f.requests < count_by ahead e.requests
unfolding ahead
Step-ahead (acquire e i h l) = omega (arith, count_by-set ahead e.requests i waiting holding h)
Step-ahead (time_out e i h) =
    omega (arith, count_by-set ahead e.requests i waiting (ended (some busy)) h)
Step-ahead (cancel e i h) =
    omega (arith, count_by-set ahead e.requests i waiting (ended (some cancelled)) h)
Step-ahead (connect e i h) = omega (arith, count_by-set ahead e.requests i holding running h)
Step-ahead (fail_to_connect e i h n) =
    omega (arith, count_by-set ahead e.requests i holding (ended (some init_failed)) h)
Step-ahead (answer e i h) = omega (arith, count_by-set ahead e.requests i running (ended none) h)
Step-ahead (refuse e i h) =
    omega (arith, count_by-set ahead e.requests i running (ended (some query_failed)) h)
Step-ahead (fatal e i h) =
    omega (arith, count_by-set ahead e.requests i running (ended (some query_failed)) h)

-- `ps` stands among the requests, at the places `place`.
stuck-All :
    (e : Engine) (ps : List Phase) (place : ℕ → ℕ)
    → ((i : ℕ) (p : Phase) → get_elem? ps i ≡ some p → get_elem? e.requests (place i) ≡ some p)
    → ((f : Engine) → ¬ Step e f)
    → All IsEnded ps
stuck-All e [] place h stuck = tt
stuck-All e (waiting ∷ ps) place h stuck =
    absurd (stuck _ (time_out e (place 0) (h 0 waiting refl)))
stuck-All e (holding ∷ ps) place h stuck = absurd (stuck _ (connect e (place 0) (h 0 holding refl)))
stuck-All e (running ∷ ps) place h stuck = absurd (stuck _ (answer e (place 0) (h 0 running refl)))
stuck-All e (ended result ∷ ps) place h stuck =
    ((result, refl), stuck-All e ps (λ i. place (suc i)) (λ i p m. h (suc i) p m) stuck)

ended-holds : (ps : List Phase) → All IsEnded ps → count_by holds ps ≡ 0
unfolding holds
ended-holds [] a = refl
ended-holds (p ∷ ps) ((result, q), a) = omega (arith, ap holds q, ended-holds ps a)

-- A reachable state in which no request can make a step is one in which every request has ended and
-- the slot is free.
pub Reachable-final :
    (e : Engine)
    → Reachable e
    → ((f : Engine) → ¬ Step e f)
    → All IsEnded e.requests × (e.tokens ≡ 0)
Reachable-final e r stuck =
    let all_ended = stuck-All e e.requests (λ i. i) (λ i p m. m) stuck in
    let v = Reachable-IsExclusive r in (all_ended, sym v.counted ∙ ended-holds e.requests all_ended)
