-- ===== src/Historical/Slot.antt =====
-- The one query slot of internal/services/duckdb.go and its pinned connection, shared by the requests
-- that RunHistoricalAnalysis and RunHistoricalBreakdown serve at the same time.
pub mod Exclusive
use velocity_engine_backend.Prelude.{
  ℕ, zero, suc, ◌+◌, ◌-◌, ◌≤◌, ◌<◌, String, ◌≡◌, refl, sym, ap, ◌∙◌, ◌≢◌, ◌⊎◌, inl, inr, Bool, true,
  false, List, [], ◌∷◌, Option, none, some, get_elem?, set, All, if◌then◌else◌, Bool-cases, arith,
}

-- Why a request ends with an error: ErrHistoricalEngineBusy, its context's end, or an error of the
-- connection or of the query.
pub data Failure : Type 0 where
  busy : Failure
  cancelled : Failure
  init_failed : Failure
  query_failed : Failure

-- duckdbErrorClass
unfoldable pub duckdb_error_class : Failure → String
duckdb_error_class busy = "busy"
duckdb_error_class _ = "query_error"

-- Where a request stands: in acquireDuckDB, behind it, past initDuckDB, or at its end.
pub data Phase : Type 0 where
  waiting : Phase
  holding : Phase
  running : Phase
  ended : Option Failure → Phase

-- duckDBSem as the number of its tokens, whether duckDBConn is there, and the requests.
pub record Engine : Type 0 where
  pub tokens : ℕ
  pub pinned : Bool
  pub requests : List Phase

abbrev pub advance : ℕ → Phase → Engine → Engine
advance i p e = record e { requests = set e.requests i p }

-- The end of a request that holds the slot: release takes a token from the channel.
abbrev pub release : ℕ → Option Failure → Engine → Engine
release i result e = record e { tokens = e.tokens - 1; requests = set e.requests i (ended result) }

-- The capacity of duckDBSem
abbrev pub capacity : ℕ
capacity = 1

-- The steps of the requests. `fatal` is an error for which maybeResetOnFatal calls resetDuckDB.
pub data Step : Engine → Engine → Type 0 where
  acquire :
      (e : Engine) (i : ℕ)
      → get_elem? e.requests i ≡ some waiting
      → e.tokens < capacity
      → Step e (record e { tokens = suc e.tokens; requests = set e.requests i holding })
  time_out :
      (e : Engine) (i : ℕ)
      → get_elem? e.requests i ≡ some waiting
      → Step e (advance i (ended (some busy)) e)
  cancel :
      (e : Engine) (i : ℕ)
      → get_elem? e.requests i ≡ some waiting
      → Step e (advance i (ended (some cancelled)) e)
  connect :
      (e : Engine) (i : ℕ)
      → get_elem? e.requests i ≡ some holding
      → Step e (record e { pinned = true; requests = set e.requests i running })
  fail_to_connect :
      (e : Engine) (i : ℕ)
      → get_elem? e.requests i ≡ some holding
      → e.pinned ≡ false
      → Step e (release i (some init_failed) e)
  answer : (e : Engine) (i : ℕ) → get_elem? e.requests i ≡ some running → Step e (release i none e)
  refuse :
      (e : Engine) (i : ℕ)
      → get_elem? e.requests i ≡ some running
      → Step e (release i (some query_failed) e)
  fatal :
      (e : Engine) (i : ℕ)
      → get_elem? e.requests i ≡ some running
      → Step e (release i (some query_failed) (record e { pinned = false }))

abbrev pub IsArriving : Phase → Type 0
IsArriving p = p ≡ waiting

-- The states that some requests, all arriving at a free slot, can reach.
pub data Reachable : Engine → Type 0 where
  start : (e : Engine) → e.tokens ≡ 0 → All IsArriving e.requests → Reachable e
  then_step : (e f : Engine) → Reachable e → Step e f → Reachable f

unfoldable pub holds : Phase → ℕ
holds waiting = 0
holds holding = 1
holds running = 1
holds (ended _) = 0

unfoldable pub runs : Phase → ℕ
runs running = 1
runs waiting = 0
runs holding = 0
runs (ended _) = 0

-- Behind acquireDuckDB, in front of the query
unfoldable pub connects : Phase → ℕ
connects holding = 1
connects waiting = 0
connects running = 0
connects (ended _) = 0

abbrev pub count_by : (Phase → ℕ) → List Phase → ℕ
count_by f [] = 0
count_by f (p ∷ ps) = f p + count_by f ps
