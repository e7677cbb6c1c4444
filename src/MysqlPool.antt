-- ===== src/MysqlPool.antt =====
-- internal/services/mysql.go: the pool that is opened at its first use and again after a failure, and the
-- check that the tables are there. database/sql and the server are parameters.
pub mod Tidy
pub mod Schema
use velocity_engine_backend.Prelude.{
  ℕ, suc, ◌≤◌, String, ◌≡◌, ◌≢◌, ◌↔◌, refl, sym, ◌∙◌, ◌⊎◌, inl, inr, Bool, true, false, not, ◌||◌,
  ◌&&◌, List, [], ◌∷◌, Option, none, some, if◌then◌else◌, ◌==◌, comparable_string, ==_iff,
  Bool-cases, Option-cases, All, length, arith,
}
use velocity_engine_backend.Prelude.Maps.{Map, lookup, insert, lookup-insert}

-- `mysqlDB`, by the number of the sql.Open that made it, and how many sql.Open there have been, whose
-- pools `closed` lists.
pub record Pool : Type 0 where
  pub db : Option ℕ
  pub opened : ℕ
  pub closed : List ℕ

-- `opens n` is the success of the n-th sql.Open, `pings n` whether the n-th pool answers its first Ping,
-- `still n` whether it answers one later. `tables n` is what SHOW TABLES yields on it: an error of the
-- query, of a row or at the end, or the names.
pub record Server : Type 0 where
  pub opens : ℕ → Bool
  pub pings : ℕ → Bool
  pub still : ℕ → Bool
  pub tables : ℕ → Option (List String)

module _ (server : Server) where
  -- getMySQLDB: the pool's number, if there is one
  unfoldable pub get_mysql_db : Pool → Option ℕ × Pool
  get_mysql_db pool = elim pool.db [
    | some n ↦ (some n, pool)
    | none ↦
        let n = pool.opened in
        if not (server.opens n)
        then (none, record pool { opened = suc n })
        else if not (server.pings n)
        then (none, record pool { opened = suc n; closed = n ∷ pool.closed })
        else (some n, record { db = some n; opened = suc n; closed = pool.closed })
  ]

-- ResetMySQLConn, and CloseMySQL, whatever Close returns
unfoldable pub reset_mysql_conn : Pool → Pool
reset_mysql_conn pool = elim pool.db [
  | none ↦ pool
  | some n ↦ record pool { db = none; closed = n ∷ pool.closed }
]

module _ (server : Server) where
  -- IsMySQLReady, with the pool that getMySQLDB gave
  unfoldable pub ping_again : Option ℕ × Pool → Bool × Pool
  unfolding reset_mysql_conn
  ping_again (none, p) = (false, p)
  ping_again (some n, p) = if server.still n then (true, p) else (false, reset_mysql_conn p)

  unfoldable pub is_mysql_ready : Pool → Bool × Pool
  unfolding get_mysql_db ping_again
  is_mysql_ready pool = ping_again (get_mysql_db server pool)

abbrev pub required_tables : List String
required_tables =
    "users" ∷ "roles" ∷ "permissions" ∷ "user_roles" ∷ "role_permissions" ∷ "audit_log" ∷ "rules"
    ∷ "window_configs" ∷ "sink_configs" ∷ "aggregation_specs" ∷ "breach_conditions" ∷ []

-- The map of the tables that there are
unfoldable pub found_tables : List String → Map String Bool → Map String Bool
unfolding insert
found_tables [] found = found
found_tables (name ∷ names) found = found_tables names (insert name true found)

-- The loop over the required tables: those for which `found[t]` is false
unfoldable pub missing_tables : Map String Bool → List String → List String
unfolding lookup
missing_tables found [] = []
missing_tables found (t ∷ ts) =
    let rest = missing_tables found ts in
    elim (lookup t found) [ none ↦ t ∷ rest | some there ↦ if there then rest else t ∷ rest ]

-- No connection or no answer, the required tables that are missing, or a schema that is there.
pub data Verified : Type 0 where
  unreachable : Verified
  missing : List String → Verified
  verified : Verified

unfoldable pub verdict : List String → Verified
verdict [] = verified
verdict (t ∷ ts) = missing (t ∷ ts)

-- verifyMySQLSchemaImpl, with the pool that getMySQLDB gave
unfoldable pub check_tables : Server → Option ℕ × Pool → Verified × Pool
unfolding found_tables missing_tables verdict
check_tables server (none, p) = (unreachable, p)
check_tables server (some n, p) = elim (server.tables n) [
  | none ↦ (unreachable, p)
  | some names ↦ (verdict (missing_tables (found_tables names []) required_tables), p)
]

unfoldable pub verify_mysql_schema : Server → Pool → Verified × Pool
unfolding get_mysql_db check_tables
verify_mysql_schema server pool = check_tables server (get_mysql_db server pool)

-- What the rest of the program calls
pub data Call : Type 0 where
  connect check_ready reset close verify : Call

unfoldable pub call : Server → Call → Pool → Pool
unfolding get_mysql_db is_mysql_ready reset_mysql_conn verify_mysql_schema
call server connect p = (get_mysql_db server p).1
call server check_ready p = (is_mysql_ready server p).1
call server reset p = reset_mysql_conn p
call server close p = reset_mysql_conn p
call server verify p = (verify_mysql_schema server p).1

unfoldable pub call_all : Server → List Call → Pool → Pool
unfolding call
call_all server [] p = p
call_all server (c ∷ cs) p = call_all server cs (call server c p)
