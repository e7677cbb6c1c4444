-- ===== src/Historical/Connection.antt =====
-- internal/services/duckdb.go: the pinned DuckDB connection, set up once and torn down after a fatal
-- error. DuckDB, database/sql and the settings are parameters.
pub mod Configured
use velocity_engine_backend.Prelude.{
  ℕ, suc, String, Bool, true, false, not, List, [], ◌∷◌, ◌++◌, map, Option, none, some,
  if◌then◌else◌,
}
use velocity_engine_backend.Prelude.Text.{concat}

-- The settings, and what the code uses of the strings package.
pub record Settings : Type 0 where
  pub s3_endpoint : String
  pub s3_access_key : String
  pub s3_secret_key : String
  pub trim_prefix : String → String → String
  pub has_prefix : String → String → Bool
  pub replace_all : String → String → String → String

-- A connection by its number, with the statements that it has accepted.
pub record Connection : Type 0 where
  pub number : ℕ
  pub accepted : List String

-- duckDBConn, and how many times DuckDB was opened.
pub record Duck : Type 0 where
  pub conn : Option Connection
  pub opened : ℕ

-- `opens n` and `pins n` are the successes of the n-th sql.Open and of its Conn; `accepts` is that of a
-- statement on a connection, after those that it accepted.
pub record DuckServer : Type 0 where
  pub opens : ℕ → Bool
  pub pins : ℕ → Bool
  pub accepts : ℕ → List String → String → Bool

abbrev pub quoted : Settings → String → String
quoted settings s = settings.replace_all s "'" "''"

-- s3Stmts
unfoldable pub s3_statements : Settings → List String
s3_statements settings =
    concat (
      "SET s3_endpoint='"
      ∷ settings.trim_prefix (settings.trim_prefix settings.s3_endpoint "http://") "https://"
      ∷ "'"
      ∷ [])
    ∷ concat ("SET s3_access_key_id='" ∷ quoted settings settings.s3_access_key ∷ "'" ∷ [])
    ∷ concat ("SET s3_secret_access_key='" ∷ quoted settings settings.s3_secret_key ∷ "'" ∷ [])
    ∷ "SET s3_url_style='path'"
    ∷ concat (
        "SET s3_use_ssl="
        ∷ (if settings.has_prefix settings.s3_endpoint "http://" then "false" else "true")
        ∷ [])
    ∷ []

abbrev pub limit_statements : List String
limit_statements = "SET memory_limit='600MB'" ∷ "SET temp_directory='/tmp/duckdb'" ∷ []

abbrev pub extensions : List String
extensions = "iceberg" ∷ "httpfs" ∷ []

abbrev pub load : String → String
load ext = concat ("LOAD " ∷ ext ∷ [])

-- Whether the statements so far have succeeded, and those that were accepted.
abbrev pub Applied : Type 0
Applied = Bool × List String

abbrev pub and_then : Applied → (List String → Applied) → Applied
and_then (true, accepted) next = next accepted
and_then (false, accepted) next = (false, accepted)

module _ (server : DuckServer) (number : ℕ) where
  -- conn.ExecContext
  unfoldable pub exec : String → List String → Applied
  exec stmt accepted =
      if server.accepts number accepted stmt
      then (true, accepted ++ stmt ∷ [])
      else (false, accepted)

  unfoldable pub exec_all : List String → List String → Applied
  unfolding exec
  exec_all [] accepted = (true, accepted)
  exec_all (stmt ∷ stmts) accepted = and_then (exec stmt accepted) (exec_all stmts)

  -- An extension that cannot be loaded is installed first.
  unfoldable pub load_extension : String → List String → Applied
  unfolding exec
  load_extension ext accepted =
      if (exec (load ext) accepted).0
      then exec (load ext) accepted
      else and_then (exec (concat ("INSTALL " ∷ ext ∷ [])) accepted) (exec (load ext))

  unfoldable pub load_extensions : List String → List String → Applied
  unfolding load_extension
  load_extensions [] accepted = (true, accepted)
  load_extensions (ext ∷ exts) accepted =
      and_then (load_extension ext accepted) (load_extensions exts)

  -- configureDuckDBConn
  unfoldable pub configure : Settings → Applied
  unfolding exec_all load_extensions s3_statements
  configure settings =
      and_then (exec_all limit_statements []) (λ limited.
        and_then (load_extensions extensions limited) (exec_all (s3_statements settings)))

-- The end of initDuckDB
unfoldable pub pin : ℕ → Applied → Option Connection × Duck
pin n (true, accepted) =
    let c : Connection = record { number = n; accepted = accepted } in
    (some c, record { conn = some c; opened = suc n })
pin n (false, accepted) = (none, record { conn = none; opened = suc n })

-- initDuckDB
unfoldable pub init_duck_db : DuckServer → Settings → Duck → Option Connection × Duck
unfolding configure pin
init_duck_db server settings d = elim d.conn [
  | some c ↦ (some c, d)
  | none ↦
      let n = d.opened in
      if not (server.opens n)
      then (none, record d { opened = suc n })
      else if not (server.pins n)
      then (none, record d { opened = suc n })
      else pin n (configure server n settings)
]

-- resetDuckDB
abbrev pub reset_duck_db : Duck → Duck
reset_duck_db d = record d { conn = none }

-- maybeResetOnFatal: `fatal` is an error that says that the connection is dead.
unfoldable pub maybe_reset_on_fatal : Bool → Duck → Duck
maybe_reset_on_fatal fatal d = if fatal then reset_duck_db d else d
