-- ===== src/Historical/Connection/Configured.antt =====
-- No query of internal/services/duckdb.go runs on a connection that is not set up.
use velocity_engine_backend.Prelude.{
  ℕ, String, ◌≡◌, refl, sym, ap, ◌∙◌, Bool, true, false, ◌||◌, inl, inr, List, [], ◌∷◌, ◌++◌, map,
  Option, none, some, ◌==◌, comparable_string, ==_self, Bool-cases, Option-cases, All, arith,
}
use velocity_engine_backend.Prelude.Text.{concat}
use velocity_engine_backend.Historical.Connection.{
  Settings, Connection, Duck, DuckServer, s3_statements, limit_statements, extensions, load,
  Applied, and_then, exec, exec_all, load_extension, load_extensions, configure, pin, init_duck_db,
  maybe_reset_on_fatal,
}

abbrev pub is_in : String → List String → Bool
is_in s [] = false
is_in s (t ∷ ts) = t == s || is_in s ts

abbrev pub AreIn : List String → List String → Type 0
AreIn stmts accepted = All (λ stmt. is_in stmt accepted ≡ true) stmts

-- The limits, both extensions and the credentials were accepted.
abbrev pub IsSetUp : Settings → List String → Type 0
IsSetUp settings accepted =
    AreIn limit_statements accepted
    × AreIn (map load extensions) accepted
    × AreIn (s3_statements settings) accepted

-- The connection in use, if there is one, is set up.
abbrev pub IsConfigured : Settings → Duck → Type 0
IsConfigured settings d = (c : Connection) → d.conn ≡ some c → IsSetUp settings c.accepted

is_in-append : (s : String) (ts us : List String) → is_in s ts ≡ true → is_in s (ts ++ us) ≡ true
is_in-append s [] us h = absurd (ground arith)
is_in-append s (t ∷ ts) us h = ground (arith, is_in-append s ts us)

is_in-last : (s : String) (ts : List String) → is_in s (ts ++ s ∷ []) ≡ true
is_in-last s [] = ground (arith, ==_self s)
is_in-last s (t ∷ ts) = ground (arith, is_in-last s ts)

-- What was accepted stays accepted.
abbrev IsMore : List String → List String → Type 0
IsMore before after = (s : String) → is_in s before ≡ true → is_in s after ≡ true

AreIn-IsMore :
    (stmts before after : List String)
    → IsMore before after
    → AreIn stmts before
    → AreIn stmts after
AreIn-IsMore [] before after more a = tt
AreIn-IsMore (s ∷ stmts) before after more (h, a) =
    (more s h, AreIn-IsMore stmts before after more a)

module _ (server : DuckServer) (number : ℕ) where
  exec-IsMore :
      (stmt : String) (accepted : List String)
      → IsMore accepted (exec server number stmt accepted).1
  unfolding exec
  exec-IsMore stmt accepted s h = elim (Bool-cases (server.accepts number accepted stmt)) [
    | inl q ↦ rw (exec, q) (is_in-append s accepted (stmt ∷ []) h)
    | inr q ↦ rw (exec, q) h
  ]

  exec-accepted :
      (stmt : String) (accepted : List String)
      → (exec server number stmt accepted).0 ≡ true
      → is_in stmt (exec server number stmt accepted).1 ≡ true
  unfolding exec
  exec-accepted stmt accepted t = elim (Bool-cases (server.accepts number accepted stmt)) [
    | inl q ↦ rw (exec, q) (is_in-last stmt accepted)
    | inr q ↦ absurd (ground arith)
  ]

  -- A part of the set-up that, where it succeeds, has added these statements
  abbrev Adds : List String → List String → Applied → Type 0
  Adds stmts before applied = IsMore before applied.1 × (applied.0 ≡ true → AreIn stmts applied.1)

  and_then-Adds :
      (first : List String) (Second : List String → Type 0) (before : List String)
      (applied : Applied) (next : List String → Applied)
      → Adds first before applied
      → ((accepted : List String)
          → IsMore accepted (next accepted).1
            × ((next accepted).0 ≡ true → Second (next accepted).1))
      → IsMore before (and_then applied next).1
        × ((and_then applied next).0 ≡ true
            → AreIn first (and_then applied next).1 × Second (and_then applied next).1)
  and_then-Adds first Second before (false, mid) next (more, a) b =
      (more, λ t. absurd (ground arith))
  and_then-Adds first Second before (true, mid) next (more, a) b = (
    λ s h. (b mid).0 s (more s h),
    λ t. (AreIn-IsMore first mid (next mid).1 (b mid).0 (a refl), (b mid).1 t),
  )

  exec-Adds :
      (stmt : String) (accepted : List String)
      → Adds (stmt ∷ []) accepted (exec server number stmt accepted)
  exec-Adds stmt accepted = (exec-IsMore stmt accepted, λ t. (exec-accepted stmt accepted t, tt))

  exec_all-Adds :
      (stmts accepted : List String) → Adds stmts accepted (exec_all server number stmts accepted)
  unfolding exec_all
  exec_all-Adds [] accepted = (λ s h. h, λ t. tt)
  exec_all-Adds (stmt ∷ stmts) accepted =
      let (more, both) =
        and_then-Adds (stmt ∷ []) (AreIn stmts) accepted (exec server number stmt accepted)
          (exec_all server number stmts) (exec-Adds stmt accepted) (exec_all-Adds stmts) in
      (more, λ t. ((both t).0.0, (both t).1))

  load_extension-Adds :
      (ext : String) (accepted : List String)
      → Adds (load ext ∷ []) accepted (load_extension server number ext accepted)
  unfolding load_extension
  load_extension-Adds ext accepted = elim (Bool-cases (exec server number (load ext) accepted).0) [
    | inl q ↦ rw (load_extension, q) (exec-Adds (load ext) accepted)
    | inr q ↦
        let (more, both) =
          and_then-Adds (concat ("INSTALL " ∷ ext ∷ []) ∷ []) (AreIn (load ext ∷ [])) accepted
            (exec server number (concat ("INSTALL " ∷ ext ∷ [])) accepted)
            (exec server number (load ext)) (exec-Adds (concat ("INSTALL " ∷ ext ∷ [])) accepted)
            (exec-Adds (load ext)) in
        rw (load_extension, q) (more, λ t. (both t).1)
  ]

  load_extensions-Adds :
      (exts accepted : List String)
      → Adds (map load exts) accepted (load_extensions server number exts accepted)
  unfolding load_extensions
  load_extensions-Adds [] accepted = (λ s h. h, λ t. tt)
  load_extensions-Adds (ext ∷ exts) accepted =
      let (more, both) =
        and_then-Adds (load ext ∷ []) (AreIn (map load exts)) accepted
          (load_extension server number ext accepted) (load_extensions server number exts)
          (load_extension-Adds ext accepted) (load_extensions-Adds exts) in
      (more, λ t. ((both t).0.0, (both t).1))

  configure-IsSetUp :
      (settings : Settings)
      → (configure server number settings).0 ≡ true
      → IsSetUp settings (configure server number settings).1
  unfolding configure
  configure-IsSetUp settings t =
      let rest = λ (limited : List String).
        and_then-Adds (map load extensions) (AreIn (s3_statements settings)) limited
          (load_extensions server number extensions limited)
          (exec_all server number (s3_statements settings))
          (load_extensions-Adds extensions limited) (exec_all-Adds (s3_statements settings)) in
      let (limits, others) =
        (and_then-Adds limit_statements
            (λ accepted.
              AreIn (map load extensions) accepted × AreIn (s3_statements settings) accepted)
            [] (exec_all server number limit_statements [])
            (λ limited.
              and_then (load_extensions server number extensions limited)
                (exec_all server number (s3_statements settings)))
            (exec_all-Adds limit_statements []) rest).1
          t in
      (limits, others.0, others.1)

abbrev accepted_of : Option Connection → List String
accepted_of none = []
accepted_of (some c) = c.accepted

module _ (server : DuckServer) (settings : Settings) where
  pin-IsConfigured :
      (n : ℕ) (applied : Applied)
      → (applied.0 ≡ true → IsSetUp settings applied.1)
      → IsConfigured settings (pin n applied).1
        × ((c : Connection) → (pin n applied).0 ≡ some c → IsSetUp settings c.accepted)
  unfolding pin
  pin-IsConfigured n (false, accepted) h =
      (λ c e. absurd (ground arith), λ c e. absurd (ground arith))
  pin-IsConfigured n (true, accepted) h = (λ c e. given c e, λ c e. given c e)
    where
      given :
          (c : Connection)
          → ◌≡◌ {A = Option Connection} (some (record { number = n; accepted = accepted })) (some c)
          → IsSetUp settings c.accepted
      given c e = rw (sym (ap accepted_of e)) (h refl)

  -- initDuckDB gives a connection only if the memory limit, both extensions and all the settings for S3
  -- were accepted on it, if that holds of the connection in use, and then it still does.
  pub init_duck_db-IsConfigured :
      (d : Duck)
      → IsConfigured settings d
      → IsConfigured settings (init_duck_db server settings d).1
        × ((c : Connection)
            → (init_duck_db server settings d).0 ≡ some c
            → IsSetUp settings c.accepted)
  unfolding init_duck_db
  init_duck_db-IsConfigured d v = elim (Option-cases d.conn) [
    | inr (c, q) ↦ rw (init_duck_db, q) (v, λ b e. v b (q ∙ e))
    | inl q ↦ elim (Bool-cases (server.opens d.opened)) [
      | inr o ↦ rw (init_duck_db, q, o) (λ c e. absurd (ground arith), λ c e. absurd (ground arith))
      | inl o ↦ elim (Bool-cases (server.pins d.opened)) [
        | inr p ↦
            rw (init_duck_db, q, o, p) (λ c e. absurd (ground arith), λ c e. absurd (ground arith))
        | inl p ↦
            rw (init_duck_db, q, o, p)
              (pin-IsConfigured d.opened (configure server d.opened settings)
                (configure-IsSetUp server d.opened settings))
      ]
    ]
  ]

  pub maybe_reset_on_fatal-IsConfigured :
      (is_fatal : Bool) (d : Duck)
      → IsConfigured settings d
      → IsConfigured settings (maybe_reset_on_fatal is_fatal d)
  unfolding maybe_reset_on_fatal
  maybe_reset_on_fatal-IsConfigured true d v = λ c e. absurd (ground arith)
  maybe_reset_on_fatal-IsConfigured false d v = v
