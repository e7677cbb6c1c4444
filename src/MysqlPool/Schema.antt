-- ===== src/MysqlPool/Schema.antt =====
-- Which tables the check of internal/services/mysql.go finds missing.
use velocity_engine_backend.Prelude.{
  ℕ, String, ◌≡◌, refl, ap, ◌∙◌, Bool, true, false, not, ◌||◌, inl, inr, List, [], ◌∷◌, Option,
  none, some, ◌==◌, comparable_string, Option-cases, select, arith,
}
use velocity_engine_backend.Prelude.Maps.{Map, lookup, insert, lookup-insert}
use velocity_engine_backend.MysqlPool.{
  Pool, Server, get_mysql_db, required_tables, found_tables, missing_tables, verdict, check_tables,
  verify_mysql_schema,
}

abbrev pub is_named : String → List String → Bool
is_named t [] = false
is_named t (n ∷ ns) = n == t || is_named t ns

-- `found[t]`
abbrev holds : Option Bool → Bool
holds none = false
holds (some b) = b

holds-found_tables :
    (t : String) (names : List String) (found : Map String Bool)
    → holds (lookup t (found_tables names found)) ≡ (is_named t names || holds (lookup t found))
unfolding found_tables
holds-found_tables t [] found = refl
holds-found_tables t (n ∷ names) found =
    ground (arith, holds-found_tables t names (insert n true found), lookup-insert n t true found)

found_lem :
    (t : String) (names : List String) → holds (lookup t (found_tables names [])) ≡ is_named t names
unfolding lookup
found_lem t names = ground (arith, holds-found_tables t names [])

missing_tables-select :
    (found : Map String Bool) (ts : List String)
    → missing_tables found ts ≡ select (λ t. not (holds (lookup t found))) ts
unfolding missing_tables
missing_tables-select found [] = refl
missing_tables-select found (t ∷ ts) = elim (Option-cases (lookup t found)) [
  | inl q ↦ rw (missing_tables, q) (ap (λ rest. t ∷ rest) (missing_tables-select found ts))
  | inr (true, q) ↦ rw (missing_tables, q) (missing_tables-select found ts)
  | inr (false, q) ↦ rw (missing_tables, q) (ap (λ rest. t ∷ rest) (missing_tables-select found ts))
]

select-ext :
    (f g : String → Bool) (ts : List String)
    → ((t : String) → f t ≡ g t)
    → select f ts ≡ select g ts
select-ext f g [] h = refl
select-ext f g (t ∷ ts) h = rw (h t, select-ext f g ts h) refl

-- Where MySQL answers with the names of its tables, VerifyMySQLSchema reports exactly the required ones
-- that are not among them, and no error where there are none such.
pub verify_mysql_schema_lem :
    (server : Server) (pool : Pool) (n : ℕ) (names : List String)
    → (get_mysql_db server pool).0 ≡ some n
    → server.tables n ≡ some names
    → (verify_mysql_schema server pool).0
      ≡ verdict (select (λ t. not (is_named t names)) required_tables)
unfolding verify_mysql_schema
verify_mysql_schema_lem server pool n names connected answered =
    checked (get_mysql_db server pool) connected
  where
    checked :
        (got : Option ℕ × Pool)
        → got.0 ≡ some n
        → (check_tables server got).0
          ≡ verdict (select (λ t. not (is_named t names)) required_tables)
    checked (o, p) e =
        rw (e, check_tables, answered)
          (ap verdict (
            missing_tables-select (found_tables names []) required_tables
            ∙ select-ext _ _ required_tables (λ t. ap not (found_lem t names))))
