-- ===== src/Tests/Mysql.antt =====
-- Accounts made at a first request, and the MySQL pool: internal/services/rbac.go, internal/handlers/iam.go
-- and internal/services/mysql.go.
use velocity_engine_backend.Prelude.{
  ℕ, String, ◌≡◌, refl, true, false, List, [], ◌∷◌, none, some, if◌then◌else◌, ◌==◌,
  comparable_string, ltb, length, arith,
}
use velocity_engine_backend.Prelude.Maps.{lookup}
use velocity_engine_backend.Prelude.Text.{occurrences}
use velocity_engine_backend.Rbac.{
  present, JitRate, Limits, resolved, user, require_permission, permission_key,
}
use velocity_engine_backend.Rbac.Me.{MeResponse, answered, me, includes, me-require_permission}
use velocity_engine_backend.Rbac.Provision.{
  Account, Tables, Inserted, inserted, not_inserted, Server, find_subject, placeholder_email,
  get_or_provision_user_by_external_subject,
}
use velocity_engine_backend.Rbac.Provision.Refused.{is_email_taken, get_or_provision-email_taken}
use velocity_engine_backend.MysqlPool as Mysql
use velocity_engine_backend.MysqlPool.{
  Pool, connect, check_ready, reset, close, verify, call_all, get_mysql_db, verify_mysql_schema,
  verdict, required_tables,
}
use velocity_engine_backend.MysqlPool.Tidy.{IsTidy, call_all-IsTidy}

-- MySQL refuses an address that an account has, and makes id 7 otherwise.
abbrev sample_insert : List Account → String → String → Inserted
sample_insert users sub email =
    if is_email_taken email users then not_inserted (some 1062) else inserted 7

abbrev sample_server : Server
sample_server = record {
  equal = λ a b. a == b;
  connected = λ n. true;
  row = λ n. true;
  begun = true;
  insert_user = sample_insert;
  last_id = true;
  role_row = true;
  granted = true;
  committed = true;
  recorded = true;
  format_int = λ n. "7";
  marshal = λ m. some "{}";
}

abbrev sample_user : Account
sample_user = record {
  id = 3;
  external_subject = "s3";
  email = "ann@example.org";
  display_name = "Ann";
  status = "ACTIVE";
  role_ids = 1 ∷ [];
}

abbrev sample_tables : Tables
sample_tables = record {
  users = sample_user ∷ [];
  roles = ("READ_ONLY_ANALYST", 4) ∷ [];
  audit_log = [];
}

abbrev sample_rate : JitRate
sample_rate = record { window_start = 0; counts = [] }

-- A new subject gets the account 7 and the role 4.
provisioned_result :
    ((get_or_provision_user_by_external_subject sample_server 5 10 "bob" "10.0.0.1" sample_rate
        (sample_user ∷ [])
        sample_tables).0
      ≡ present (7, "ACTIVE"))
    × (length
          (get_or_provision_user_by_external_subject sample_server 5 10 "bob" "10.0.0.1" sample_rate
            (sample_user ∷ [])
            sample_tables).2.users
        ≡ 2)
unfolding get_or_provision_user_by_external_subject occurrences
provisioned_result = (refl, refl)

sample_unique :
    (users : List Account) (subject email : String) (id : ℕ)
    → sample_insert users subject email ≡ inserted id
    → is_email_taken email users ≡ false
sample_unique users subject email id e = ground arith

-- A subject that is another account's e-mail address
get_or_provision-email_taken_example :
    ((get_or_provision_user_by_external_subject sample_server 5 10 "ann@example.org" "10.0.0.1"
        sample_rate
        (sample_user ∷ [])
        sample_tables).2.users
      ≡ sample_user ∷ [])
    × ((who : ℕ × String)
        → ¬ (
            (get_or_provision_user_by_external_subject sample_server 5 10 "ann@example.org"
              "10.0.0.1" sample_rate
              (sample_user ∷ [])
              sample_tables).0
            ≡ present who))
unfolding find_subject placeholder_email occurrences
get_or_provision-email_taken_example =
    get_or_provision-email_taken sample_server 5 10 "ann@example.org" "10.0.0.1" sample_rate
      (sample_user ∷ []) sample_tables sample_unique refl refl refl

abbrev me_limits : Limits
me_limits = record { ttl = 30; max_stale = 300 }

me-require_permission_example :
    (r : MeResponse) × ((me me_limits
        (λ id. resolved ("ADMIN" ∷ []) (("rules:publish", true) ∷ []))
        5
        (user 1)
        []).0
      ≡ answered r)
    × (user 1 ≡ user r.user_id)
    × (includes (permission_key "rules" "publish") r.permissions ≡ true)
unfolding require_permission lookup
me-require_permission_example =
    me-require_permission me_limits (λ id. resolved ("ADMIN" ∷ []) (("rules:publish", true) ∷ []))
      "rules" "publish" 5 (user 1) [] refl

-- The first pool does not answer.
abbrev flaky : Mysql.Server
flaky = record {
  opens = λ n. true;
  pings = λ n. ltb 0 n;
  still = λ n. false;
  tables = λ n. some ("rules" ∷ "users" ∷ []);
}

abbrev no_pool : Pool
no_pool = record { db = none; opened = 0; closed = [] }

no_pool-IsTidy : IsTidy flaky no_pool
no_pool-IsTidy = record {
  live = λ n e. absurd (ground arith);
  others = λ n l o. absurd (omega (arith, l));
  past = λ n c. absurd (ground arith);
}

call_all-IsTidy_example :
    IsTidy flaky
      (call_all flaky (connect ∷ check_ready ∷ verify ∷ reset ∷ connect ∷ close ∷ []) no_pool)
call_all-IsTidy_example =
    call_all-IsTidy flaky (connect ∷ check_ready ∷ verify ∷ reset ∷ connect ∷ close ∷ []) no_pool
      no_pool-IsTidy

abbrev second_pool : Pool
second_pool = record { db = some 1; opened = 2; closed = 0 ∷ [] }
