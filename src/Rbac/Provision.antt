-- ===== src/Rbac/Provision.antt =====
-- internal/services/rbac.go: an identity's account, made at its first request, and the audit log. MySQL's
-- answers and its comparison of texts are parameters; its tables are lists.
pub mod Complete
pub mod Refused
use velocity_engine_backend.Prelude.{
  ℕ, String, Bool, true, false, not, List, [], ◌∷◌, ◌++◌, Option, none, some, if◌then◌else◌, ◌==◌,
  comparable_nat, comparable_string, str_append, ltb,
}
use velocity_engine_backend.Prelude.Maps.{Map, lookup}
use velocity_engine_backend.Prelude.Text.{occurrences}
use velocity_engine_backend.Rbac.{Found, broken, absent, present, JitRate, jit_rate_limited}

-- A row of `users`, with the role ids that `user_roles` holds for it.
pub record Account : Type 0 where
  pub id : ℕ
  pub external_subject : String
  pub email : String
  pub display_name : String
  pub status : String
  pub role_ids : List ℕ

-- A row of `audit_log`: its actor, if a person, its action and target, and the JSON of its metadata.
pub record AuditRow : Type 0 where
  pub actor : Option ℕ
  pub action : String
  pub target_type : String
  pub target_id : String
  pub metadata : Option String

pub record Tables : Type 0 where
  pub users : List Account
  pub roles : Map String ℕ
  pub audit_log : List AuditRow

-- What MySQL does with an insert into `users`: the new id, or an error with its number, if it has one.
pub data Inserted : Type 0 where
  inserted : ℕ → Inserted
  not_inserted : Option ℕ → Inserted

-- What MySQL and fmt do: `equal` compares two subjects as the column does, and the Booleans tell which of
-- the calls succeed. `connected n` is that of the n-th getMySQLDB of a request, `row n` that of the query
-- of a user behind it.
pub record Server : Type 0 where
  pub equal : String → String → Bool
  pub connected : ℕ → Bool
  pub row : ℕ → Bool
  pub begun : Bool
  pub insert_user : List Account → String → String → Inserted
  pub last_id : Bool
  pub role_row : Bool
  pub granted : Bool
  pub committed : Bool
  pub recorded : Bool
  pub format_int : ℕ → String
  pub marshal : Map String String → Option String

-- An error of provisionUserByExternalSubject, with its MySQL number, or the new user's id.
pub data Provisioned : Type 0 where
  failed : Option ℕ → Provisioned
  created : ℕ → Provisioned

unfoldable pub find_subject : (String → String → Bool) → String → List Account → Option Account
find_subject equal sub [] = none
find_subject equal sub (u ∷ us) =
    if equal u.external_subject sub then some u else find_subject equal sub us

abbrev pub Identified : Type 0
Identified = Found (ℕ × String)

module _ (server : Server) where
  -- getUserByExternalSubjectImpl, as the n-th lookup
  unfoldable pub get_user_by_external_subject : ℕ → String → List Account → Identified
  unfolding find_subject
  get_user_by_external_subject n sub users =
      if not (server.connected n)
      then broken
      else if not (server.row n)
      then broken
      else elim (find_subject server.equal sub users) [
        | none ↦ absent
        | some u ↦ present (u.id, u.status)
      ]

  -- strings.Contains(email, "@")
  abbrev pub has_at_sign : String → Bool
  has_at_sign s = ltb 0 (occurrences 64 s)

  unfoldable pub placeholder_email : String → String
  unfolding occurrences
  placeholder_email sub = if has_at_sign sub then sub else str_append sub "@jit.invalid"

  abbrev pub new_account : ℕ → ℕ → String → Account
  new_account id role_id sub = record {
    id = id;
    external_subject = sub;
    email = placeholder_email sub;
    display_name = sub;
    status = "ACTIVE";
    role_ids = role_id ∷ [];
  }

  -- The transaction after its first insert: the deferred Rollback takes back what is not committed. An
  -- error of these statements is taken to be another than 1062.
  unfoldable pub grant_default_role : ℕ → String → Tables → Provisioned × Tables
  unfolding lookup placeholder_email
  grant_default_role id sub t =
      if not server.last_id
      then (failed none, t)
      else if not server.role_row
      then (failed none, t)
      else elim (lookup "READ_ONLY_ANALYST" t.roles) [
        | none ↦ (failed none, t)
        | some role_id ↦
            if not server.granted
            then (failed none, t)
            else if not server.committed
            then (failed none, t)
            else (created id, record t { users = t.users ++ new_account id role_id sub ∷ [] })
      ]

  -- provisionUserByExternalSubject
  unfoldable pub provision_user_by_external_subject : String → Tables → Provisioned × Tables
  unfolding placeholder_email grant_default_role
  provision_user_by_external_subject sub t =
      if not (server.connected 1)
      then (failed none, t)
      else if not server.begun
      then (failed none, t)
      else elim (server.insert_user t.users sub (placeholder_email sub)) [
        | not_inserted number ↦ (failed number, t)
        | inserted id ↦ grant_default_role id sub t
      ]

  -- The insert into audit_log
  unfoldable pub insert_audit_row : AuditRow → Tables → Bool × Tables
  insert_audit_row r t =
      if server.recorded then (true, record t { audit_log = t.audit_log ++ r ∷ [] }) else (false, t)

  -- recordAuditEventImpl: whether it succeeded, and the tables. `r` is the row but for its metadata.
  unfoldable pub record_audit_event : AuditRow → Option (Map String String) → Tables → Bool × Tables
  unfolding insert_audit_row
  record_audit_event r metadata t = if not (server.connected 2) then (false, t) else elim metadata [
    | none ↦ insert_audit_row (record r { metadata = none }) t
    | some m ↦ elim (server.marshal m) [
      | none ↦ (false, t)
      | some text ↦ insert_audit_row (record r { metadata = some text }) t
    ]
  ]

  abbrev pub jit_provision : ℕ → AuditRow
  jit_provision id = record {
    actor = none;
    action = "user.jit_provision";
    target_type = "user";
    target_id = server.format_int id;
    metadata = none;
  }

  -- The end of GetOrProvisionUserByExternalSubject. Error 1062 is a duplicate key.
  unfoldable pub after_provisioning : String → String → Provisioned × Tables → Identified × Tables
  unfolding get_user_by_external_subject record_audit_event
  after_provisioning sub source_ip (failed none, t) = (broken, t)
  after_provisioning sub source_ip (failed (some number), t) =
      if number == 1062 then (get_user_by_external_subject 2 sub t.users, t) else (broken, t)
  after_provisioning sub source_ip (created id, t) = (
    present (id, "ACTIVE"),
    (record_audit_event (jit_provision id)
        (some (("external_subject", sub) ∷ ("source_ip", source_ip) ∷ [])) t).1,
  )

  -- GetOrProvisionUserByExternalSubject, from the rate limit on; `t` is what the tables hold by then.
  unfoldable pub provision_limited :
      ℕ → ℕ → String → String → JitRate → Tables → Identified × JitRate × Tables
  unfolding jit_rate_limited provision_user_by_external_subject after_provisioning
  provision_limited limit now sub source_ip rate t =
      let limited = jit_rate_limited limit now source_ip rate in
      let result = after_provisioning sub source_ip (provision_user_by_external_subject sub t) in
      if limited.0 then (absent, limited.1, t) else (result.0, limited.1, result.1)

  -- GetOrProvisionUserByExternalSubject: `before` is what its lookup reads, `t` what the tables hold when
  -- it goes on, since other requests run between the two.
  unfoldable pub get_or_provision_user_by_external_subject :
      ℕ → ℕ → String → String → JitRate → List Account → Tables → Identified × JitRate × Tables
  unfolding get_user_by_external_subject provision_limited
  get_or_provision_user_by_external_subject limit now sub source_ip rate before t =
      elim (get_user_by_external_subject 0 sub before) [
        | present user ↦ (present user, rate, t)
        | broken ↦ (broken, rate, t)
        | absent ↦ provision_limited limit now sub source_ip rate t
      ]
