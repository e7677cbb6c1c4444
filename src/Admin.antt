-- ===== src/Admin.antt =====
-- internal/services/admin.go and internal/handlers/admin.go: the users, and who may change them. MySQL's
-- failures are parameters; its tables are a list of users and a list of roles.
pub mod Last
pub mod Race
pub mod Listed
use velocity_engine_backend.Prelude.{
  ℕ, zero, suc, ◌+◌, String, Bool, true, false, ◌&&◌, ◌||◌, not, List, [], ◌∷◌, ◌++◌, map, Option,
  none, some, if◌then◌else◌, ◌==◌, comparable_string, comparable_nat, str_append, leb, length,
  select,
}
use velocity_engine_backend.Prelude.Maps.{Map, lookup, insert}
use velocity_engine_backend.Rbac.{PermCache, invalidate_user_permissions}

-- A user with the name of their role, empty where they have none.
pub record AdminUser : Type 0 where
  pub id : ℕ
  pub role : String
  pub status : String

-- UserPatch
pub record UserPatch : Type 0 where
  pub role : String
  pub status : String

pub data Error : Type 0 where
  user_not_found : Error
  cannot_edit_self : Error
  last_active_super_admin : Error
  mysql_error : Error

-- A row of the audit log: its actor, action and target, and what changed from and to.
pub record AuditEvent : Type 0 where
  pub actor : ℕ
  pub action : String
  pub target : ℕ
  pub from : String
  pub to : String

-- The tables users (with user_roles), roles and audit_log, and the cache of permissions.
pub record State : Type 0 where
  pub users : List AdminUser
  pub roles : List String
  pub audit : List AuditEvent
  pub cache : PermCache

-- Which of the calls of one request MySQL answers. `recorded` is RecordAuditEvent's success by action.
pub record Answers : Type 0 where
  pub connected : Bool
  pub row : Bool
  pub count : Bool
  pub begun : Bool
  pub assigned : Bool
  pub updated : Bool
  pub committed : Bool
  pub recorded : String → Bool

-- getAdminUserRow
unfoldable pub find_user : ℕ → List AdminUser → Option AdminUser
find_user id [] = none
find_user id (u ∷ us) = if u.id == id then some u else find_user id us

abbrev pub is_active_super_admin : AdminUser → Bool
is_active_super_admin u = u.role == "SUPER_ADMIN" && u.status == "ACTIVE"

-- countActiveSuperAdmins
unfoldable pub count_active_super_admins : List AdminUser → ℕ
count_active_super_admins us = length (select is_active_super_admin us)

unfoldable pub has_role : String → List String → Bool
has_role name [] = false
has_role name (r ∷ rs) = r == name || has_role name rs

-- What the checks of updateUserImpl let through: the target, as it was read.
pub data Checked : Type 0 where
  rejected : Error → Checked
  permitted : AdminUser → Checked

abbrev pub changes_role : UserPatch → AdminUser → Bool
changes_role patch target = not (patch.role == target.role)

abbrev pub changes_status : UserPatch → AdminUser → Bool
changes_status patch target = not (patch.status == target.status)

abbrev pub patched : UserPatch → AdminUser → AdminUser → AdminUser
patched patch target u = record {
  id = u.id;
  role = if changes_role patch target then patch.role else u.role;
  status = if changes_status patch target then patch.status else u.status;
}

-- The statements of the transaction write what differs from the target as it was read.
unfoldable pub write_user : UserPatch → AdminUser → List AdminUser → List AdminUser
write_user patch target [] = []
write_user patch target (u ∷ us) =
    let rest = write_user patch target us in
    if u.id == target.id then patched patch target u ∷ us else u ∷ rest

abbrev pub demotes : UserPatch → Bool
demotes patch = not (patch.role == "SUPER_ADMIN") || not (patch.status == "ACTIVE")

-- The checks, which read outside the transaction.
unfoldable pub check_update : Answers → ℕ → ℕ → UserPatch → List AdminUser → Checked
unfolding find_user count_active_super_admins
check_update a actor target_id patch users =
    if not a.connected || not a.row
    then rejected mysql_error
    else elim (find_user target_id users) [
      | none ↦ rejected user_not_found
      | some target ↦
          if target_id == actor
          then rejected cannot_edit_self
          else if not a.count
          then rejected mysql_error
          else if is_active_super_admin target
              && leb (count_active_super_admins users) 1
              && demotes patch
          then rejected last_active_super_admin
          else permitted target
    ]

abbrev pub record_if : Bool → AuditEvent → List AuditEvent → List AuditEvent
record_if true event log = log ++ event ∷ []
record_if false event log = log

abbrev pub role_event : ℕ → ℕ → UserPatch → AdminUser → AuditEvent
role_event actor target_id patch target = record {
  actor = actor;
  action = "role.assign";
  target = target_id;
  from = target.role;
  to = patch.role;
}

abbrev pub status_event : ℕ → ℕ → UserPatch → AdminUser → AuditEvent
status_event actor target_id patch target = record {
  actor = actor;
  action = "user.status_change";
  target = target_id;
  from = target.status;
  to = patch.status;
}

-- Whether the transaction gets to its end
abbrev pub commits : Answers → UserPatch → AdminUser → List String → Bool
commits a patch target roles =
    a.begun
    && (not (changes_role patch target) || (has_role patch.role roles && a.assigned))
    && (not (changes_status patch target) || a.updated)
    && a.committed

-- The transaction and what follows it; an error rolls it back.
unfoldable pub apply_update : Answers → ℕ → ℕ → UserPatch → AdminUser → State → Option Error × State
unfolding write_user has_role invalidate_user_permissions
apply_update a actor target_id patch target s =
    if commits a patch target s.roles
    then (
      none,
      record {
        users = write_user patch target s.users;
        roles = s.roles;
        audit =
            record_if (changes_status patch target && a.recorded "user.status_change")
              (status_event actor target_id patch target)
              (record_if (changes_role patch target && a.recorded "role.assign")
                (role_event actor target_id patch target) s.audit);
        cache = invalidate_user_permissions target_id s.cache;
      },
    )
    else (some mysql_error, s)

abbrev pub follow : Answers → ℕ → ℕ → UserPatch → State → Checked → Option Error × State
follow a actor target_id patch s (rejected e) = (some e, s)
follow a actor target_id patch s (permitted target) = apply_update a actor target_id patch target s

-- updateUserImpl
unfoldable pub update_user : Answers → ℕ → ℕ → UserPatch → State → Option Error × State
unfolding check_update apply_update
update_user a actor target_id patch s =
    follow a actor target_id patch s (check_update a actor target_id patch s.users)

-- recordMutationMetric, as the outcome that it counts
unfoldable pub mutation_outcome : Option Error → String
mutation_outcome none = "success"
mutation_outcome (some cannot_edit_self) = "forbidden"
mutation_outcome (some last_active_super_admin) = "forbidden"
mutation_outcome (some _) = "error"

-- writeAdminMutationResult, as the status code
unfoldable pub mutation_status : Option Error → ℕ
mutation_status none = 200
mutation_status (some user_not_found) = 404
mutation_status (some cannot_edit_self) = 403
mutation_status (some last_active_super_admin) = 403
mutation_status (some mysql_error) = 503

-- A row that listRolesImpl scans, and a role that it lists.
pub record RoleRow : Type 0 where
  pub name : String
  pub description : String
  pub resource : Option String
  pub action : Option String

pub record AdminRole : Type 0 where
  pub name : String
  pub description : String
  pub permissions : List String

abbrev pub granted : Option String → Option String → List String
granted (some resource) (some action) = str_append resource (str_append ":" action) ∷ []
granted _ _ = []

-- One row: a role that is new goes to the end, an old one gets the permission.
unfoldable pub add_role_row : RoleRow → List AdminRole → List AdminRole
add_role_row row [] =
    record {
      name = row.name;
      description = row.description;
      permissions = granted row.resource row.action;
    }
    ∷ []
add_role_row row (r ∷ rs) =
    let rest = add_role_row row rs in
    if r.name == row.name
    then record r { permissions = r.permissions ++ granted row.resource row.action } ∷ rs
    else r ∷ rest

-- listRolesImpl, from the rows in the order of the query
unfoldable pub list_roles : List RoleRow → List AdminRole → List AdminRole
unfolding add_role_row
list_roles [] roles = roles
list_roles (row ∷ rows) roles = list_roles rows (add_role_row row roles)
