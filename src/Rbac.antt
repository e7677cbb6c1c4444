-- ===== src/Rbac.antt =====
-- internal/services/rbac.go and internal/middleware/auth.go: who a request's user is and what they may
-- do. MySQL and the clock are parameters; times and durations are nanoseconds.
pub mod Cache
pub mod Guards
pub mod Provision
pub mod Me
use velocity_engine_backend.Prelude.{
  ℕ, zero, suc, ◌+◌, String, Bool, true, false, List, [], ◌∷◌, map, Option, none, some,
  if◌then◌else◌, ltb, ◌==◌, comparable_string, comparable_nat, str_append,
}
use velocity_engine_backend.Prelude.Maps.{Map, lookup, insert, remove}

-- What MySQL answers to a query of one row: an error, no row, or the row.
pub data Found {ℓ} (A : Type ℓ) : Type ℓ where
  broken : Found A
  absent : Found A
  present : A → Found A

pub record Grant : Type 0 where
  pub role : String
  pub resource : String
  pub action : String

-- ErrUserNotFound, ErrUserDisabled, any other error, or roles and permissions.
pub data Resolution : Type 0 where
  user_not_found : Resolution
  user_disabled : Resolution
  unavailable : Resolution
  resolved : List String → Map String Bool → Resolution

-- `connected` is getMySQLDB's success; `grants` fails as a whole where the query or a row does.
pub record Directory : Type 0 where
  pub connected : Bool
  pub status_of : ℕ → Found String
  pub grants_of : ℕ → Option (List Grant)
  pub sorted : List String → List String

abbrev pub permission_key : String → String → String
permission_key resource action = str_append resource (str_append ":" action)

unfoldable pub collect :
    List Grant → Map String Bool → Map String Bool → Map String Bool × Map String Bool
unfolding insert
collect [] roles perms = (roles, perms)
collect (g ∷ grants) roles perms =
    collect grants (insert g.role true roles)
      (insert (permission_key g.resource g.action) true perms)

abbrev pub first {ℓ κ} : {A : Type ℓ} {B : Type κ} → A × B → A
first (a, _) = a

-- fetchUserPermissionsFromDB
unfoldable pub fetch_user_permissions_from_db : Directory → ℕ → Resolution
unfolding collect
fetch_user_permissions_from_db d user_id =
    if d.connected
    then elim (d.status_of user_id) [
      | broken ↦ unavailable
      | absent ↦ user_not_found
      | present status ↦
          if status == "ACTIVE"
          then elim (d.grants_of user_id) [
            | none ↦ unavailable
            | some grants ↦
                resolved (d.sorted (map first (collect grants [] []).0)) (collect grants [] []).1
          ]
          else user_disabled
    ]
    else unavailable

pub record CacheEntry : Type 0 where
  pub roles : List String
  pub perms : Map String Bool
  pub fetched_at : ℕ

abbrev pub PermCache : Type 0
PermCache = Map ℕ CacheEntry

pub record Limits : Type 0 where
  pub ttl : ℕ
  pub max_stale : ℕ

-- time.Since(entry.fetchedAt) < limit
abbrev pub is_younger : ℕ → ℕ → CacheEntry → Bool
is_younger now limit entry = ltb now (entry.fetched_at + limit)

abbrev pub is_usable : ℕ → ℕ → Option CacheEntry → Bool
is_usable now limit none = false
is_usable now limit (some entry) = is_younger now limit entry

abbrev pub served : Option CacheEntry → Resolution
served none = unavailable
served (some entry) = resolved entry.roles entry.perms

-- GetUserPermissions after a miss, given what the fetch returned
unfoldable pub refresh : Limits → ℕ → ℕ → PermCache → Resolution → Resolution × PermCache
unfolding lookup insert remove
refresh limits now user_id cache user_not_found = (user_not_found, remove user_id cache)
refresh limits now user_id cache user_disabled = (user_disabled, remove user_id cache)
refresh limits now user_id cache unavailable =
    if is_usable now limits.max_stale (lookup user_id cache)
    then (served (lookup user_id cache), cache)
    else (unavailable, cache)
refresh limits now user_id cache (resolved roles perms) = (
  resolved roles perms,
  insert user_id (record { roles = roles; perms = perms; fetched_at = now }) cache,
)

-- GetUserPermissions, at the time `now`; `fetch` is fetchFunc.
unfoldable pub get_user_permissions :
    Limits → (ℕ → Resolution) → ℕ → ℕ → PermCache → Resolution × PermCache
unfolding lookup refresh
get_user_permissions limits fetch now user_id cache =
    if is_usable now limits.ttl (lookup user_id cache)
    then (served (lookup user_id cache), cache)
    else refresh limits now user_id cache (fetch user_id)

-- InvalidateUserPermissions
unfoldable pub invalidate_user_permissions : ℕ → PermCache → PermCache
unfolding remove
invalidate_user_permissions user_id cache = remove user_id cache

-- The fixed window of jitRateLimited: its start and the counts in it.
pub record JitRate : Type 0 where
  pub window_start : ℕ
  pub counts : Map String ℕ

abbrev pub jit_rate_window : ℕ
jit_rate_window = 60000000000

abbrev pub count_of : Option ℕ → ℕ
count_of none = 0
count_of (some n) = n

-- The window that holds `now`: a new one once the old is more than a minute old.
unfoldable pub roll_window : ℕ → JitRate → JitRate
roll_window now rate =
    if ltb (rate.window_start + jit_rate_window) now
    then record { window_start = now; counts = [] }
    else rate

unfoldable pub jit_rate_limited : ℕ → ℕ → String → JitRate → Bool × JitRate
unfolding lookup insert roll_window
jit_rate_limited limit now source_ip rate =
    let current = roll_window now rate in
    let count = suc (count_of (lookup source_ip current.counts)) in
    (ltb limit count, record current { counts = insert source_ip count current.counts })

-- What IdentityMiddleware and RequirePermission do to a request: abort with a status, or go on.
pub data Verdict {ℓ} (A : Type ℓ) : Type ℓ where
  abort : ℕ → String → Verdict A
  next : A → Verdict A

-- The resolver's outcome: an unknown identity, any other error, or a user and a status.
pub data Identity : Type 0 where
  unknown_identity : Identity
  failed_identity : Identity
  known_identity : ℕ → String → Identity

-- IdentityMiddleware: `sub` is the trimmed header; the resolver may not be set.
unfoldable pub identity_middleware : Option (String → Identity) → String → Verdict ℕ
identity_middleware none sub = abort 501 "Authentication is not yet configured on this deployment"
identity_middleware (some resolver) sub =
    if sub == "" then abort 401 "Missing X-User-Subject header" else elim (resolver sub) [
      | unknown_identity ↦ abort 401 "User not authorized: no local account for this identity"
      | failed_identity ↦ abort 503 "Authorization service temporarily unavailable"
      | known_identity user_id status ↦
          if status == "ACTIVE" then next user_id else abort 403 "Account is disabled"
    ]

-- `perms[k]`
abbrev pub allows : Option Bool → Bool
allows none = false
allows (some b) = b

-- What the context holds under auth_user_id: nothing, a value of another type, or an id.
pub data ContextUser : Type 0 where
  unset : ContextUser
  mistyped : ContextUser
  user : ℕ → ContextUser

-- RequirePermission, given what its resolver returned
unfoldable pub check_permission : String → Resolution → Verdict (Unit {0})
unfolding lookup
check_permission required (resolved roles perms) =
    if allows (lookup required perms)
    then next tt
    else abort 403 (str_append "Insufficient permissions: requires " required)
check_permission required _ = abort 503 "Authorization service temporarily unavailable"

unfoldable pub require_permission :
    Limits
    → (ℕ → Resolution)
    → String
    → String
    → ℕ
    → ContextUser
    → PermCache
    → Verdict (Unit {0}) × PermCache
unfolding check_permission get_user_permissions
require_permission limits fetch resource action now unset cache =
    (abort 401 "Authentication required", cache)
require_permission limits fetch resource action now mistyped cache =
    (abort 500 "Internal authorization error", cache)
require_permission limits fetch resource action now (user user_id) cache =
    let result = get_user_permissions limits fetch now user_id cache in
    (check_permission (permission_key resource action) result.0, result.1)
