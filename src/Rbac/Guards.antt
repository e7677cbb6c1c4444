-- ===== src/Rbac/Guards.antt =====
-- What passes the guards of internal/middleware/auth.go, and the rate limit of internal/services/rbac.go.
use velocity_engine_backend.Prelude.{
  ℕ, suc, ◌+◌, ◌-◌, ◌≤◌, String, ◌≡◌, ◌≢◌, ◌↔◌, refl, Bool, true, false, ◌&&◌, not, List, [], ◌∷◌,
  Option, none, some, if◌then◌else◌, ltb, ◌==◌, comparable_string, comparable_nat, ==_iff, All,
  arith,
}
use velocity_engine_backend.Prelude.Maps.{Map, lookup, insert, lookup-insert}
use velocity_engine_backend.Rbac.{
  Grant, collect, Directory, Found, broken, absent, present, fetch_user_permissions_from_db,
  permission_key, first, Limits, Resolution, user_not_found, user_disabled, unavailable, resolved,
  PermCache, get_user_permissions, next, Identity, unknown_identity, failed_identity,
  known_identity, identity_middleware, allows, ContextUser, unset, mistyped, user, check_permission,
  require_permission, JitRate, jit_rate_window, count_of, roll_window, jit_rate_limited,
}
use velocity_engine_backend.Rbac.Cache.{IsJustified, get_user_permissions-IsJustified}

-- Whether one of the grants carries the permission.
abbrev pub has_grant : String → List Grant → Bool
has_grant key [] = false
has_grant key (g ∷ grants) =
    let rest = has_grant key grants in
    if permission_key g.resource g.action == key then true else rest

allows-collect :
    (key : String) (grants : List Grant) (roles perms : Map String Bool)
    → allows (lookup key (collect grants roles perms).1)
      ≡ (if has_grant key grants then true else allows (lookup key perms))
unfolding collect
allows-collect key [] roles perms = refl
allows-collect key (g ∷ grants) roles perms = ground (
  arith,
  allows-collect key grants (insert g.role true roles)
      (insert (permission_key g.resource g.action) true perms),
  lookup-insert (permission_key g.resource g.action) key true perms,
)

-- The fetch grants exactly the permissions on the user's rows, to a user whom MySQL calls ACTIVE.
pub fetch_user_permissions_from_db_lem :
    (d : Directory) (user_id : ℕ) (roles : List String) (perms : Map String Bool)
    → fetch_user_permissions_from_db d user_id ≡ resolved roles perms
    → (d.status_of user_id ≡ present "ACTIVE")
      × ((grants : List Grant) × (d.grants_of user_id ≡ some grants)
          × ((key : String) → allows (lookup key perms) ≡ has_grant key grants))
unfolding fetch_user_permissions_from_db lookup
fetch_user_permissions_from_db_lem d user_id roles perms e =
    by_status (d.status_of user_id) refl (d.grants_of user_id) refl
  where
    by_status :
        (status : Found String)
        → d.status_of user_id ≡ status
        → (grants : Option (List Grant)) → d.grants_of user_id ≡ grants
        → (d.status_of user_id ≡ present "ACTIVE")
          × ((grants : List Grant) × (d.grants_of user_id ≡ some grants)
              × ((key : String) → allows (lookup key perms) ≡ has_grant key grants))
    by_status broken s grants g = absurd (ground arith)
    by_status absent s grants g = absurd (ground arith)
    by_status (present status) s none g = absurd (ground arith)
    by_status (present status) s (some grants) g = (
      ground (arith, ==_iff status "ACTIVE"),
      (grants, g, λ key. ground (arith, allows-collect key grants [] [])),
    )

-- RequirePermission lets a request on only for a user id in the context to whom a justified answer of
-- GetUserPermissions grants `resource:action`.
pub require_permission-next :
    (limits : Limits) (fetch : ℕ → Resolution) (resource action : String) (now : ℕ)
    (who : ContextUser) (cache : PermCache)
    → (require_permission limits fetch resource action now who cache).0 ≡ next tt
    → (user_id : ℕ) × (roles : List String) × (perms : Map String Bool) × (who ≡ user user_id)
      × IsJustified limits fetch now user_id cache roles perms
      × (allows (lookup (permission_key resource action) perms) ≡ true)
unfolding require_permission check_permission
require_permission-next limits fetch resource action now unset cache e = absurd (ground arith)
require_permission-next limits fetch resource action now mistyped cache e = absurd (ground arith)
require_permission-next limits fetch resource action now (user user_id) cache e =
    by_answer (get_user_permissions limits fetch now user_id cache).0 refl
  where
    by_answer :
        (answer : Resolution)
        → (get_user_permissions limits fetch now user_id cache).0 ≡ answer
        → (id : ℕ) × (roles : List String) × (perms : Map String Bool) × (user user_id ≡ user id)
          × IsJustified limits fetch now id cache roles perms
          × (allows (lookup (permission_key resource action) perms) ≡ true)
    by_answer user_not_found a = absurd (ground arith)
    by_answer user_disabled a = absurd (ground arith)
    by_answer unavailable a = absurd (ground arith)
    by_answer (resolved roles perms) a = (
      user_id,
      roles,
      perms,
      refl,
      get_user_permissions-IsJustified limits fetch now user_id cache roles perms a,
      ground arith,
    )

-- Where a resolver is set, IdentityMiddleware lets a request on as a user exactly if the header is not
-- empty and the resolver knows the header's subject as that user, with status ACTIVE.
pub identity_middleware-next :
    (resolver : String → Identity) (sub : String) (user_id : ℕ)
    → (identity_middleware (some resolver) sub ≡ next user_id)
      ↔ ((sub ≢ "") × (resolver sub ≡ known_identity user_id "ACTIVE"))
unfolding identity_middleware
identity_middleware-next resolver sub user_id = (
  λ e. (λ empty. ground (arith, ==_iff sub ""), known (resolver sub) refl e),
  λ h. ground (arith, ==_iff sub ""),
)
  where
    known :
        (identity : Identity)
        → resolver sub ≡ identity
        → identity_middleware (some resolver) sub ≡ next user_id
        → resolver sub ≡ known_identity user_id "ACTIVE"
    known unknown_identity q e = absurd (ground arith)
    known failed_identity q e = absurd (ground arith)
    known (known_identity id status) q e = ground (arith, ==_iff status "ACTIVE")

-- How many of the attempts, each a time and an address, jitRateLimited lets pass for the address `ip`.
unfoldable pub admitted : ℕ → String → List (ℕ × String) → JitRate → ℕ
unfolding jit_rate_limited
admitted limit ip [] rate = 0
admitted limit ip ((now, source_ip) ∷ attempts) rate =
    let rest = admitted limit ip attempts (jit_rate_limited limit now source_ip rate).1 in
    if (source_ip == ip) && not (jit_rate_limited limit now source_ip rate).0
    then suc rest
    else rest

-- Within one window an address passes the rate limit at most as often as the limit allows, less the
-- attempts that it has made in the window before.
pub admitted-le :
    (limit : ℕ) (ip : String) (attempts : List (ℕ × String)) (rate : JitRate)
    → All (λ attempt. first attempt ≤ rate.window_start + jit_rate_window) attempts
    → admitted limit ip attempts rate ≤ limit - count_of (lookup ip rate.counts)
unfolding admitted jit_rate_limited roll_window
admitted-le limit ip [] rate h = omega arith
admitted-le limit ip ((now, source_ip) ∷ attempts) rate (h, hs) =
    let same : ltb (rate.window_start + jit_rate_window) now ≡ false = ground arith in
    rw (same, admitted)
      (ground (
        arith,
        ==_iff source_ip ip,
        lookup-insert source_ip ip (suc (count_of (lookup source_ip rate.counts))) rate.counts,
        admitted-le limit ip attempts
            (record rate {
              counts = insert source_ip (suc (count_of (lookup source_ip rate.counts))) rate.counts;
            })
            hs,
      ))
