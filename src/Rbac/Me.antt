-- ===== src/Rbac/Me.antt =====
-- internal/handlers/iam.go: what GET /me tells the user of their roles and permissions.
use velocity_engine_backend.Prelude.{
  ℕ, String, ◌≡◌, refl, Bool, true, false, ◌||◌, List, [], ◌∷◌, map, ◌==◌, comparable_string, arith,
}
use velocity_engine_backend.Prelude.Maps.{Map, lookup}
use velocity_engine_backend.Rbac.{
  Resolution, user_not_found, user_disabled, unavailable, resolved, Limits, PermCache,
  get_user_permissions, permission_key, first, next, allows, ContextUser, unset, mistyped, user,
  check_permission, require_permission,
}

-- MeResponse
pub record MeResponse : Type 0 where
  pub user_id : ℕ
  pub roles : List String
  pub permissions : List String

pub data MeReply : Type 0 where
  refused : ℕ → String → MeReply
  answered : MeResponse → MeReply

-- The answer of Me, given what GetUserPermissions returned
unfoldable pub me_reply : ℕ → Resolution → MeReply
me_reply user_id (resolved roles perms) =
    answered (record { user_id = user_id; roles = roles; permissions = map first perms })
me_reply user_id _ = refused 503 "Authorization service temporarily unavailable"

-- Me
unfoldable pub me : Limits → (ℕ → Resolution) → ℕ → ContextUser → PermCache → MeReply × PermCache
unfolding me_reply get_user_permissions
me limits fetch now unset cache = (refused 401 "Authentication required", cache)
me limits fetch now mistyped cache = (refused 500 "Internal authorization error", cache)
me limits fetch now (user user_id) cache =
    let result = get_user_permissions limits fetch now user_id cache in
    (me_reply user_id result.0, result.1)

abbrev pub includes : String → List String → Bool
includes key [] = false
includes key (k ∷ ks) = k == key || includes key ks

includes-first :
    (key : String) (perms : Map String Bool)
    → allows (lookup key perms) ≡ true
    → includes key (map first perms) ≡ true
unfolding lookup
includes-first key [] h = absurd (ground arith)
includes-first key ((k, b) ∷ perms) h = ground (arith, includes-first key perms)

-- Where RequirePermission lets a request on, Me, asked in its place, lists that permission.
pub me-require_permission :
    (limits : Limits) (fetch : ℕ → Resolution) (resource action : String) (now : ℕ)
    (who : ContextUser) (cache : PermCache)
    → (require_permission limits fetch resource action now who cache).0 ≡ next tt
    → (r : MeResponse) × ((me limits fetch now who cache).0 ≡ answered r)
      × (who ≡ user r.user_id)
      × (includes (permission_key resource action) r.permissions ≡ true)
unfolding require_permission check_permission me me_reply
me-require_permission limits fetch resource action now unset cache e = absurd (ground arith)
me-require_permission limits fetch resource action now mistyped cache e = absurd (ground arith)
me-require_permission limits fetch resource action now (user user_id) cache e =
    by_answer (get_user_permissions limits fetch now user_id cache).0 refl
  where
    by_answer :
        (answer : Resolution)
        → (get_user_permissions limits fetch now user_id cache).0 ≡ answer
        → (r : MeResponse) × ((me limits fetch now (user user_id) cache).0 ≡ answered r)
          × (user user_id ≡ user r.user_id)
          × (includes (permission_key resource action) r.permissions ≡ true)
    by_answer user_not_found a = absurd (ground arith)
    by_answer user_disabled a = absurd (ground arith)
    by_answer unavailable a = absurd (ground arith)
    by_answer (resolved roles perms) a = (
      record { user_id = user_id; roles = roles; permissions = map first perms },
      rw (me, a) refl,
      refl,
      includes-first (permission_key resource action) perms (ground arith),
    )
