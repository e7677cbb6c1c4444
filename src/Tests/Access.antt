-- ===== src/Tests/Access.antt =====
-- The permission cache and the guards on sample users.
use velocity_engine_backend.Prelude.{
  ℕ, String, ◌≡◌, ◌≢◌, ◌↔◌, refl, Bool, true, List, [], ◌∷◌, some, comparable_string,
  comparable_nat,
}
use velocity_engine_backend.Prelude.Maps.{Map, lookup}
use velocity_engine_backend.Rbac.{
  Grant, refresh, check_permission, present, Directory, permission_key, Limits, unavailable,
  PermCache, get_user_permissions, next, known_identity, identity_middleware, allows, user,
  require_permission,
}
use velocity_engine_backend.Rbac.Cache.{IsJustified, get_user_permissions-IsJustified}
use velocity_engine_backend.Rbac.Guards.{require_permission-next, identity_middleware-next}

abbrev sample_limits : Limits
sample_limits = record { ttl = 30; max_stale = 300 }

abbrev publishers : Map String Bool
publishers = ("rules:publish", true) ∷ []

abbrev sample_cache : PermCache
sample_cache = (1, record { roles = "ADMIN" ∷ []; perms = publishers; fetched_at = 100 }) ∷ []

-- MySQL cannot be asked, and the entry is past its TTL.
get_user_permissions-IsJustified_example :
    IsJustified sample_limits (λ id. unavailable) 200 1 sample_cache ("ADMIN" ∷ []) publishers
unfolding get_user_permissions lookup refresh
get_user_permissions-IsJustified_example =
    get_user_permissions-IsJustified sample_limits (λ id. unavailable) 200 1 sample_cache
      ("ADMIN" ∷ []) publishers refl

require_permission-next_example :
    (user_id : ℕ) × (roles : List String) × (perms : Map String Bool) × (user 1 ≡ user user_id)
    × IsJustified sample_limits (λ id. unavailable) 110 user_id sample_cache roles perms
    × (allows (lookup (permission_key "rules" "publish") perms) ≡ true)
unfolding require_permission get_user_permissions lookup check_permission
require_permission-next_example =
    require_permission-next sample_limits (λ id. unavailable) "rules" "publish" 110 (user 1)
      sample_cache refl

identity_middleware-next_example :
    (identity_middleware (some (λ sub. known_identity 1 "ACTIVE")) "alice" ≡ next 1)
    ↔ (◌≢◌ {A = String} "alice" "" × (known_identity 1 "ACTIVE" ≡ known_identity 1 "ACTIVE"))
identity_middleware-next_example =
    identity_middleware-next (λ sub. known_identity 1 "ACTIVE") "alice" 1

abbrev sample_grant : Grant
sample_grant = record { role = "ADMIN"; resource = "rules"; action = "publish" }

abbrev sample_directory : Directory
sample_directory = record {
  connected = true;
  status_of = λ id. present "ACTIVE";
  grants_of = λ id. some (sample_grant ∷ []);
  sorted = λ names. names;
}
