-- ===== src/Rbac/Cache.antt =====
-- The permission cache of internal/services/rbac.go.
use velocity_engine_backend.Prelude.{
  ℕ, ◌+◌, ◌<◌, String, ◌≡◌, refl, ◌∙◌, ◌⊎◌, inl, inr, Bool, true, false, List, Option, none, some,
  comparable_string, comparable_nat, Bool-cases, arith,
}
use velocity_engine_backend.Prelude.Maps.{Map, lookup, remove, IsUnique, lookup-remove}
use velocity_engine_backend.Rbac.{
  Limits, Resolution, user_not_found, user_disabled, unavailable, resolved, CacheEntry, PermCache,
  is_usable, served, refresh, get_user_permissions, invalidate_user_permissions,
}

-- Where roles and permissions may come from: the fetch of this call, or an entry under the user's id
-- that is younger than one of the two limits.
abbrev pub IsJustified :
    Limits → (ℕ → Resolution) → ℕ → ℕ → PermCache → List String → Map String Bool → Type 0
IsJustified limits fetch now user_id cache roles perms =
    (fetch user_id ≡ resolved roles perms)
    ⊎ ((entry : CacheEntry) × (lookup user_id cache ≡ some entry)
        × (entry.roles ≡ roles)
        × (entry.perms ≡ perms)
        × ((now < entry.fetched_at + limits.ttl)
            ⊎ ((now < entry.fetched_at + limits.max_stale) × (fetch user_id ≡ unavailable))))

served_usable :
    (limits : Limits) (now limit : ℕ) (found : Option CacheEntry) (roles : List String)
    (perms : Map String Bool)
    → is_usable now limit found ≡ true
    → served found ≡ resolved roles perms
    → (entry : CacheEntry) × (found ≡ some entry)
      × (entry.roles ≡ roles)
      × (entry.perms ≡ perms)
      × (now < entry.fetched_at + limit)
served_usable limits now limit none roles perms u e = absurd (ground arith)
served_usable limits now limit (some entry) roles perms u e =
    (entry, refl, ground arith, ground arith, ground arith)

refresh_by :
    (limits : Limits) (fetch : ℕ → Resolution) (now user_id : ℕ) (cache : PermCache)
    (answer : Resolution) (roles : List String) (perms : Map String Bool)
    → fetch user_id ≡ answer
    → (refresh limits now user_id cache answer).0 ≡ resolved roles perms
    → IsJustified limits fetch now user_id cache roles perms
unfolding refresh
refresh_by limits fetch now user_id cache user_not_found roles perms f e = absurd (ground arith)
refresh_by limits fetch now user_id cache user_disabled roles perms f e = absurd (ground arith)
refresh_by limits fetch now user_id cache unavailable roles perms f e =
    elim (Bool-cases (is_usable now limits.max_stale (lookup user_id cache))) [
      | inr q ↦ absurd (ground arith)
      | inl q ↦
          let (entry, found, r, p, y) =
            served_usable limits now limits.max_stale (lookup user_id cache) roles perms q
              (ground arith) in
          inr (entry, found, r, p, inr (y, f))
    ]
refresh_by limits fetch now user_id cache (resolved roles' perms') roles perms f e = inl (f ∙ e)

-- GetUserPermissions never grants anything older than its limits: what it returns is what MySQL just
-- said, or a cached entry of this user younger than the TTL, or, where MySQL could not be asked, one
-- younger than the staleness bound.
pub get_user_permissions-IsJustified :
    (limits : Limits) (fetch : ℕ → Resolution) (now user_id : ℕ) (cache : PermCache)
    (roles : List String) (perms : Map String Bool)
    → (get_user_permissions limits fetch now user_id cache).0 ≡ resolved roles perms
    → IsJustified limits fetch now user_id cache roles perms
unfolding get_user_permissions
get_user_permissions-IsJustified limits fetch now user_id cache roles perms e =
    elim (Bool-cases (is_usable now limits.ttl (lookup user_id cache))) [
      | inl q ↦
          let (entry, found, r, p, y) =
            served_usable limits now limits.ttl (lookup user_id cache) roles perms q
              (ground arith) in
          inr (entry, found, r, p, inl y)
      | inr q ↦
          refresh_by limits fetch now user_id cache (fetch user_id) roles perms refl (ground arith)
    ]

-- The next call after InvalidateUserPermissions answers with the outcome of its fetch, an error too.
pub get_user_permissions-invalidate :
    (limits : Limits) (fetch : ℕ → Resolution) (now user_id : ℕ) (cache : PermCache)
    → IsUnique cache
    → (get_user_permissions limits fetch now user_id (invalidate_user_permissions user_id cache)).0
      ≡ fetch user_id
unfolding get_user_permissions invalidate_user_permissions refresh
get_user_permissions-invalidate limits fetch now user_id cache u =
    let gone : lookup user_id (remove user_id cache) ≡ none =
      ground (arith, lookup-remove user_id user_id cache u) in
    rw (gone, get_user_permissions) (missed (fetch user_id))
  where
    missed :
        (answer : Resolution)
        → (refresh limits now user_id (remove user_id cache) answer).0 ≡ answer
    missed user_not_found = refl
    missed user_disabled = refl
    missed unavailable =
        let gone : lookup user_id (remove user_id cache) ≡ none =
          ground (arith, lookup-remove user_id user_id cache u) in
        rw (gone, refresh) refl
    missed (resolved roles perms) = refl

-- Where the cached entry is missing or past its TTL, a user whom MySQL calls unknown or disabled gets
-- that error, however young the entry is by the staleness bound, and the call forgets the entry.
pub get_user_permissions-evicts :
    (limits : Limits) (fetch : ℕ → Resolution) (now user_id : ℕ) (cache : PermCache)
    → IsUnique cache
    → is_usable now limits.ttl (lookup user_id cache) ≡ false
    → (fetch user_id ≡ user_not_found) ⊎ (fetch user_id ≡ user_disabled)
    → ((get_user_permissions limits fetch now user_id cache).0 ≡ fetch user_id)
      × (lookup user_id (get_user_permissions limits fetch now user_id cache).1 ≡ none)
unfolding get_user_permissions refresh
get_user_permissions-evicts limits fetch now user_id cache u expired (inl f) =
    rw (expired, get_user_permissions, f)
      (refl, ground (arith, lookup-remove user_id user_id cache u))
get_user_permissions-evicts limits fetch now user_id cache u expired (inr f) =
    rw (expired, get_user_permissions, f)
      (refl, ground (arith, lookup-remove user_id user_id cache u))
