-- ===== src/Rbac/Provision/Complete.antt =====
-- What GetOrProvisionUserByExternalSubject of internal/services/rbac.go does to the accounts.
use velocity_engine_backend.Prelude.{
  ℕ, String, Bool, true, false, ◌≡◌, ◌≢◌, refl, sym, ap, ◌∙◌, ◌⊎◌, inl, inr, List, [], ◌∷◌, ◌++◌,
  none, some, ◌==◌, comparable_nat, comparable_string, Bool-cases, Option-cases, All, length, ◌≤◌,
  arith,
}
use velocity_engine_backend.Prelude.Maps.{Map, lookup}
use velocity_engine_backend.Rbac.{broken, absent, present, JitRate, jit_rate_limited}
use velocity_engine_backend.Rbac.Provision.{
  Account, AuditRow, Tables, Inserted, inserted, not_inserted, Server, Provisioned, failed, created,
  Identified, get_user_by_external_subject, placeholder_email, new_account, grant_default_role,
  provision_user_by_external_subject, insert_audit_row, record_audit_event, jit_provision,
  after_provisioning, provision_limited, get_or_provision_user_by_external_subject,
}

abbrev is_present : Identified → Bool
is_present (present _) = true
is_present _ = false

pub absent_ne_present : (user : ℕ × String) → ◌≢◌ {A = Identified} absent (present user)
absent_ne_present user e = let e' : false ≡ true = ap is_present e in ground arith

pub broken_ne_present : (user : ℕ × String) → ◌≢◌ {A = Identified} broken (present user)
broken_ne_present user e = let e' : false ≡ true = ap is_present e in ground arith

-- An account with a role
abbrev pub HasRole : Account → Type 0
HasRole u = 1 ≤ length u.role_ids

module _ (server : Server) where
  -- One account more, ACTIVE and with the default role
  abbrev pub IsCreated : String → ℕ → Tables → Tables → Type 0
  IsCreated sub id t after =
      (role_id : ℕ) × (lookup "READ_ONLY_ANALYST" t.roles ≡ some role_id)
      × (server.insert_user t.users sub (placeholder_email server sub) ≡ inserted id)
      × (after.users ≡ t.users ++ new_account server id role_id sub ∷ [])

  abbrev IsProvisioned : String → Tables → Provisioned × Tables → Type 0
  IsProvisioned sub t (failed number, after) = after ≡ t
  IsProvisioned sub t (created id, after) = IsCreated sub id t after

  insert_audit_row-users :
      (r : AuditRow) (t : Tables) → (insert_audit_row server r t).1.users ≡ t.users
  unfolding insert_audit_row
  insert_audit_row-users r t = elim (Bool-cases server.recorded) [
    | inl q ↦ rw (insert_audit_row, q) refl
    | inr q ↦ rw (insert_audit_row, q) refl
  ]

  record_audit_event-users :
      (r : AuditRow) (m : Map String String) (t : Tables)
      → (record_audit_event server r (some m) t).1.users ≡ t.users
  unfolding record_audit_event
  record_audit_event-users r m t = elim (Bool-cases (server.connected 2)) [
    | inr q ↦ rw (record_audit_event, q) refl
    | inl q ↦ elim (Option-cases (server.marshal m)) [
      | inl e ↦ rw (record_audit_event, q, e) refl
      | inr (text, e) ↦
          rw (record_audit_event, q, e)
            (insert_audit_row-users (record r { metadata = some text }) t)
    ]
  ]

  grant_default_role-IsProvisioned :
      (id : ℕ) (sub : String) (t : Tables)
      → server.insert_user t.users sub (placeholder_email server sub) ≡ inserted id
      → IsProvisioned sub t (grant_default_role server id sub t)
  unfolding grant_default_role
  grant_default_role-IsProvisioned id sub t i = elim (Bool-cases server.last_id) [
    | inr q ↦ rw (grant_default_role, q) refl
    | inl q ↦ elim (Bool-cases server.role_row) [
      | inr r ↦ rw (grant_default_role, q, r) refl
      | inl r ↦ elim (Option-cases (lookup "READ_ONLY_ANALYST" t.roles)) [
        | inl e ↦ rw (grant_default_role, q, r, e) refl
        | inr (role_id, e) ↦ elim (Bool-cases server.granted) [
          | inr g ↦ rw (grant_default_role, q, r, e, g) refl
          | inl g ↦ elim (Bool-cases server.committed) [
            | inr c ↦ rw (grant_default_role, q, r, e, g, c) refl
            | inl c ↦ rw (grant_default_role, q, r, e, g, c) (role_id, e, i, refl)
          ]
        ]
      ]
    ]
  ]

  provision_by :
      (sub : String) (t : Tables) (answer : Inserted)
      → server.insert_user t.users sub (placeholder_email server sub) ≡ answer
      → IsProvisioned sub t (provision_user_by_external_subject server sub t)
  unfolding provision_user_by_external_subject
  provision_by sub t answer i = elim (Bool-cases (server.connected 1)) [
    | inr q ↦ rw (provision_user_by_external_subject, q) refl
    | inl q ↦ elim (Bool-cases server.begun) [
      | inr b ↦ rw (provision_user_by_external_subject, q, b) refl
      | inl b ↦ answered q b answer i
    ]
  ]
    where
      answered :
          server.connected 1 ≡ true
          → server.begun ≡ true
          → (answer : Inserted)
          → server.insert_user t.users sub (placeholder_email server sub) ≡ answer
          → IsProvisioned sub t (provision_user_by_external_subject server sub t)
      answered q b (inserted id) i =
          rw (provision_user_by_external_subject, q, b, i)
            (grant_default_role-IsProvisioned id sub t i)
      answered q b (not_inserted number) i = rw (provision_user_by_external_subject, q, b, i) refl

  -- The request leaves the accounts as they are and answers with what a lookup has found, if with a user
  -- at all; or, not being over the limit, it adds the account that it answers with.
  abbrev pub IsResolved :
      ℕ → ℕ → String → String → JitRate → List Account → Tables → Identified → Tables → Type 0
  IsResolved limit now sub source_ip rate before t result after =
      ((after.users ≡ t.users)
        × ((user : ℕ × String)
            → result ≡ present user
            → (get_user_by_external_subject server 0 sub before ≡ present user)
              ⊎ (get_user_by_external_subject server 2 sub t.users ≡ present user)))
      ⊎ ((id : ℕ) × (result ≡ present (id, "ACTIVE"))
          × (get_user_by_external_subject server 0 sub before ≡ absent)
          × ((jit_rate_limited limit now source_ip rate).0 ≡ false)
          × IsCreated sub id t after)

  after_provisioning-cases :
      (sub source_ip : String) (t : Tables) (provisioned : Provisioned × Tables)
      → IsProvisioned sub t provisioned
      → (((after_provisioning server sub source_ip provisioned).1.users ≡ t.users)
          × (((after_provisioning server sub source_ip provisioned).0 ≡ broken)
              ⊎ ((after_provisioning server sub source_ip provisioned).0
                  ≡ get_user_by_external_subject server 2 sub t.users)))
        ⊎ ((id : ℕ) × ((after_provisioning server sub source_ip provisioned).0
              ≡ present (id, "ACTIVE"))
            × IsCreated sub id t (after_provisioning server sub source_ip provisioned).1)
  unfolding after_provisioning
  after_provisioning-cases sub source_ip t (failed none, after) same =
      inl (ap (λ (x : Tables). x.users) same, inl refl)
  after_provisioning-cases sub source_ip t (failed (some number), after) same =
      elim (Bool-cases (number == 1062)) [
        | inr q ↦ inl (rw (after_provisioning, q, same) (refl, inl refl))
        | inl q ↦ inl (rw (after_provisioning, q, same) (refl, inr refl))
      ]
  after_provisioning-cases sub source_ip t (created id, after) (role_id, e, i, added) = inr (
    id,
    refl,
    (
      role_id,
      e,
      i,
      record_audit_event-users (jit_provision server id)
            (("external_subject", sub) ∷ ("source_ip", source_ip) ∷ []) after
          ∙ added,
    ),
  )

  provision_limited-IsResolved :
      (limit now : ℕ) (sub source_ip : String) (rate : JitRate) (before : List Account) (t : Tables)
      → get_user_by_external_subject server 0 sub before ≡ absent
      → IsResolved limit now sub source_ip rate before t
          (provision_limited server limit now sub source_ip rate t).0
          (provision_limited server limit now sub source_ip rate t).2
  unfolding provision_limited
  provision_limited-IsResolved limit now sub source_ip rate before t missing =
      elim (Bool-cases (jit_rate_limited limit now source_ip rate).0) [
        | inl q ↦
            inl (rw (provision_limited, q) (refl, λ user e. absurd (absent_ne_present user e)))
        | inr q ↦
            elim (after_provisioning-cases sub source_ip t
              (provision_user_by_external_subject server sub t) (provision_by sub t _ refl)) [
                | inl (same, inl b) ↦ inl (
                    rw (provision_limited, q)
                      (same, λ user e. absurd (broken_ne_present user (sym b ∙ e))))
                | inl (same, inr f) ↦
                    inl (rw (provision_limited, q) (same, λ user e. inr (sym f ∙ e)))
                | inr (id, answer, made) ↦ inr (
                  id,
                  rw (provision_limited, q) answer,
                  missing,
                  q,
                  rw (provision_limited, q) made,
                )
              ]
      ]

  pub get_or_provision-IsResolved :
      (limit now : ℕ) (sub source_ip : String) (rate : JitRate) (before : List Account) (t : Tables)
      → IsResolved limit now sub source_ip rate before t
          (get_or_provision_user_by_external_subject server limit now sub source_ip rate before t).0
          (get_or_provision_user_by_external_subject server limit now sub source_ip rate before t).2
  unfolding get_or_provision_user_by_external_subject
  get_or_provision-IsResolved limit now sub source_ip rate before t =
      looked_up (get_user_by_external_subject server 0 sub before) refl
    where
      looked_up :
          (found : Identified)
          → get_user_by_external_subject server 0 sub before ≡ found
          → IsResolved limit now sub source_ip rate before t
              (get_or_provision_user_by_external_subject server limit now sub source_ip rate before
                t).0
              (get_or_provision_user_by_external_subject server limit now sub source_ip rate before
                t).2
      looked_up (present found) e =
          inl (rw (get_or_provision_user_by_external_subject, e) (refl, λ user f. inl f))
      looked_up broken e = inl (
          rw (get_or_provision_user_by_external_subject, e)
            (refl, λ user f. absurd (broken_ne_present user f)))
      looked_up absent e =
          let opened : get_or_provision_user_by_external_subject server limit now sub source_ip rate
                before t
              ≡ provision_limited server limit now sub source_ip rate t =
            rw (get_or_provision_user_by_external_subject, e) refl in
          rw opened (provision_limited-IsResolved limit now sub source_ip rate before t e)

  All-append :
      (us : List Account) (u : Account) → All HasRole us → HasRole u → All HasRole (us ++ u ∷ [])
  All-append [] u a h = (h, tt)
  All-append (v ∷ us) u (g, a) h = (g, All-append us u a h)

  -- Where every account has a role, every account has one after a request of an unknown identity too.
  pub get_or_provision-HasRole :
      (limit now : ℕ) (sub source_ip : String) (rate : JitRate) (before : List Account) (t : Tables)
      → All HasRole t.users
      → All HasRole
          (get_or_provision_user_by_external_subject server limit now sub source_ip rate before
            t).2.users
  get_or_provision-HasRole limit now sub source_ip rate before t a =
      elim (get_or_provision-IsResolved limit now sub source_ip rate before t) [
        | inl (same, _) ↦ rw same a
        | inr (id, _, _, _, (role_id, _, _, added)) ↦
            rw added (All-append t.users (new_account server id role_id sub) a (omega arith))
      ]
