-- ===== src/Rbac/Provision/Refused.antt =====
-- An identity for which GetOrProvisionUserByExternalSubject of internal/services/rbac.go never finds or
-- makes an account: its e-mail address is another account's.
use velocity_engine_backend.Prelude.{
  ℕ, String, Bool, true, false, ◌≡◌, refl, sym, ◌∙◌, ◌⊎◌, ◌||◌, inl, inr, List, [], ◌∷◌, none, ◌==◌,
  comparable_string, Bool-cases, arith,
}
use velocity_engine_backend.Rbac.{present, absent, broken, JitRate}
use velocity_engine_backend.Rbac.Provision.{
  Account, Tables, inserted, Server, find_subject, get_user_by_external_subject, placeholder_email,
  get_or_provision_user_by_external_subject,
}
use velocity_engine_backend.Rbac.Provision.Complete.{
  get_or_provision-IsResolved, absent_ne_present, broken_ne_present,
}

-- Whether an account has this e-mail address.
abbrev pub is_email_taken : String → List Account → Bool
is_email_taken email [] = false
is_email_taken email (u ∷ us) = u.email == email || is_email_taken email us

module _ (server : Server) where
  missing-cases :
      (n : ℕ) (sub : String) (users : List Account)
      → find_subject server.equal sub users ≡ none
      → (get_user_by_external_subject server n sub users ≡ broken)
        ⊎ (get_user_by_external_subject server n sub users ≡ absent)
  unfolding get_user_by_external_subject
  missing-cases n sub users h = elim (Bool-cases (server.connected n)) [
    | inr q ↦ inl (rw (get_user_by_external_subject, q) refl)
    | inl q ↦ elim (Bool-cases (server.row n)) [
      | inr r ↦ inl (rw (get_user_by_external_subject, q, r) refl)
      | inl r ↦ inr (rw (get_user_by_external_subject, q, r, h) refl)
    ]
  ]

  missing-lookup :
      (n : ℕ) (sub : String) (users : List Account) (user : ℕ × String)
      → find_subject server.equal sub users ≡ none
      → ¬ (get_user_by_external_subject server n sub users ≡ present user)
  missing-lookup n sub users user h e = elim (missing-cases n sub users h) [
    | inl q ↦ broken_ne_present user (sym q ∙ e)
    | inr q ↦ absent_ne_present user (sym q ∙ e)
  ]

  -- If MySQL refuses an e-mail address that an account has, an identity without an account whose address,
  -- its own or the placeholder, another account has, gets neither a user nor an account.
  pub get_or_provision-email_taken :
      (limit now : ℕ) (sub source_ip : String) (rate : JitRate) (before : List Account) (t : Tables)
      → ((users : List Account) (subject email : String) (id : ℕ)
          → server.insert_user users subject email ≡ inserted id
          → is_email_taken email users ≡ false)
      → find_subject server.equal sub before ≡ none
      → find_subject server.equal sub t.users ≡ none
      → is_email_taken (placeholder_email server sub) t.users ≡ true
      → ((get_or_provision_user_by_external_subject server limit now sub source_ip rate before
            t).2.users
          ≡ t.users)
        × ((user : ℕ × String)
            → ¬ (
                (get_or_provision_user_by_external_subject server limit now sub source_ip rate
                  before t).0
                ≡ present user))
  get_or_provision-email_taken limit now sub source_ip rate before t unique unseen missing taken =
      elim (get_or_provision-IsResolved server limit now sub source_ip rate before t) [
        | inl (same, found) ↦ (
          same,
          λ user e. elim (found user e) [
            | inl q ↦ missing-lookup 0 sub before user unseen q
            | inr q ↦ missing-lookup 2 sub t.users user missing q
          ],
        )
        | inr (id, _, _, _, (role_id, _, i, _)) ↦
            let free = unique t.users sub (placeholder_email server sub) id i in
            absurd (ground arith)
      ]
