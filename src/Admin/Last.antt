-- ===== src/Admin/Last.antt =====
-- One request never leaves the deployment without an active super admin; two at once may.
use velocity_engine_backend.Prelude.{
  ℕ, ◌+◌, ◌≤◌, ◌≡◌, refl, ap, ◌∙◌, ◌≢◌, Bool, false, ◌&&◌, not, List, [], ◌∷◌, some, if◌then◌else◌,
  ◌==◌, ==_iff, comparable_string, comparable_nat, leb, Bool-cases, Option-cases, ◌⊎◌, inl, inr,
  arith,
}
use velocity_engine_backend.Admin.{
  AdminUser, UserPatch, Error, State, Answers, find_user, patched, is_active_super_admin,
  count_active_super_admins, write_user, Checked, rejected, permitted, demotes, check_update,
  commits, apply_update, update_user,
}

abbrev one_if : Bool → ℕ
one_if b = if b then 1 else 0

count-cons :
    (u : AdminUser) (us : List AdminUser)
    → count_active_super_admins (u ∷ us)
      ≡ one_if (is_active_super_admin u) + count_active_super_admins us
unfolding count_active_super_admins
count-cons u us = ground arith

-- The patch makes the target what it says.
patched-is_active :
    (patch : UserPatch) (target : AdminUser)
    → is_active_super_admin (patched patch target target) ≡ not (demotes patch)
patched-is_active patch target =
    ground (arith, ==_iff patch.role target.role, ==_iff patch.status target.status)

find_user-id :
    (id : ℕ) (users : List AdminUser) (u : AdminUser) → find_user id users ≡ some u → u.id ≡ id
unfolding find_user
find_user-id id [] u e = absurd (ground arith)
find_user-id id (v ∷ vs) u e = ground (arith, ==_iff v.id id, find_user-id id vs u)

-- A write moves the count by the user who is found.
count-write_user :
    (patch : UserPatch) (users : List AdminUser) (target : AdminUser)
    → find_user target.id users ≡ some target
    → count_active_super_admins (write_user patch target users)
        + one_if (is_active_super_admin target)
      ≡ count_active_super_admins users + one_if (not (demotes patch))
unfolding find_user write_user
count-write_user patch [] target e = absurd (ground arith)
count-write_user patch (u ∷ us) target e = elim (Bool-cases (u.id == target.id)) [
  | inl q ↦
      let same : u ≡ target = ground arith in
      rw (q, same)
        (omega (
          arith,
          count-cons (patched patch target target) us,
          count-cons target us,
          ap one_if (patched-is_active patch target),
        ))
  | inr q ↦
      let later : find_user target.id us ≡ some target = ground arith in
      rw q (
        omega (
          arith,
          count-cons u (write_user patch target us),
          count-cons u us,
          count-write_user patch us target later,
        ))
]

-- What has been permitted: the target is not the actor, and is not the last super admin where the patch
-- demotes it.
record IsPermitted (actor target_id : ℕ) (patch : UserPatch) (users : List AdminUser)
    (target : AdminUser) : Type 0 where
  found : find_user target_id users ≡ some target
  other : target_id ≢ actor
  spared :
      (is_active_super_admin target && leb (count_active_super_admins users) 1 && demotes patch)
      ≡ false

check_update-IsPermitted :
    (a : Answers) (actor target_id : ℕ) (patch : UserPatch) (users : List AdminUser)
    (target : AdminUser)
    → check_update a actor target_id patch users ≡ permitted target
    → IsPermitted actor target_id patch users target
unfolding check_update
check_update-IsPermitted a actor target_id patch users target e =
    elim (Option-cases (find_user target_id users)) [
      | inl q ↦ absurd (ground arith)
      | inr (u, q) ↦
          let same : u ≡ target = ground arith in
          record {
            found = q ∙ ap some same;
            other = ground (arith, ==_iff target_id actor);
            spared = ground arith;
          }
    ]

Checked-cases :
    (c : Checked)
    → ((e : Error) × (c ≡ rejected e)) ⊎ ((target : AdminUser) × (c ≡ permitted target))
Checked-cases (rejected e) = inl (e, refl)
Checked-cases (permitted target) = inr (target, refl)

apply_update-count :
    (a : Answers) (actor target_id : ℕ) (patch : UserPatch) (target : AdminUser) (s : State)
    → IsPermitted actor target_id patch s.users target
    → 1 ≤ count_active_super_admins s.users
    → 1 ≤ count_active_super_admins (apply_update a actor target_id patch target s).1.users
unfolding apply_update
apply_update-count a actor target_id patch target s p h =
    let id = find_user-id target_id s.users target p.found in
    let found : find_user target.id s.users ≡ some target =
      ap (λ k. find_user k s.users) id ∙ p.found in
    let count = count-write_user patch s.users target found in
    elim (Bool-cases (commits a patch target s.roles)) [
      | inl q ↦ rw q (ground (arith, count, p.spared))
      | inr q ↦ rw q h
    ]

-- Whatever is asked, by whom and of whom, and whatever MySQL answers: where there is an active super
-- admin before the request there is one after it.
pub update_user-keeps_super_admin :
    (a : Answers) (actor target_id : ℕ) (patch : UserPatch) (s : State)
    → 1 ≤ count_active_super_admins s.users
    → 1 ≤ count_active_super_admins (update_user a actor target_id patch s).1.users
unfolding update_user
update_user-keeps_super_admin a actor target_id patch s h =
    elim (Checked-cases (check_update a actor target_id patch s.users)) [
      | inl (e, q) ↦ rw q h
      | inr (target, q) ↦ rw q (
          apply_update-count a actor target_id patch target s
            (check_update-IsPermitted a actor target_id patch s.users target q) h)
    ]
