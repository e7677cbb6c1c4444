-- ===== src/Admin/Race.antt =====
-- What two updates of users at the same time can do, as the checks of updateUserImpl read outside its
-- transaction.
use velocity_engine_backend.Prelude.{
  ℕ, ◌≡◌, refl, sym, ap, ◌∙◌, ◌≢◌, true, false, ◌&&◌, List, [], ◌∷◌, some, ==_iff,
  comparable_string, comparable_nat, arith,
}
use velocity_engine_backend.Admin.{
  AdminUser, UserPatch, State, Answers, find_user, patched, is_active_super_admin,
  count_active_super_admins, write_user, permitted, check_update, commits, apply_update, follow,
}

-- Two requests whose checks are both made before either writes.
abbrev pub race : Answers → ℕ → ℕ → UserPatch → State → State
race a first second patch s =
    let after = (follow a second first patch s (check_update a second first patch s.users)).1 in
    (follow a first second patch after (check_update a first second patch s.users)).1

check_update-permits :
    (a : Answers) (actor target_id : ℕ) (patch : UserPatch) (users : List AdminUser)
    (target : AdminUser)
    → find_user target_id users ≡ some target
    → target_id ≢ actor
    → count_active_super_admins users ≡ 2
    → (a.connected && a.row && a.count) ≡ true
    → check_update a actor target_id patch users ≡ permitted target
unfolding check_update
check_update-permits a actor target_id patch users target f n c ok =
    rw (f, c) (ground (arith, ==_iff target_id actor))

apply_update-users :
    (a : Answers) (actor target_id : ℕ) (patch : UserPatch) (target : AdminUser) (s : State)
    → patch.role ≡ target.role
    → (a.begun && a.updated && a.committed) ≡ true
    → (apply_update a actor target_id patch target s).1.users ≡ write_user patch target s.users
unfolding apply_update
apply_update-users a actor target_id patch target s r ok =
    let c : commits a patch target s.roles ≡ true = ground (arith, ==_iff patch.role target.role) in
    rw c refl

-- Two active super admins who disable each other at the same time, MySQL answering, both pass the check
-- and leave no active super admin, where there are no others.
pub race-none_left :
    (a : Answers) (x y : AdminUser) (patch : UserPatch) (s : State)
    → x.id ≢ y.id
    → is_active_super_admin x ≡ true
    → is_active_super_admin y ≡ true
    → patch.role ≡ "SUPER_ADMIN"
    → patch.status ≢ "ACTIVE"
    → (a.connected && a.row && a.count) ≡ true
    → (a.begun && a.updated && a.committed) ≡ true
    → count_active_super_admins (race a x.id y.id patch (record s { users = x ∷ y ∷ [] })).users ≡ 0
unfolding find_user write_user count_active_super_admins
race-none_left a x y patch s n p q r d ok run =
    let users = x ∷ y ∷ [] in
    let t = record s { users = users } in
    let two : count_active_super_admins users ≡ 2 = ground arith in
    let found_x : find_user x.id users ≡ some x = ground (arith, ==_iff x.id x.id) in
    let found_y : find_user y.id users ≡ some y =
      ground (arith, ==_iff y.id y.id, ==_iff x.id y.id) in
    let role_x : patch.role ≡ x.role = ground (arith, ==_iff x.role "SUPER_ADMIN") in
    let role_y : patch.role ≡ y.role = ground (arith, ==_iff y.role "SUPER_ADMIN") in
    let check_x = check_update-permits a y.id x.id patch users x found_x n two ok in
    let check_y = check_update-permits a x.id y.id patch users y found_y (λ e. n (sym e)) two ok in
    let after = (apply_update a y.id x.id patch x t).1 in
    let first = apply_update-users a y.id x.id patch x t role_x run in
    let second = apply_update-users a x.id y.id patch y after role_y run in
    let c_x = check_update a y.id x.id patch users in
    let passed =
      ap (λ c. (follow a x.id y.id patch (follow a y.id x.id patch t c_x).1 c).1.users) check_y
      ∙ ap (λ c. (follow a x.id y.id patch (follow a y.id x.id patch t c).1 (permitted y)).1.users)
          check_x
      ∙ second
      ∙ ap (write_user patch y) first in
    let x_out : is_active_super_admin (patched patch x x) ≡ false = ground (
      arith,
      ==_iff patch.role x.role,
      ==_iff patch.status x.status,
      ==_iff patch.status "ACTIVE",
    ) in
    let y_out : is_active_super_admin (patched patch y y) ≡ false = ground (
      arith,
      ==_iff patch.role y.role,
      ==_iff patch.status y.status,
      ==_iff patch.status "ACTIVE",
    ) in
    ap count_active_super_admins passed
    ∙ ground (arith, ==_iff x.id x.id, ==_iff y.id y.id, ==_iff x.id y.id, x_out, y_out)
