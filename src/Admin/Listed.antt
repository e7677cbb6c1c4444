-- ===== src/Admin/Listed.antt =====
-- The roles that the admin panel lists.
use mathlib.Core.List.{append_assoc, append-nil}
use velocity_engine_backend.Prelude.{
  String, ◌≡◌, refl, sym, ◌∙◌, List, [], ◌∷◌, ◌++◌, if◌then◌else◌, ◌==◌, ==_iff, comparable_string,
  Bool-cases, inl, inr, arith,
}
use velocity_engine_backend.Admin.{RoleRow, AdminRole, granted, add_role_row, list_roles}

-- The permissions under a name, of the first role of that name.
unfoldable pub permissions_of : String → List AdminRole → List String
permissions_of name [] = []
permissions_of name (r ∷ rs) = if r.name == name then r.permissions else permissions_of name rs

-- What the rows of one name grant, in their order.
unfoldable pub granted_to : String → List RoleRow → List String
granted_to name [] = []
granted_to name (row ∷ rows) =
    let rest = granted_to name rows in
    if row.name == name then granted row.resource row.action ++ rest else rest

permissions-add_role_row :
    (name : String) (row : RoleRow) (roles : List AdminRole)
    → permissions_of name (add_role_row row roles) ≡ (
        if row.name == name
        then permissions_of name roles ++ granted row.resource row.action
        else permissions_of name roles)
unfolding permissions_of add_role_row
permissions-add_role_row name row [] = refl
permissions-add_role_row name row (r ∷ rs) = ground (
  arith,
  permissions-add_role_row name row rs,
  ==_iff r.name row.name,
  ==_iff r.name name,
  ==_iff row.name name,
)

permissions-list_roles_from :
    (name : String) (rows : List RoleRow) (roles : List AdminRole)
    → permissions_of name (list_roles rows roles)
      ≡ permissions_of name roles ++ granted_to name rows
unfolding list_roles granted_to
permissions-list_roles_from name [] roles = sym (append-nil (permissions_of name roles))
permissions-list_roles_from name (row ∷ rows) roles =
    permissions-list_roles_from name rows (add_role_row row roles)
    ∙ elim (Bool-cases (row.name == name)) [
      | inl e ↦
          rw (permissions-add_role_row name row roles, e)
            (append_assoc (permissions_of name roles) (granted row.resource row.action)
              (granted_to name rows))
      | inr e ↦ rw (permissions-add_role_row name row roles, e) refl
    ]

-- Every role is listed with exactly the permissions that its rows grant, in the order of the rows,
-- wherever these rows stand among those of other roles.
pub permissions-list_roles :
    (name : String) (rows : List RoleRow)
    → permissions_of name (list_roles rows []) ≡ granted_to name rows
unfolding permissions_of
permissions-list_roles name rows = permissions-list_roles_from name rows []
