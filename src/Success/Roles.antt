-- ===== src/Success/Roles.antt =====
-- The loops over a user's roles, whatever order the database gives the rows in.
use poc_hydra_auth.Prelude.{
  String, ◌≡◌, refl, sym, ◌∙◌, Bool, List, [], ◌∷◌, inl, inr, any, str_eq, Bool-cases, sort_by,
  any-sort_by,
}
use poc_hydra_auth.Domain.Status.{is_admin_role, role_super_admin}
use poc_hydra_auth.Command.Steps.{has_admin_role}
use poc_hydra_auth.Command.DisableAccount.{has_super_admin_role}

has_admin_role-any : (rs : List String) → has_admin_role rs ≡ any is_admin_role rs
has_admin_role-any [] = refl
has_admin_role-any (r ∷ rs) = elim (Bool-cases (is_admin_role r)) [
  | inl e ↦ rw e refl
  | inr e ↦ rw e (has_admin_role-any rs)
]

has_super_admin_role-any :
    (rs : List String) → has_super_admin_role rs ≡ any (λ r. str_eq r role_super_admin) rs
has_super_admin_role-any [] = refl
has_super_admin_role-any (r ∷ rs) = elim (Bool-cases (str_eq r role_super_admin)) [
  | inl e ↦ rw e refl
  | inr e ↦ rw e (has_super_admin_role-any rs)
]

pub has_admin_role-sort_by :
    (before : String → String → Bool) (rs : List String)
    → has_admin_role (sort_by before rs) ≡ has_admin_role rs
has_admin_role-sort_by before rs =
    has_admin_role-any (sort_by before rs)
    ∙ any-sort_by is_admin_role before rs
    ∙ sym (has_admin_role-any rs)

pub has_super_admin_role-sort_by :
    (before : String → String → Bool) (rs : List String)
    → has_super_admin_role (sort_by before rs) ≡ has_super_admin_role rs
has_super_admin_role-sort_by before rs =
    has_super_admin_role-any (sort_by before rs)
    ∙ any-sort_by (λ r. str_eq r role_super_admin) before rs
    ∙ sym (has_super_admin_role-any rs)
