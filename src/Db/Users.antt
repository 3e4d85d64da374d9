-- ===== src/Db/Users.antt =====
-- dbmodels/users.sql.go: the statements on auth.users and auth.user_roles.
-- Insertions keep the primary keys and users_email_unique of migration 0001; a broken length limit
-- or foreign key is among the failures that any statement may meet.
use poc_hydra_auth.Prelude.{
  sort_by, leb, ℕ, String, Bool, ◌&&◌, none, List, [], ◌∷◌, ◌++◌, ◌==◌, str_eq, if◌then◌else◌,
  is_none, find?, any, count_where, update_where, length,
}
use poc_hydra_auth.Errors.{pg_error, unique_violation}
use poc_hydra_auth.Exec.{ok, err}
use poc_hydra_auth.Domain.Status.{Status, status_eq, inactive, role_super_admin}
use poc_hydra_auth.Db.{AuthUser, AuthUserRole}
use poc_hydra_auth.World.{M, Env, statement, select_one, select_many}

-- WHERE email = $1 AND deleted_at IS NULL
abbrev pub has_email : String → AuthUser → Bool
has_email email u = str_eq u.email email && is_none u.deleted_at

-- WHERE user_uuid = $1 AND deleted_at IS NULL
abbrev pub is_user : ℕ → AuthUser → Bool
is_user user_uuid u = u.user_uuid == user_uuid && is_none u.deleted_at

-- WHERE user_uuid = $1 AND status = $3 AND deleted_at IS NULL
abbrev pub in_status : ℕ → Status → AuthUser → Bool
in_status user_uuid status u =
    u.user_uuid == user_uuid && (status_eq u.status status && is_none u.deleted_at)

-- u.status = 'inactive' AND u.deleted_at IS NULL
abbrev pub is_active : AuthUser → Bool
is_active u = status_eq u.status inactive && is_none u.deleted_at

-- ur.user_uuid = $1 AND ur.role = 'super_admin'
abbrev pub grants_super_admin : ℕ → AuthUserRole → Bool
grants_super_admin user_uuid r = r.user_uuid == user_uuid && str_eq r.role role_super_admin

-- The user_uuid of each joined row of a user.
abbrev pub copies : ℕ → AuthUserRole → List ℕ → List ℕ
copies user_uuid r rest = if grants_super_admin user_uuid r then user_uuid ∷ rest else rest

abbrev pub joined_rows : ℕ → List AuthUserRole → List ℕ
joined_rows user_uuid [] = []
joined_rows user_uuid (r ∷ rs) = copies user_uuid r (joined_rows user_uuid rs)

-- The join of LockActiveSuperAdmins and CountActiveSuperAdmins, in the order of the table.
abbrev pub active_super_admins : List AuthUser → List AuthUserRole → List ℕ
active_super_admins [] roles = []
active_super_admins (u ∷ us) roles =
    (if is_active u then joined_rows u.user_uuid roles else []) ++ active_super_admins us roles

abbrev pub user_role_names : ℕ → List AuthUserRole → List String
user_role_names user_uuid [] = []
user_role_names user_uuid (r ∷ rs) =
    let rest = user_role_names user_uuid rs in
    if r.user_uuid == user_uuid then r.role ∷ rest else rest

pub record InsertUserParams : Type 0 where
  pub user_uuid : ℕ
  pub email : String
  pub password_hash : String
  pub status : Status

abbrev pub inserted_user : ℕ → InsertUserParams → AuthUser
inserted_user now arg = record {
  user_uuid = arg.user_uuid;
  email = arg.email;
  password_hash = arg.password_hash;
  status = arg.status;
  created_at = now;
  updated_at = now;
  deleted_at = none;
}

module _ {K : Type 0} (env : Env K) where
  unfoldable pub get_user_by_email : String → M K AuthUser
  get_user_by_email email = select_one env (λ db. find? (has_email email) db.users)

  unfoldable pub get_user_by_uuid : ℕ → M K AuthUser
  get_user_by_uuid user_uuid = select_one env (λ db. find? (is_user user_uuid) db.users)

  -- ORDER BY role
  unfoldable pub get_user_roles : ℕ → M K (List String)
  get_user_roles user_uuid =
      select_many env (λ db. sort_by env.collates (user_role_names user_uuid db.user_roles))

  unfoldable pub insert_user : InsertUserParams → M K (Unit {0})
  insert_user arg = statement env λ now db.
      if any (λ u. u.user_uuid == arg.user_uuid) db.users
      then (err (pg_error (unique_violation "users_pkey")), db)
      else if any (has_email arg.email) db.users
      then (err (pg_error (unique_violation "users_email_unique")), db)
      else (ok tt, record db { users = inserted_user now arg ∷ db.users })

  unfoldable pub insert_user_role : ℕ → String → M K (Unit {0})
  insert_user_role user_uuid role = statement env λ now db.
      if any (λ r. r.user_uuid == user_uuid && str_eq r.role role) db.user_roles
      then (err (pg_error (unique_violation "user_roles_pkey")), db)
      else (
        ok tt,
        record db {
          user_roles =
              record { user_uuid = user_uuid; role = role; granted_at = now } ∷ db.user_roles;
        },
      )

  -- The number of rows that it changed comes back.
  unfoldable pub transition_user_status : ℕ → Status → Status → M K ℕ
  transition_user_status user_uuid status status_2 = statement env λ now db. (
    ok (count_where (in_status user_uuid status_2) db.users),
    record db {
      users =
          update_where (in_status user_uuid status_2)
            (λ u. record u { status = status; updated_at = now }) db.users;
    },
  )

  unfoldable pub update_user_password : ℕ → String → M K ℕ
  update_user_password user_uuid password_hash = statement env λ now db. (
    ok (count_where (is_user user_uuid) db.users),
    record db {
      users =
          update_where (is_user user_uuid)
            (λ u. record u { password_hash = password_hash; updated_at = now }) db.users;
    },
  )

  unfoldable pub count_active_super_admins : M K ℕ
  count_active_super_admins =
      select_many env (λ db. length (active_super_admins db.users db.user_roles))

  -- FOR UPDATE OF u: no other request runs at the same time here.
  unfoldable pub lock_active_super_admins : M K (List ℕ)
  lock_active_super_admins =
      select_many env (λ db. sort_by leb (active_super_admins db.users db.user_roles))
