-- ===== src/AdminScenarios.antt =====
-- Two super administrators of the small service of Scenarios, of whom only one can be disabled.
use poc_hydra_auth.Prelude.{ℕ, ◌≤◌, refl, none, String, List, [], ◌∷◌, length}
use poc_hydra_auth.Domain.Status.{Status, inactive, role_super_admin}
use poc_hydra_auth.Db.{AuthUser, AuthUserRole, empty_db}
use poc_hydra_auth.Db.Users.{active_super_admins}
use poc_hydra_auth.World.{World}
use poc_hydra_auth.Service.{Request, run, disables}
use poc_hydra_auth.History.Keyed.{no_rows, row}
use poc_hydra_auth.History.Admins.Kept.{HasKeys, last_super_admin_kept}
use poc_hydra_auth.Scenarios.{K, env, laws, world}

abbrev admin_at : ℕ → String → Status → AuthUser
admin_at id email status = record {
  user_uuid = id;
  email = email;
  password_hash = "correct horse battery";
  status = status;
  created_at = 0;
  updated_at = 0;
  deleted_at = none;
}

abbrev super_role : ℕ → AuthUserRole
super_role id = record { user_uuid = id; role = role_super_admin; granted_at = 0 }

abbrev two_admins : World K
two_admins = record world {
  db = record empty_db {
    users = admin_at 2 "b@example.org" inactive ∷ admin_at 1 "a@example.org" inactive ∷ [];
    user_roles = super_role 2 ∷ super_role 1 ∷ [];
  };
}

-- Each disables the other.
abbrev both_disabled : List (ℕ × K × Request)
both_disabled = (110, tt, disables "one" "two") ∷ (120, tt, disables "two" "one") ∷ []

two_admins_keys : HasKeys two_admins.db
two_admins_keys = record {
  users_keyed =
      row (admin_at 2 "b@example.org" inactive) refl
        (row (admin_at 1 "a@example.org" inactive) refl no_rows);
  roles_keyed = row (super_role 2) refl (row (super_role 1) refl no_rows);
}

last_super_admin_kept_example :
    HasKeys (run env both_disabled two_admins).db
    × (1 ≤ length (active_super_admins two_admins.db.users two_admins.db.user_roles)
        → 1
          ≤ length (
              active_super_admins
                (run env both_disabled two_admins).db.users
                (run env both_disabled two_admins).db.user_roles))
last_super_admin_kept_example =
    last_super_admin_kept env laws both_disabled two_admins two_admins_keys
