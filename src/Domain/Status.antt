-- ===== src/Domain/Status.antt =====
-- account_status.go, login.go and the roles of invitation.go and registration.go.
use poc_hydra_auth.Prelude.{String, Bool, true, false, ◌||◌, str_eq, if◌then◌else◌}
use poc_hydra_auth.Errors.{sentinel, invalid_admin_role, email_not_verified}
use poc_hydra_auth.Errors.{Sentinel}
use poc_hydra_auth.Exec.{Result, ok, err}

-- The check users_status_check of migration 0005 admits these four strings and no other.
pub data Status : Type 0 where
  mail_unverified inactive disabled deleted : Status

abbrev pub status_eq : Status → Status → Bool
status_eq mail_unverified mail_unverified = true
status_eq inactive inactive = true
status_eq disabled disabled = true
status_eq deleted deleted = true
status_eq _ _ = false

-- CheckLoginableStatus
unfoldable pub check_loginable_status : Status → Result (Unit {0})
check_loginable_status inactive = ok tt
check_loginable_status disabled = err (sentinel Sentinel.account_disabled)
check_loginable_status _ = err (sentinel email_not_verified)

abbrev pub role_user : String
role_user = "user"

abbrev pub role_super_admin : String
role_super_admin = "super_admin"

abbrev pub role_operator : String
role_operator = "operator"

abbrev pub role_system_admin : String
role_system_admin = "system_admin"

-- IsAdminRole
unfoldable pub is_admin_role : String → Bool
is_admin_role role =
    str_eq role role_super_admin || (str_eq role role_operator || str_eq role role_system_admin)

-- ValidateAdminRole
unfoldable pub validate_admin_role : String → Result (Unit {0})
validate_admin_role role = if is_admin_role role then ok tt else err (sentinel invalid_admin_role)
