-- ===== src/Command/ChangePassword.antt =====
-- change_password.go (UC-010)
use poc_hydra_auth.Prelude.{ℕ, String, not, Option, none, some}
use poc_hydra_auth.Errors.{
  Reason, sentinel, session_revoked_error, account_deleted, password_mismatch,
}
use poc_hydra_auth.Exec.{◌>>=◌, ◌>>◌, raise, lift, guard, wrapping}
use poc_hydra_auth.Domain.Status.{status_eq, disabled}
use poc_hydra_auth.Domain.Validation.{validate_password}
use poc_hydra_auth.Domain.Token.{password_bcrypt_cost, verify_password}
use poc_hydra_auth.World.{M, Env, generate_from_password}
use poc_hydra_auth.Repo.Users.{UserCredentials, get_user_credentials, change_password_tx}

module _ {K : Type 0} (env : Env K) where
  -- Steps 5 to 9.
  unfoldable pub change_with : ℕ → String → String → Option UserCredentials → M K (Unit {0})
  change_with auth_uuid current_password new_password none =
      raise (session_revoked_error account_deleted)
  change_with auth_uuid current_password new_password (some creds) = do
    guard (status_eq creds.status disabled) (session_revoked_error Reason.account_disabled)
    guard (not (verify_password env.lib creds.password_hash current_password))
        (sentinel password_mismatch)
    new_hash ←
        wrapping "could not hash new password"
          (generate_from_password env new_password password_bcrypt_cost)
    wrapping "password change transaction failed" (change_password_tx env auth_uuid new_hash)

  unfoldable pub change_for : String → String → Option ℕ → M K (Unit {0})
  change_for current_password new_password none = raise (session_revoked_error account_deleted)
  change_for current_password new_password (some auth_uuid) = do
    creds ← wrapping "could not look up user credentials" (get_user_credentials env auth_uuid)
    change_with auth_uuid current_password new_password creds

  -- Handle
  unfoldable pub change_password : String → String → String → M K (Unit {0})
  change_password authenticated_user_id current_password new_password = do
    lift (validate_password new_password)
    change_for current_password new_password (env.lib.uuid_parse authenticated_user_id)
