-- ===== src/Command/ConfirmPasswordReset.antt =====
-- confirm_password_reset.go (UC-009)
use poc_hydra_auth.Prelude.{String, if◌then◌else◌}
use poc_hydra_auth.Errors.{
  Err, is, sentinel, wrapped, reset_token_not_found, reset_token_consume_conflict,
  invalid_reset_token, reset_token_expired,
}
use poc_hydra_auth.Exec.{◌>>=◌, ◌>>◌, lift, guard, wrapping, map_err}
use poc_hydra_auth.Domain.Validation.{validate_password}
use poc_hydra_auth.Domain.Token.{used, expired, hash_token, password_bcrypt_cost}
use poc_hydra_auth.World.{M, Env, generate_from_password, time_now}
use poc_hydra_auth.Repo.ResetTokens.{find_password_reset_token, confirm_password_reset_tx}

abbrev pub lookup_error : Err → Err
lookup_error e =
    if is e reset_token_not_found
    then sentinel invalid_reset_token
    else wrapped "could not look up reset token" e

abbrev pub confirm_error : Err → Err
confirm_error e =
    if is e reset_token_consume_conflict
    then sentinel invalid_reset_token
    else wrapped "password reset transaction failed" e

module _ {K : Type 0} (env : Env K) where
  -- Handle
  unfoldable pub confirm_password_reset : String → String → M K (Unit {0})
  confirm_password_reset plain_token new_password = do
    lift (validate_password new_password)
    rec ← map_err lookup_error (find_password_reset_token env (hash_token env.lib plain_token))
    guard (used rec) (sentinel invalid_reset_token)
    now ← time_now env
    guard (expired rec now) (sentinel reset_token_expired)
    new_hash ←
        wrapping "could not hash new password"
          (generate_from_password env new_password password_bcrypt_cost)
    map_err confirm_error (confirm_password_reset_tx env rec.user_uuid rec.token_uuid new_hash)
