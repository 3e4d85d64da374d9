-- ===== src/Command/VerifyEmail.antt =====
-- verify_email.go (UC-003)
use poc_hydra_auth.Prelude.{String, if◌then◌else◌}
use poc_hydra_auth.Errors.{
  Err, is, sentinel, wrapped, token_not_found, token_consume_conflict, invalid_token, token_expired,
}
use poc_hydra_auth.Exec.{◌>>=◌, ◌>>◌, guard, map_err}
use poc_hydra_auth.Domain.Token.{used, expired, hash_token}
use poc_hydra_auth.World.{M, Env, verify_limiter, time_now}
use poc_hydra_auth.Repo.EmailTokens.{
  find_email_confirmation_token, consume_email_confirmation_token,
}
use poc_hydra_auth.Command.Steps.{within_rate_limit}

abbrev pub lookup_error : Err → Err
lookup_error e =
    if is e token_not_found
    then sentinel invalid_token
    else wrapped "could not look up confirmation token" e

abbrev pub consume_error : Err → Err
consume_error e =
    if is e token_consume_conflict
    then sentinel invalid_token
    else wrapped "could not consume confirmation token" e

module _ {K : Type 0} (env : Env K) where
  -- Handle
  unfoldable pub verify_email : String → String → M K (Unit {0})
  verify_email plain_token client_ip = do
    within_rate_limit env verify_limiter client_ip
    rec ← map_err lookup_error (find_email_confirmation_token env (hash_token env.lib plain_token))
    guard (used rec) (sentinel invalid_token)
    now ← time_now env
    guard (expired rec now) (sentinel token_expired)
    map_err consume_error (consume_email_confirmation_token env rec.token_uuid rec.user_uuid)
