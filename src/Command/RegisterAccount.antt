-- ===== src/Command/RegisterAccount.antt =====
-- register_account.go (UC-002)
use poc_hydra_auth.Prelude.{String, if◌then◌else◌}
use poc_hydra_auth.Exec.{◌>>=◌, ◌>>◌, pure, lift, wrapping, map_err}
use poc_hydra_auth.Domain.Status.{mail_unverified, role_user}
use poc_hydra_auth.Domain.Validation.{validate_email, validate_password}
use poc_hydra_auth.Domain.Token.{password_bcrypt_cost}
use poc_hydra_auth.Domain.Issue.{new_email_confirmation_token}
use poc_hydra_auth.World.{M, Env, limiter, confirmation, generate_from_password, uuid_new}
use poc_hydra_auth.Repo.Users.{email_exists, create_user}
use poc_hydra_auth.Command.Steps.{within_rate_limit, deliver, after_mail}

module _ {K : Type 0} (env : Env K) where
  -- From bcrypt on, for an address that no user has.
  unfoldable pub register_new : String → String → M K (Unit {0})
  register_new email password = do
    hash ←
        wrapping "could not hash password"
          (generate_from_password env password password_bcrypt_cost)
    user_uuid ← uuid_new env
    (plain_token, token) ←
        wrapping "could not generate confirmation token" (new_email_confirmation_token env)
    map_err (after_mail "could not create user") (
        create_user env
          (record {
            user_uuid = user_uuid;
            email = email;
            password_hash = hash;
            status = mail_unverified;
            role = role_user;
          })
          token (deliver env confirmation email plain_token))

  -- Handle
  unfoldable pub register_account : String → String → M K (Unit {0})
  register_account email password = do
    within_rate_limit env limiter email
    lift (validate_email env.lib email)
    lift (validate_password password)
    exists ← wrapping "could not check email existence" (email_exists env email)
    if exists then pure tt else register_new email password
