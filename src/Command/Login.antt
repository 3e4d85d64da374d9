-- ===== src/Command/Login.antt =====
-- login.go (UC-005). The dummy bcrypt comparison for an unknown user has no effect but the time
-- that it takes, and is left out.
use poc_hydra_auth.Prelude.{◌+◌, String, Option, none, some, if◌then◌else◌}
use poc_hydra_auth.Errors.{sentinel, authentication_failed, locked_error}
use poc_hydra_auth.Exec.{◌>>=◌, ◌>>◌, pure, raise, lift, guard, wrapping}
use poc_hydra_auth.Domain.Status.{check_loginable_status}
use poc_hydra_auth.Domain.Validation.{validate_email}
use poc_hydra_auth.Domain.Token.{access_token_ttl, refresh_token_ttl, verify_password}
use poc_hydra_auth.Domain.Issue.{generate_refresh_token, issue_access_token}
use poc_hydra_auth.World.{M, Env, check, record_failure, reset, uuid_new, time_now}
use poc_hydra_auth.Repo.Users.{LoginUser, get_login_user, save_refresh_token}

-- LoginResult, and RefreshResult, which has the same fields.
pub record IssuedTokens : Type 0 where
  pub access_token : String
  pub refresh_token : String

module _ {K : Type 0} (env : Env K) where
  -- The end of Handle: the two tokens, the second one saved by its hash.
  unfoldable pub issue_tokens : LoginUser → M K IssuedTokens
  issue_tokens user = do
    access_token ←
        wrapping "could not issue access token"
          (issue_access_token env (env.lib.uuid_string user.user_uuid) user.roles access_token_ttl)
    (plain_refresh, hash) ← wrapping "could not generate refresh token" (generate_refresh_token env)
    token_id ← uuid_new env
    family_id ← uuid_new env
    now ← time_now env
    wrapping "could not save refresh token" (
        save_refresh_token env (record {
          token_id = token_id;
          user_uuid = user.user_uuid;
          family_id = family_id;
          parent_token_id = none;
          token_hash = hash;
          expires_at = now + refresh_token_ttl;
        }))
    pure (record { access_token = access_token; refresh_token = plain_refresh })

  -- E3 and E4: the failure is counted, and the answer does not tell them apart.
  unfoldable pub refuse_login : String → M K IssuedTokens
  refuse_login email = do
    wrapping "could not record login failure" (record_failure env email)
    raise (sentinel authentication_failed)

  -- Steps 6 to 10, for a user whose password fits.
  unfoldable pub admit : String → LoginUser → M K IssuedTokens
  admit email user = do
    lift (check_loginable_status user.status)
    wrapping "could not reset failure count" (reset env email)
    issue_tokens user

  unfoldable pub authenticate : String → String → Option LoginUser → M K IssuedTokens
  authenticate email password none = refuse_login email
  authenticate email password (some user) =
      if verify_password env.lib user.password_hash password
      then admit email user
      else refuse_login email

  -- Handle
  unfoldable pub login : String → String → M K IssuedTokens
  login email password = do
    lift (validate_email env.lib email)
    (locked, retry_after) ← wrapping "could not check lockout" (check env email)
    guard locked (locked_error retry_after)
    user ← wrapping "could not look up user" (get_login_user env email)
    authenticate email password user
