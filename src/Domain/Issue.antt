-- ===== src/Domain/Issue.antt =====
-- The functions of backend/auth/domain that draw random bytes or read the clock.
use poc_hydra_auth.Prelude.{ℕ, ◌+◌, String, Option, none, some, List}
use poc_hydra_auth.Errors.{service_error}
use poc_hydra_auth.Exec.{Result, ok, err, ◌>>=◌, pure, lift, wrapping}
use poc_hydra_auth.Domain.Token.{
  NewToken, token_plain_bytes, refresh_token_bytes, email_confirmation_token_ttl,
  password_reset_token_ttl, invitation_token_ttl, hash_token, generate_access_token,
}
use poc_hydra_auth.World.{M, Env, rand_read, uuid_new, time_now}

abbrev or_error : {A : Type 0} → Option A → Result A
or_error none = err service_error
or_error (some a) = ok a

module _ {K : Type 0} (env : Env K) where
  -- The common body of the three functions below.
  new_token : ℕ → M K (String × NewToken)
  new_token ttl = do
    b ← rand_read env token_plain_bytes
    let plain = env.lib.base64_raw_url b
    token_uuid ← uuid_new env
    now ← time_now env
    pure (
      plain,
      record { token_uuid = token_uuid; hash = hash_token env.lib plain; expires_at = now + ttl },
    )

  -- NewEmailConfirmationToken
  unfoldable pub new_email_confirmation_token : M K (String × NewToken)
  unfolding new_token
  new_email_confirmation_token = new_token email_confirmation_token_ttl

  -- NewPasswordResetToken
  unfoldable pub new_password_reset_token : M K (String × NewToken)
  unfolding new_token
  new_password_reset_token = new_token password_reset_token_ttl

  -- NewInvitationToken
  unfoldable pub new_invitation_token : M K (String × NewToken)
  unfolding new_token
  new_invitation_token = new_token invitation_token_ttl

  -- GenerateRefreshToken: the plain token and its hash.
  unfoldable pub generate_refresh_token : M K (String × String)
  generate_refresh_token = do
    buf ← wrapping "could not generate refresh token" (rand_read env refresh_token_bytes)
    let plain = env.lib.base64_raw_url buf
    pure (plain, hash_token env.lib plain)

  -- GenerateAccessToken
  unfoldable pub issue_access_token : String → List String → ℕ → M K String
  issue_access_token user_id roles ttl = do
    now ← time_now env
    wrapping "could not sign access token"
        (lift (or_error (generate_access_token env.lib user_id roles ttl now)))
