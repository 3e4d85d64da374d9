-- ===== src/Command/RequestPasswordReset.antt =====
-- request_password_reset.go (UC-008)
use poc_hydra_auth.Prelude.{ℕ, String, Option, none, some, if◌then◌else◌}
use poc_hydra_auth.Exec.{◌>>=◌, ◌>>◌, pure, lift, wrapping, map_err}
use poc_hydra_auth.Domain.Status.{Status, status_eq, inactive}
use poc_hydra_auth.Domain.Validation.{validate_email}
use poc_hydra_auth.Domain.Issue.{new_password_reset_token}
use poc_hydra_auth.World.{M, Env, reset_limiter, password_reset}
use poc_hydra_auth.Repo.Users.{find_user_by_email}
use poc_hydra_auth.Repo.ResetTokens.{issue_password_reset_token}
use poc_hydra_auth.Command.Steps.{within_rate_limit, deliver, after_mail}

module _ {K : Type 0} (env : Env K) where
  -- From the new token on, for a user who may log in.
  unfoldable pub send_reset : String → ℕ → M K (Unit {0})
  send_reset email user_uuid = do
    (plain_token, token) ← wrapping "could not generate reset token" (new_password_reset_token env)
    map_err (after_mail "could not issue reset token") (
        issue_password_reset_token env user_uuid token
          (deliver env password_reset email plain_token))

  -- if !found || status != domain.StatusInactive { return nil }
  unfoldable pub if_inactive : String → Option (ℕ × Status) → M K (Unit {0})
  if_inactive email none = pure tt
  if_inactive email (some (user_uuid, status)) =
      if status_eq status inactive then send_reset email user_uuid else pure tt

  -- Handle
  unfoldable pub request_password_reset : String → M K (Unit {0})
  unfolding if_inactive
  request_password_reset email = do
    within_rate_limit env reset_limiter email
    lift (validate_email env.lib email)
    user ← wrapping "could not look up user" (find_user_by_email env email)
    if_inactive email user
