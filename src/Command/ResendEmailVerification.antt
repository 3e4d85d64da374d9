-- ===== src/Command/ResendEmailVerification.antt =====
-- resend_email_verification.go (UC-004)
use poc_hydra_auth.Prelude.{ℕ, String, Option, none, some, if◌then◌else◌}
use poc_hydra_auth.Exec.{◌>>=◌, ◌>>◌, pure, wrapping, map_err}
use poc_hydra_auth.Domain.Status.{Status, status_eq, mail_unverified}
use poc_hydra_auth.Domain.Issue.{new_email_confirmation_token}
use poc_hydra_auth.World.{M, Env, resend_limiter, confirmation}
use poc_hydra_auth.Repo.Users.{find_user_by_email}
use poc_hydra_auth.Repo.EmailTokens.{reissue_email_confirmation_token}
use poc_hydra_auth.Command.Steps.{within_rate_limit, deliver, after_mail}

module _ {K : Type 0} (env : Env K) where
  -- From the new token on, for a user whose mail is unverified.
  unfoldable pub resend_to : String → ℕ → M K (Unit {0})
  resend_to email user_uuid = do
    (plain_token, token) ←
        wrapping "could not generate confirmation token" (new_email_confirmation_token env)
    map_err (after_mail "could not reissue confirmation token") (
        reissue_email_confirmation_token env user_uuid token
          (deliver env confirmation email plain_token))

  -- if !found || status != domain.StatusMailUnverified { return nil }
  unfoldable pub if_unverified : String → Option (ℕ × Status) → M K (Unit {0})
  if_unverified email none = pure tt
  if_unverified email (some (user_uuid, status)) =
      if status_eq status mail_unverified then resend_to email user_uuid else pure tt

  -- Handle
  unfoldable pub resend_email_verification : String → M K (Unit {0})
  unfolding if_unverified
  resend_email_verification email = do
    within_rate_limit env resend_limiter email
    user ← wrapping "could not look up user" (find_user_by_email env email)
    if_unverified email user
