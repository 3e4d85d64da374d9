-- ===== src/Respects/Frames.antt =====
-- Statements on a table that a preorder does not look at.
use poc_hydra_auth.Prelude.{ℕ, ◌≡◌, ◌==◌, Bool, List, any, if◌then◌else◌, ◌∷◌}
use poc_hydra_auth.Errors.{Err}
use poc_hydra_auth.Exec.{Result, ok, err}
use poc_hydra_auth.Db.{Db, AuthUser, AuthUserRole, AuthToken, AuthInvitationToken, AuthRefreshToken}
use poc_hydra_auth.Db.Users.{
  inserted_user, has_email, insert_user, insert_user_role, transition_user_status,
  update_user_password,
}
use poc_hydra_auth.Db.Tokens.{
  insert_email_confirmation_token, mark_email_confirmation_token_used,
  invalidate_active_email_confirmation_tokens_by_user, insert_password_reset_token,
  mark_password_reset_token_used, invalidate_active_password_reset_tokens_by_user,
  insert_invitation_token, mark_invitation_token_used, invalidate_active_invitation_tokens_by_email,
}
use poc_hydra_auth.Db.RefreshTokens.{
  insert_refresh_token, mark_refresh_token_used, revoke_refresh_token_row,
  revoke_refresh_token_family_rows, revoke_refresh_tokens_by_user,
}
use poc_hydra_auth.World.{Env, statement}
use poc_hydra_auth.Domain.Status.{inactive, disabled}
use poc_hydra_auth.Respects.{
  Preorder, Respects, Respects-statement, Respects-checked, Respects-checked_twice,
}
use poc_hydra_auth.Db.Tx.Atomic.{IsRetry}
use poc_hydra_auth.Respects.Issues.{issue_reset-Respects, issue_invitation-Respects}
use poc_hydra_auth.Respects.Statements.{OnUsers, OnEmails, OnResets, OnInvitations, OnSessions}

module _ {K T : Type 0} (env : Env K) {R : Preorder} (table : Db → T)
    (same : (a b : Db) → table b ≡ table a → R.rel a b) where
  untouched :
      {A : Type 0} (f : ℕ → Db → Result A × Db)
      → ((now : ℕ) (db : Db) → table (f now db).1 ≡ table db)
      → Respects R (statement env f)
  untouched f h = Respects-statement env f (λ now db. same db (f now db).1 (h now db))

  untouched_insert :
      (b : Db → Bool) (e : Err) (g : ℕ → Db → Db)
      → ((now : ℕ) (db : Db) → table (g now db) ≡ table db)
      → Respects R (statement env (λ now db. if b db then (err e, db) else (ok tt, g now db)))
  untouched_insert b e g h =
      Respects-checked env b e tt g (λ now db _. same db (g now db) (h now db))

  pub users_frame :
      ((db : Db) (x : List AuthUser) → table (record db { users = x }) ≡ table db)
      → ((db : Db) (x : List AuthUserRole) → table (record db { user_roles = x }) ≡ table db)
      → OnUsers env R
  unfolding insert_user insert_user_role transition_user_status update_user_password
  users_frame h k = record {
    user_in = λ arg i.
        Respects-checked_twice env (λ db. any (λ u. u.user_uuid == arg.user_uuid) db.users)
          (λ db. any (has_email arg.email) db.users) _ _ _
          (λ now db. record db { users = inserted_user now arg ∷ db.users })
          (λ now db _ _. same db _ (h db _));
    role_in = λ u role. untouched_insert _ _ _ (λ now db. k db _);
    confirm = λ u. untouched _ (λ now db. h db _);
    enable = λ u. untouched _ (λ now db. h db _);
    password = λ u p. untouched _ (λ now db. h db _);
  }

  pub disable_frame :
      ((db : Db) (x : List AuthUser) → table (record db { users = x }) ≡ table db)
      → (u : ℕ) → Respects R (transition_user_status env u disabled inactive)
  unfolding transition_user_status
  disable_frame h u = untouched _ (λ now db. h db _)

  pub emails_frame :
      ((db : Db) (x : List AuthToken)
        → table (record db { email_confirmation_tokens = x }) ≡ table db)
      → OnEmails env R
  unfolding insert_email_confirmation_token mark_email_confirmation_token_used
      invalidate_active_email_confirmation_tokens_by_user
  emails_frame h = record {
    email_in = λ u t. untouched_insert _ _ _ (λ now db. h db _);
    email_used = λ t. untouched _ (λ now db. h db _);
    emails_used = λ u. untouched _ (λ now db. h db _);
  }

  pub resets_frame :
      ((db : Db) (x : List AuthToken) → table (record db { password_reset_tokens = x }) ≡ table db)
      → IsRetry env
      → OnResets env R
  unfolding insert_password_reset_token mark_password_reset_token_used
      invalidate_active_password_reset_tokens_by_user
  resets_frame h laws = record {
    reset_issued =
        issue_reset-Respects env laws (λ u. untouched _ (λ now db. h db _))
          (λ u t. untouched_insert _ _ _ (λ now db. h db _));
    reset_used = λ t. untouched _ (λ now db. h db _);
    resets_used = λ u. untouched _ (λ now db. h db _);
  }

  pub invitations_frame :
      ((db : Db) (x : List AuthInvitationToken)
        → table (record db { invitation_tokens = x }) ≡ table db)
      → IsRetry env
      → OnInvitations env R
  unfolding insert_invitation_token mark_invitation_token_used
      invalidate_active_invitation_tokens_by_email
  invitations_frame h laws = record {
    invitation_issued =
        issue_invitation-Respects env laws (λ e. untouched _ (λ now db. h db _))
          (λ e r t. untouched_insert _ _ _ (λ now db. h db _));
    invitation_used = λ t. untouched _ (λ now db. h db _);
    invitations_used = λ e. untouched _ (λ now db. h db _);
  }

  pub sessions_frame :
      ((db : Db) (x : List AuthRefreshToken) → table (record db { refresh_tokens = x }) ≡ table db)
      → OnSessions env R
  unfolding insert_refresh_token mark_refresh_token_used revoke_refresh_token_row
      revoke_refresh_token_family_rows revoke_refresh_tokens_by_user
  sessions_frame h = record {
    refresh_in = λ t. untouched_insert _ _ _ (λ now db. h db _);
    refresh_used = λ t. untouched _ (λ now db. h db _);
    revoked = λ t r. untouched _ (λ now db. h db _);
    family_revoked = λ f r. untouched _ (λ now db. h db _);
    user_revoked = λ u r. untouched _ (λ now db. h db _);
  }
