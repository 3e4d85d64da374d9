-- ===== src/Respects/Statements.antt =====
-- A preorder that every writing statement respects is respected by every write of the repository.
use poc_hydra_auth.Prelude.{ℕ, String, Option, some}
use poc_hydra_auth.Errors.{Reason}
use poc_hydra_auth.Domain.Status.{mail_unverified, inactive, disabled}
use poc_hydra_auth.Domain.Token.{NewToken}
use poc_hydra_auth.World.{M, Env}
use poc_hydra_auth.Db.Users.{
  InsertUserParams, insert_user, insert_user_role, transition_user_status, update_user_password,
}
use poc_hydra_auth.Db.Tokens.{
  insert_email_confirmation_token, mark_email_confirmation_token_used,
  invalidate_active_email_confirmation_tokens_by_user, mark_password_reset_token_used,
  invalidate_active_password_reset_tokens_by_user, mark_invitation_token_used,
  invalidate_active_invitation_tokens_by_email,
}
use poc_hydra_auth.Db.RefreshTokens.{
  RefreshTokenRecord, insert_refresh_token, mark_refresh_token_used, revoke_refresh_token_row,
  revoke_refresh_token_family_rows, revoke_refresh_tokens_by_user,
}
use poc_hydra_auth.Db.Tx.Atomic.{IsRetry}
use poc_hydra_auth.Repo.Users.{Registration, create_user, change_password_tx, save_refresh_token}
use poc_hydra_auth.Repo.EmailTokens.{
  reissue_email_confirmation_token, consume_email_confirmation_token,
}
use poc_hydra_auth.Repo.ResetTokens.{issue_password_reset_token, confirm_password_reset_tx}
use poc_hydra_auth.Repo.Invitations.{insert_new_user, issue_invitation_token, accept_invitation_tx}
use poc_hydra_auth.Repo.RefreshTokens.{
  rotate_refresh_token, revoke_refresh_token, revoke_refresh_token_family,
}
use poc_hydra_auth.Repo.AdminAccounts.{reactivate_account_row}
use poc_hydra_auth.Command.DisableAccount.{disable_account}
use poc_hydra_auth.Lifecycle.{Initial, invitation}
use poc_hydra_auth.Respects.{Preorder, Respects}
use poc_hydra_auth.Respects.Reads.{read_rules}
use poc_hydra_auth.Respects.Writes.{RespectsWrites}

pub record OnUsers {K : Type 0} (env : Env K) (R : Preorder) : Type 0 where
  pub user_in : (arg : InsertUserParams) → Initial arg.status → Respects R (insert_user env arg)
  pub role_in : (u : ℕ) (role : String) → Respects R (insert_user_role env u role)
  pub confirm : (u : ℕ) → Respects R (transition_user_status env u inactive mail_unverified)
  pub enable : (u : ℕ) → Respects R (transition_user_status env u inactive disabled)
  pub password : (u : ℕ) (h : String) → Respects R (update_user_password env u h)

pub record OnEmails {K : Type 0} (env : Env K) (R : Preorder) : Type 0 where
  pub email_in : (u : ℕ) (t : NewToken) → Respects R (insert_email_confirmation_token env u t)
  pub email_used : (t : ℕ) → Respects R (mark_email_confirmation_token_used env t)
  pub emails_used : (u : ℕ) → Respects R (invalidate_active_email_confirmation_tokens_by_user env u)

pub record OnResets {K : Type 0} (env : Env K) (R : Preorder) : Type 0 where
  pub reset_issued :
      (u : ℕ) (t : NewToken) (m : M K (Unit {0}))
      → Respects R m
      → Respects R (issue_password_reset_token env u t m)
  pub reset_used : (t : ℕ) → Respects R (mark_password_reset_token_used env t)
  pub resets_used : (u : ℕ) → Respects R (invalidate_active_password_reset_tokens_by_user env u)

pub record OnInvitations {K : Type 0} (env : Env K) (R : Preorder) : Type 0 where
  pub invitation_issued :
      (email role : String) (t : NewToken) (m : M K (Unit {0}))
      → Respects R m
      → Respects R (issue_invitation_token env email role t m)
  pub invitation_used : (t : ℕ) → Respects R (mark_invitation_token_used env t)
  pub invitations_used :
      (email : String) → Respects R (invalidate_active_invitation_tokens_by_email env email)

pub record OnSessions {K : Type 0} (env : Env K) (R : Preorder) : Type 0 where
  pub refresh_in : (t : RefreshTokenRecord) → Respects R (insert_refresh_token env t)
  pub refresh_used : (t : ℕ) → Respects R (mark_refresh_token_used env t)
  pub revoked : (t : ℕ) (r : Option Reason) → Respects R (revoke_refresh_token_row env t r)
  pub family_revoked :
      (f : ℕ) (r : Option Reason) → Respects R (revoke_refresh_token_family_rows env f r)
  pub user_revoked :
      (u : ℕ) (r : Option Reason) → Respects R (revoke_refresh_tokens_by_user env u r)

pub record RespectsStatements {K : Type 0} (env : Env K) (R : Preorder) : Type 0 where
  pub on_users : OnUsers env R
  pub on_emails : OnEmails env R
  pub on_resets : OnResets env R
  pub on_invitations : OnInvitations env R
  pub on_sessions : OnSessions env R

module _ {K : Type 0} (env : Env K) {R : Preorder} (laws : IsRetry env)
    (s : RespectsStatements env R) where
  create_user-Respects :
      (reg : Registration) (t : NewToken) (m : M K (Unit {0}))
      → Initial reg.status
      → Respects R m
      → Respects R (create_user env reg t m)
  unfolding create_user
  create_user-Respects reg t m h k =
      search (read_rules, s.on_users.user_in, s.on_users.role_in, s.on_emails.email_in) depth 10

  change_password_tx-Respects : (u : ℕ) (h : String) → Respects R (change_password_tx env u h)
  unfolding change_password_tx
  change_password_tx-Respects u h =
      search (read_rules, s.on_users.password, s.on_sessions.user_revoked) depth 10

  save_refresh_token-Respects : (t : RefreshTokenRecord) → Respects R (save_refresh_token env t)
  unfolding save_refresh_token
  save_refresh_token-Respects t = s.on_sessions.refresh_in t

  reissue-Respects :
      (u : ℕ) (t : NewToken) (m : M K (Unit {0}))
      → Respects R m
      → Respects R (reissue_email_confirmation_token env u t m)
  unfolding reissue_email_confirmation_token
  reissue-Respects u t m k =
      search (read_rules, s.on_emails.emails_used, s.on_emails.email_in) depth 10

  consume-Respects : (t u : ℕ) → Respects R (consume_email_confirmation_token env t u)
  unfolding consume_email_confirmation_token
  consume-Respects t u = search (read_rules, s.on_emails.email_used, s.on_users.confirm) depth 10

  confirm_reset-Respects : (u t : ℕ) (h : String) → Respects R (confirm_password_reset_tx env u t h)
  unfolding confirm_password_reset_tx
  confirm_reset-Respects u t h =
      search
        (
          read_rules, s.on_resets.reset_used, s.on_resets.resets_used, s.on_users.password,
          s.on_sessions.user_revoked,
        )
        depth 14

  insert_new_user-Respects :
      (arg : InsertUserParams) → Initial arg.status → Respects R (insert_new_user env arg)
  unfolding insert_new_user
  insert_new_user-Respects arg h = search (read_rules, s.on_users.user_in)

  accept-Respects :
      (t : ℕ) (email role h : String) → Respects R (accept_invitation_tx env t email role h)
  unfolding accept_invitation_tx
  accept-Respects t email role h =
      search
        (
          read_rules, s.on_invitations.invitation_used, s.on_invitations.invitations_used,
          insert_new_user-Respects, invitation, s.on_users.role_in,
        )
        depth 14

  rotate-Respects : (old : ℕ) (t : RefreshTokenRecord) → Respects R (rotate_refresh_token env old t)
  unfolding rotate_refresh_token
  rotate-Respects old t =
      search (read_rules, s.on_sessions.refresh_used, s.on_sessions.refresh_in) depth 10

  revoke-Respects : (t : ℕ) (r : Option Reason) → Respects R (revoke_refresh_token env t r)
  unfolding revoke_refresh_token
  revoke-Respects t r = s.on_sessions.revoked t r

  revoke_family-Respects : (f : ℕ) (r : Reason) → Respects R (revoke_refresh_token_family env f r)
  unfolding revoke_refresh_token_family
  revoke_family-Respects f r = s.on_sessions.family_revoked f (some r)

  reactivate-Respects : (u : ℕ) → Respects R (reactivate_account_row env u)
  unfolding reactivate_account_row
  reactivate-Respects u = search (read_rules, s.on_users.enable)

  pub writes_of_statements :
      ((operator target : String) → Respects R (disable_account env operator target))
      → RespectsWrites env R
  writes_of_statements d = record {
    creates = create_user-Respects;
    changes_password = change_password_tx-Respects;
    saves = save_refresh_token-Respects;
    reissues = reissue-Respects;
    consumes = consume-Respects;
    issues_reset = s.on_resets.reset_issued;
    confirms_reset = confirm_reset-Respects;
    issues_invitation = s.on_invitations.invitation_issued;
    accepts = accept-Respects;
    rotates = rotate-Respects;
    revokes = revoke-Respects;
    revokes_family = revoke_family-Respects;
    reactivates = reactivate-Respects;
    disables = d;
  }
