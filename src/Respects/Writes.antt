-- ===== src/Respects/Writes.antt =====
-- A preorder that every write of the repository respects is respected by every handler, and by
-- every run of requests.
use poc_hydra_auth.Prelude.{ℕ, String, Option}
use poc_hydra_auth.Errors.{Reason}
use poc_hydra_auth.Domain.Token.{NewToken}
use poc_hydra_auth.World.{M, Env}
use poc_hydra_auth.Db.RefreshTokens.{RefreshTokenRecord}
use poc_hydra_auth.Repo.Users.{Registration, create_user, change_password_tx, save_refresh_token}
use poc_hydra_auth.Repo.EmailTokens.{
  reissue_email_confirmation_token, consume_email_confirmation_token,
}
use poc_hydra_auth.Repo.ResetTokens.{issue_password_reset_token, confirm_password_reset_tx}
use poc_hydra_auth.Repo.Invitations.{issue_invitation_token, accept_invitation_tx}
use poc_hydra_auth.Repo.RefreshTokens.{
  rotate_refresh_token, revoke_refresh_token, revoke_refresh_token_family,
}
use poc_hydra_auth.Repo.AdminAccounts.{reactivate_account_row}
use poc_hydra_auth.Command.DisableAccount.{disable_account}
use poc_hydra_auth.Lifecycle.{Initial}
use poc_hydra_auth.Respects.{Preorder, Respects}

pub record RespectsWrites {K : Type 0} (env : Env K) (R : Preorder) : Type 0 where
  pub creates :
      (reg : Registration) (t : NewToken) (m : M K (Unit {0}))
      → Initial reg.status
      → Respects R m
      → Respects R (create_user env reg t m)
  pub changes_password : (u : ℕ) (h : String) → Respects R (change_password_tx env u h)
  pub saves : (t : RefreshTokenRecord) → Respects R (save_refresh_token env t)
  pub reissues :
      (u : ℕ) (t : NewToken) (m : M K (Unit {0}))
      → Respects R m
      → Respects R (reissue_email_confirmation_token env u t m)
  pub consumes : (t u : ℕ) → Respects R (consume_email_confirmation_token env t u)
  pub issues_reset :
      (u : ℕ) (t : NewToken) (m : M K (Unit {0}))
      → Respects R m
      → Respects R (issue_password_reset_token env u t m)
  pub confirms_reset : (u t : ℕ) (h : String) → Respects R (confirm_password_reset_tx env u t h)
  pub issues_invitation :
      (email role : String) (t : NewToken) (m : M K (Unit {0}))
      → Respects R m
      → Respects R (issue_invitation_token env email role t m)
  pub accepts :
      (t : ℕ) (email role h : String) → Respects R (accept_invitation_tx env t email role h)
  pub rotates : (old : ℕ) (t : RefreshTokenRecord) → Respects R (rotate_refresh_token env old t)
  pub revokes : (t : ℕ) (r : Option Reason) → Respects R (revoke_refresh_token env t r)
  pub revokes_family : (f : ℕ) (r : Reason) → Respects R (revoke_refresh_token_family env f r)
  pub reactivates : (u : ℕ) → Respects R (reactivate_account_row env u)
  pub disables : (operator target : String) → Respects R (disable_account env operator target)
