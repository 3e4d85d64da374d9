-- ===== src/Respects/Issues.antt =====
-- A link is issued in one transaction: the old ones are marked used and the new one is inserted.
use poc_hydra_auth.Prelude.{ℕ, String}
use poc_hydra_auth.Domain.Token.{NewToken}
use poc_hydra_auth.World.{M, Env}
use poc_hydra_auth.Db.Tokens.{
  insert_password_reset_token, invalidate_active_password_reset_tokens_by_user,
  insert_invitation_token, invalidate_active_invitation_tokens_by_email,
}
use poc_hydra_auth.Db.Tx.Atomic.{IsRetry}
use poc_hydra_auth.Repo.ResetTokens.{issue_password_reset_token}
use poc_hydra_auth.Repo.Invitations.{issue_invitation_token}
use poc_hydra_auth.Respects.{Preorder, Respects}
use poc_hydra_auth.Respects.Reads.{read_rules}

module _ {K : Type 0} (env : Env K) {R : Preorder} (laws : IsRetry env)
    (invalidated : (u : ℕ) → Respects R (invalidate_active_password_reset_tokens_by_user env u))
    (inserted : (u : ℕ) (t : NewToken) → Respects R (insert_password_reset_token env u t)) where
  pub issue_reset-Respects :
      (u : ℕ) (t : NewToken) (m : M K (Unit {0}))
      → Respects R m
      → Respects R (issue_password_reset_token env u t m)
  unfolding issue_password_reset_token
  issue_reset-Respects u t m k = search (read_rules, invalidated, inserted) depth 10

module _ {K : Type 0} (env : Env K) {R : Preorder} (laws : IsRetry env)
    (invalidated : (email : String)
      → Respects R (invalidate_active_invitation_tokens_by_email env email))
    (inserted : (email role : String) (t : NewToken)
      → Respects R (insert_invitation_token env email role t)) where
  pub issue_invitation-Respects :
      (email role : String) (t : NewToken) (m : M K (Unit {0}))
      → Respects R m
      → Respects R (issue_invitation_token env email role t m)
  unfolding issue_invitation_token
  issue_invitation-Respects email role t m k = search (read_rules, invalidated, inserted) depth 10
