-- ===== src/Repo/ResetTokens.antt =====
-- password_reset_tokens_repo.go
use poc_hydra_auth.Prelude.{ℕ, String, some, ◌==◌}
use poc_hydra_auth.Errors.{
  sentinel, other, reset_token_not_found, reset_token_consume_conflict, password_changed,
}
use poc_hydra_auth.Exec.{◌>>=◌, ◌>>◌, pure, guard}
use poc_hydra_auth.Domain.Token.{NewToken, TokenRecord}
use poc_hydra_auth.World.{M, Env}
use poc_hydra_auth.Db.Users.{update_user_password}
use poc_hydra_auth.Db.Tokens.{
  get_password_reset_token_by_hash, insert_password_reset_token, mark_password_reset_token_used,
  invalidate_active_password_reset_tokens_by_user,
}
use poc_hydra_auth.Db.RefreshTokens.{revoke_refresh_tokens_by_user}
use poc_hydra_auth.Db.Tx.{update_in_tx}
use poc_hydra_auth.Repo.Rows.{or_missing, token_record}

module _ {K : Type 0} (env : Env K) where
  -- GetPasswordResetTokenByHash
  unfoldable pub find_password_reset_token : String → M K TokenRecord
  find_password_reset_token hash = do
    row ← or_missing reset_token_not_found (get_password_reset_token_by_hash env hash)
    pure (token_record row)

  -- IssuePasswordResetToken
  unfoldable pub issue_password_reset_token : ℕ → NewToken → M K (Unit {0}) → M K (Unit {0})
  issue_password_reset_token user_uuid token after_insert = update_in_tx env (do
    invalidate_active_password_reset_tokens_by_user env user_uuid
    insert_password_reset_token env user_uuid token
    after_insert)

  -- ConfirmPasswordReset of the repository
  unfoldable pub confirm_password_reset_tx : ℕ → ℕ → String → M K (Unit {0})
  confirm_password_reset_tx user_uuid token_uuid new_password_hash = update_in_tx env (do
    rows ← mark_password_reset_token_used env token_uuid
    guard (rows == 0) (sentinel reset_token_consume_conflict)
    invalidate_active_password_reset_tokens_by_user env user_uuid
    affected ← update_user_password env user_uuid new_password_hash
    guard (affected == 0) (sentinel (other "user not found for password reset"))
    revoke_refresh_tokens_by_user env user_uuid (some password_changed))
