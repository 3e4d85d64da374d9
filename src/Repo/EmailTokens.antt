-- ===== src/Repo/EmailTokens.antt =====
-- email_confirmation_tokens_repo.go
use poc_hydra_auth.Prelude.{ℕ, String, ◌==◌}
use poc_hydra_auth.Errors.{sentinel, token_not_found, token_consume_conflict}
use poc_hydra_auth.Exec.{◌>>=◌, ◌>>◌, pure, guard}
use poc_hydra_auth.Domain.Status.{inactive, mail_unverified}
use poc_hydra_auth.Domain.Token.{NewToken, TokenRecord}
use poc_hydra_auth.World.{M, Env}
use poc_hydra_auth.Db.Users.{transition_user_status}
use poc_hydra_auth.Db.Tokens.{
  get_email_confirmation_token_by_hash, insert_email_confirmation_token,
  mark_email_confirmation_token_used, invalidate_active_email_confirmation_tokens_by_user,
}
use poc_hydra_auth.Db.Tx.{update_in_tx}
use poc_hydra_auth.Repo.Rows.{or_missing, token_record}

module _ {K : Type 0} (env : Env K) where
  -- GetEmailConfirmationTokenByHash
  unfoldable pub find_email_confirmation_token : String → M K TokenRecord
  find_email_confirmation_token hash = do
    row ← or_missing token_not_found (get_email_confirmation_token_by_hash env hash)
    pure (token_record row)

  -- ReissueEmailConfirmationToken
  unfoldable pub reissue_email_confirmation_token : ℕ → NewToken → M K (Unit {0}) → M K (Unit {0})
  reissue_email_confirmation_token user_uuid token after_insert = update_in_tx env (do
    invalidate_active_email_confirmation_tokens_by_user env user_uuid
    insert_email_confirmation_token env user_uuid token
    after_insert)

  -- ConsumeEmailConfirmationToken
  unfoldable pub consume_email_confirmation_token : ℕ → ℕ → M K (Unit {0})
  consume_email_confirmation_token token_uuid user_uuid = update_in_tx env (do
    rows ← mark_email_confirmation_token_used env token_uuid
    guard (rows == 0) (sentinel token_consume_conflict)
    moved ← transition_user_status env user_uuid inactive mail_unverified
    guard (moved == 0) (sentinel token_consume_conflict))
