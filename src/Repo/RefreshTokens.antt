-- ===== src/Repo/RefreshTokens.antt =====
-- refresh_tokens_repo.go
use poc_hydra_auth.Prelude.{ℕ, String, Option, none, some, List, ◌==◌}
use poc_hydra_auth.Errors.{Reason, sentinel, refresh_token_already_used}
use poc_hydra_auth.Exec.{◌>>=◌, ◌>>◌, pure, guard}
use poc_hydra_auth.Domain.Status.{Status}
use poc_hydra_auth.World.{M, Env}
use poc_hydra_auth.Db.{AuthUser, AuthRefreshToken}
use poc_hydra_auth.Db.Users.{get_user_by_uuid, get_user_roles}
use poc_hydra_auth.Db.RefreshTokens.{
  RefreshTokenRecord, get_refresh_token_row_by_hash, insert_refresh_token, mark_refresh_token_used,
  revoke_refresh_token_row, revoke_refresh_token_family_rows,
}
use poc_hydra_auth.Db.Tx.{update_in_tx}
use poc_hydra_auth.Repo.Rows.{if_found}

-- command.StoredRefreshToken
pub record StoredRefreshToken : Type 0 where
  pub token_id : ℕ
  pub user_uuid : ℕ
  pub family_id : ℕ
  pub expires_at : ℕ
  pub used_at : Option ℕ
  pub revoked_at : Option ℕ

-- command.RefreshUser
pub record RefreshUser : Type 0 where
  pub user_uuid : ℕ
  pub status : Status
  pub roles : List String

abbrev pub stored_token : AuthRefreshToken → StoredRefreshToken
stored_token row = record {
  token_id = row.token_id;
  user_uuid = row.user_uuid;
  family_id = row.family_id;
  expires_at = row.expires_at;
  used_at = row.used_at;
  revoked_at = row.revoked_at;
}

abbrev pub stored : Option AuthRefreshToken → Option StoredRefreshToken
stored none = none
stored (some row) = some (stored_token row)

module _ {K : Type 0} (env : Env K) where
  -- GetRefreshTokenByHash
  unfoldable pub get_refresh_token_by_hash : String → M K (Option StoredRefreshToken)
  get_refresh_token_by_hash hash = do
    row ← if_found (get_refresh_token_row_by_hash env hash)
    pure (stored row)

  unfoldable pub refresh_user : Option AuthUser → ℕ → M K (Option RefreshUser)
  refresh_user none user_uuid = pure none
  refresh_user (some row) user_uuid = do
    roles ← get_user_roles env user_uuid
    pure (some (record { user_uuid = row.user_uuid; status = row.status; roles = roles }))

  -- GetUserForRefresh
  unfoldable pub get_user_for_refresh : ℕ → M K (Option RefreshUser)
  unfolding refresh_user
  get_user_for_refresh user_uuid = do
    row ← if_found (get_user_by_uuid env user_uuid)
    refresh_user row user_uuid

  -- RotateRefreshToken
  unfoldable pub rotate_refresh_token : ℕ → RefreshTokenRecord → M K (Unit {0})
  rotate_refresh_token old_token_id new_token = update_in_tx env (do
    affected ← mark_refresh_token_used env old_token_id
    guard (affected == 0) (sentinel refresh_token_already_used)
    insert_refresh_token env new_token)

  -- RevokeRefreshToken
  unfoldable pub revoke_refresh_token : ℕ → Option Reason → M K (Unit {0})
  revoke_refresh_token token_id reason = revoke_refresh_token_row env token_id reason

  -- RevokeRefreshTokenFamily
  unfoldable pub revoke_refresh_token_family : ℕ → Reason → M K (Unit {0})
  revoke_refresh_token_family family_id reason =
      revoke_refresh_token_family_rows env family_id (some reason)
