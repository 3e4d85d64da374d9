-- ===== src/Repo/AdminAccounts.antt =====
-- admin_account_repo.go
use poc_hydra_auth.Prelude.{
  ℕ, String, Bool, true, false, Option, none, some, List, ◌==◌, leb, length,
}
use poc_hydra_auth.Errors.{Reason, sentinel, not_disabled, last_super_admin, already_disabled}
use poc_hydra_auth.Exec.{◌>>=◌, ◌>>◌, pure, guard}
use poc_hydra_auth.Domain.Status.{Status, inactive, disabled}
use poc_hydra_auth.World.{M, Env}
use poc_hydra_auth.Db.{AuthUser}
use poc_hydra_auth.Db.Users.{
  get_user_by_uuid, get_user_roles, transition_user_status, lock_active_super_admins,
}
use poc_hydra_auth.Db.RefreshTokens.{revoke_refresh_tokens_by_user}
use poc_hydra_auth.Db.Tx.{update_in_tx}
use poc_hydra_auth.Repo.Rows.{if_found}

module _ {K : Type 0} (env : Env K) where
  unfoldable pub roles_and_status : Option AuthUser → ℕ → M K (Option (List String × Status))
  roles_and_status none user_uuid = pure none
  roles_and_status (some row) user_uuid = do
    roles ← get_user_roles env user_uuid
    pure (some (roles, row.status))

  -- findAdminAccount, and with it FindAccountForDisable and FindAccountForReactivate
  unfoldable pub find_admin_account : ℕ → M K (Option (List String × Status))
  unfolding roles_and_status
  find_admin_account user_uuid = do
    row ← if_found (get_user_by_uuid env user_uuid)
    roles_and_status row user_uuid

  -- ReactivateAccount of the repository: one statement, in no transaction of its own.
  unfoldable pub reactivate_account_row : ℕ → M K (Unit {0})
  reactivate_account_row user_uuid = do
    affected ← transition_user_status env user_uuid inactive disabled
    guard (affected == 0) (sentinel not_disabled)

  -- if len(active) <= 1 { return ErrLastSuperAdmin }
  unfoldable pub guard_last_super_admin : Bool → M K (Unit {0})
  guard_last_super_admin true = do
    active ← lock_active_super_admins env
    guard (leb (length active) 1) (sentinel last_super_admin)
  guard_last_super_admin false = pure tt

  -- DisableAccount of the repository
  unfoldable pub disable_account_tx : ℕ → Bool → M K (Unit {0})
  disable_account_tx user_uuid is_super_admin = update_in_tx env (do
    guard_last_super_admin is_super_admin
    affected ← transition_user_status env user_uuid disabled inactive
    guard (affected == 0) (sentinel already_disabled)
    revoke_refresh_tokens_by_user env user_uuid (some Reason.account_disabled))
