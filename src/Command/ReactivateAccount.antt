-- ===== src/Command/ReactivateAccount.antt =====
-- reactivate_account.go (UC-015). The operator's name goes to the log only.
use poc_hydra_auth.Prelude.{ℕ, String, not, Option, none, some, List, if◌then◌else◌}
use poc_hydra_auth.Errors.{
  Err, is, sentinel, wrapped, user_not_found, not_admin_account, not_disabled,
}
use poc_hydra_auth.Exec.{◌>>=◌, ◌>>◌, raise, guard, wrapping, map_err}
use poc_hydra_auth.Domain.Status.{Status, status_eq, disabled}
use poc_hydra_auth.World.{M, Env}
use poc_hydra_auth.Repo.AdminAccounts.{find_admin_account, reactivate_account_row}
use poc_hydra_auth.Command.Steps.{has_admin_role}

abbrev pub reactivate_error : Err → Err
reactivate_error e =
    if is e not_disabled then sentinel not_disabled else wrapped "could not reactivate account" e

module _ {K : Type 0} (env : Env K) where
  unfoldable pub reactivate_found : ℕ → Option (List String × Status) → M K (Unit {0})
  reactivate_found target_uuid none = raise (sentinel user_not_found)
  reactivate_found target_uuid (some (roles, status)) = do
    guard (not (has_admin_role roles)) (sentinel not_admin_account)
    guard (not (status_eq status disabled)) (sentinel not_disabled)
    map_err reactivate_error (reactivate_account_row env target_uuid)

  unfoldable pub reactivate_target : Option ℕ → M K (Unit {0})
  reactivate_target none = raise (sentinel user_not_found)
  reactivate_target (some target_uuid) = do
    account ← wrapping "could not look up account" (find_admin_account env target_uuid)
    reactivate_found target_uuid account

  -- Handle
  unfoldable pub reactivate_account : String → String → M K (Unit {0})
  reactivate_account operator_sub target_id = reactivate_target (env.lib.uuid_parse target_id)
