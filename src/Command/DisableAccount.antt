-- ===== src/Command/DisableAccount.antt =====
-- disable_account.go (UC-014). The operator's name goes to the log only.
use poc_hydra_auth.Prelude.{
  ℕ, String, Bool, false, not, ◌||◌, Option, none, some, List, [], ◌∷◌, str_eq, if◌then◌else◌,
}
use poc_hydra_auth.Errors.{
  Err, is, sentinel, wrapped, user_not_found, not_admin_account, already_disabled, last_super_admin,
}
use poc_hydra_auth.Exec.{◌>>=◌, ◌>>◌, raise, guard, wrapping, map_err}
use poc_hydra_auth.Domain.Status.{Status, status_eq, disabled, role_super_admin}
use poc_hydra_auth.World.{M, Env}
use poc_hydra_auth.Repo.AdminAccounts.{find_admin_account, disable_account_tx}
use poc_hydra_auth.Command.Steps.{has_admin_role}

-- The `isSuperAdmin` of the loop over the roles.
abbrev pub has_super_admin_role : List String → Bool
has_super_admin_role [] = false
has_super_admin_role (r ∷ rs) = str_eq r role_super_admin || has_super_admin_role rs

abbrev pub disable_error : Err → Err
disable_error e =
    if is e last_super_admin
    then sentinel last_super_admin
    else if is e already_disabled
    then sentinel already_disabled
    else wrapped "could not disable account" e

module _ {K : Type 0} (env : Env K) where
  unfoldable pub disable_found : ℕ → Option (List String × Status) → M K (Unit {0})
  disable_found target_uuid none = raise (sentinel user_not_found)
  disable_found target_uuid (some (roles, status)) = do
    guard (not (has_admin_role roles)) (sentinel not_admin_account)
    guard (status_eq status disabled) (sentinel already_disabled)
    map_err disable_error (disable_account_tx env target_uuid (has_super_admin_role roles))

  unfoldable pub disable_target : Option ℕ → M K (Unit {0})
  disable_target none = raise (sentinel user_not_found)
  disable_target (some target_uuid) = do
    account ← wrapping "could not look up account" (find_admin_account env target_uuid)
    disable_found target_uuid account

  -- Handle
  unfoldable pub disable_account : String → String → M K (Unit {0})
  disable_account operator_sub target_id = disable_target (env.lib.uuid_parse target_id)
