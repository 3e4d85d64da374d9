-- ===== src/Respects/Disabling.antt =====
-- A preorder that the statements of an account's disabling respect is respected by the whole request.
use poc_hydra_auth.Prelude.{ℕ, String, Bool, true, false, Option, none, some, List}
use poc_hydra_auth.Domain.Status.{Status, inactive, disabled}
use poc_hydra_auth.World.{Env}
use poc_hydra_auth.Db.Users.{transition_user_status, lock_active_super_admins}
use poc_hydra_auth.Db.Tx.Atomic.{IsRetry}
use poc_hydra_auth.Repo.AdminAccounts.{guard_last_super_admin, disable_account_tx}
use poc_hydra_auth.Command.DisableAccount.{disable_found, disable_target, disable_account}
use poc_hydra_auth.Respects.{Preorder, Respects}
use poc_hydra_auth.Respects.Writes.{RespectsWrites}
use poc_hydra_auth.Respects.Statements.{RespectsStatements, writes_of_statements}
use poc_hydra_auth.Respects.Reads.{read_rules}

module _ {K : Type 0} (env : Env K) {R : Preorder} (laws : IsRetry env)
    (disable : (u : ℕ) → Respects R (transition_user_status env u disabled inactive))
    (s : RespectsStatements env R) where
  guard_last-Respects : (b : Bool) → Respects R (guard_last_super_admin env b)
  unfolding guard_last_super_admin lock_active_super_admins
  guard_last-Respects true = search read_rules
  guard_last-Respects false = search read_rules

  disable_tx-Respects : (u : ℕ) (b : Bool) → Respects R (disable_account_tx env u b)
  unfolding disable_account_tx
  disable_tx-Respects u b =
      search (read_rules, guard_last-Respects, disable, s.on_sessions.user_revoked) depth 10

  disable_found-Respects :
      (u : ℕ) (account : Option (List String × Status)) → Respects R (disable_found env u account)
  unfolding disable_found
  disable_found-Respects u none = search read_rules
  disable_found-Respects u (some (roles, status)) = search (read_rules, disable_tx-Respects) depth 8

  disable_target-Respects : (u : Option ℕ) → Respects R (disable_target env u)
  unfolding disable_target
  disable_target-Respects none = search read_rules
  disable_target-Respects (some u) = search (read_rules, disable_found-Respects)

  disable_account-Respects :
      (operator target : String) → Respects R (disable_account env operator target)
  unfolding disable_account
  disable_account-Respects operator target = disable_target-Respects _

  pub writes_and_disabling : RespectsWrites env R
  writes_and_disabling = writes_of_statements env laws s disable_account-Respects
