-- ===== src/PasswordScenarios.antt =====
-- A change of a password, a password reset and the disabling of an account at the small service
-- of Scenarios.
use poc_hydra_auth.Prelude.{◌≡◌, refl, [], ◌∷◌, ℕ, List, some, find?, str_eq}
use poc_hydra_auth.Command.Login.{IssuedTokens}
use poc_hydra_auth.Command.RefreshToken.{refresh}
use poc_hydra_auth.Service.{Request, run, logs_in, reactivates}
use poc_hydra_auth.History.Ended.{reset_ends_sessions, disabling_ends_sessions}
use poc_hydra_auth.Exec.{ok, ◌>>=◌, guard}
use poc_hydra_auth.Domain.Status.{is_admin_role, role_operator}
use poc_hydra_auth.World.{World}
use poc_hydra_auth.Db.Tx.{update_in_tx}
use poc_hydra_auth.Db.Users.{transition_user_status}
use poc_hydra_auth.Command.ChangePassword.{change_password, change_for, change_with}
use poc_hydra_auth.Command.ConfirmPasswordReset.{confirm_password_reset}
use poc_hydra_auth.Db.RefreshTokens.{revoke_refresh_tokens_by_user, revoke_where}
use poc_hydra_auth.Db.Tokens.{
  get_password_reset_token_by_hash, mark_password_reset_token_used,
  invalidate_active_password_reset_tokens_by_user,
}
use poc_hydra_auth.Db.Tx.{try_tx, update_in_tx_once}
use poc_hydra_auth.Db.Users.{get_user_by_uuid, update_user_password, get_user_roles}
use poc_hydra_auth.Domain.Token.{verify_password, used, expired, hash_token}
use poc_hydra_auth.Domain.Validation.{validate_password}
use poc_hydra_auth.Repo.ResetTokens.{find_password_reset_token, confirm_password_reset_tx}
use poc_hydra_auth.Repo.Rows.{if_found, absent_or, or_missing}
use poc_hydra_auth.Repo.Users.{change_password_tx, get_user_credentials}
use poc_hydra_auth.Success.Passwords.{Changed, change_password_effect}
use poc_hydra_auth.Success.Resets.{Confirmed, confirm_password_reset_effect}
use poc_hydra_auth.World.{select_one, statement, generate_from_password, time_now, select_many}
use poc_hydra_auth.Command.DisableAccount.{disable_account, disable_target, disable_found}
use poc_hydra_auth.Repo.AdminAccounts.{
  find_admin_account, roles_and_status, guard_last_super_admin, disable_account_tx,
}
use poc_hydra_auth.Success.Disabling.{Disables, disable_account_effect}
use poc_hydra_auth.Scenarios.{K, env, laws, library, user, session, reset_link, world, retry}

changes :
    (change_password env "one" "correct horse battery" "another long password" world).0 ≡ ok tt
unfolding change_password change_for change_with change_password_tx get_user_credentials if_found
    absent_or get_user_by_uuid select_one statement update_user_password
    revoke_refresh_tokens_by_user revoke_where update_in_tx try_tx update_in_tx_once retry ◌>>=◌
    guard generate_from_password verify_password validate_password
changes = refl

change_password_effect_example :
    Changed env "one" "correct horse battery" "another long password" world.db
      (change_password env "one" "correct horse battery" "another long password" world).1.db
change_password_effect_example =
    change_password_effect env laws "one" "correct horse battery" "another long password" world
      changes

confirms : (confirm_password_reset env "link" "another long password" world).0 ≡ ok tt
unfolding confirm_password_reset find_password_reset_token confirm_password_reset_tx or_missing
    get_password_reset_token_by_hash select_one statement mark_password_reset_token_used
    invalidate_active_password_reset_tokens_by_user update_user_password
    revoke_refresh_tokens_by_user revoke_where update_in_tx try_tx update_in_tx_once retry ◌>>=◌
    guard generate_from_password time_now used expired hash_token validate_password
confirms = refl

confirm_password_reset_effect_example :
    Confirmed env laws "link" "another long password" world.now world.db
      (confirm_password_reset env "link" "another long password" world).1.db
confirm_password_reset_effect_example =
    confirm_password_reset_effect env laws "link" "another long password" world confirms

abbrev staffed : World K
staffed = record world {
  db = record world.db {
    users = record user { user_uuid = 2; email = "op@example.org" } ∷ user ∷ [];
    user_roles = record { user_uuid = 2; role = role_operator; granted_at = 0 } ∷ [];
    refresh_tokens = record session { user_uuid = 2 } ∷ [];
  };
}

disables_operator : (disable_account env "one" "two" staffed).0 ≡ ok tt
unfolding disable_account disable_target disable_found find_admin_account roles_and_status
    is_admin_role guard_last_super_admin disable_account_tx if_found absent_or get_user_by_uuid
    get_user_roles select_one select_many statement transition_user_status
    revoke_refresh_tokens_by_user revoke_where update_in_tx try_tx update_in_tx_once retry ◌>>=◌
    guard
disables_operator = refl

disable_account_effect_example :
    Disables env laws "two" staffed.db (disable_account env "one" "two" staffed).1.db
disable_account_effect_example =
    disable_account_effect env laws "one" "two" staffed disables_operator

abbrev tokens : IssuedTokens
tokens = record { access_token = "jwt"; refresh_token = "fresh" }

-- The user logs in with the new password; the old session's token comes back after it.
abbrev signs_in : List (ℕ × K × Request)
signs_in = (110, tt, logs_in "a@example.org" "another long password") ∷ []

session_found :
    find? (λ t. str_eq t.token_hash (hash_token library "plain")) world.db.refresh_tokens
    ≡ some session
unfolding hash_token
session_found = refl

link_found :
    find? (λ t. str_eq t.token_hash (hash_token library "link")) world.db.password_reset_tokens
    ≡ some reset_link
unfolding hash_token
link_found = refl

reset_ends_sessions_example : ¬ (
    (refresh env "plain"
      (record (run env signs_in
        (confirm_password_reset env "link" "another long password" world).1) {
          now = 120;
          services = tt;
        })).0
    ≡ ok tokens)
reset_ends_sessions_example =
    reset_ends_sessions env laws "link" "another long password" world reset_link confirms link_found
      "plain" session session_found refl signs_in 120 tt tokens

-- The operator is let in again.
abbrev reinstated : List (ℕ × K × Request)
reinstated = (110, tt, reactivates "one" "two") ∷ []

operator_session_found :
    find? (λ t. str_eq t.token_hash (hash_token library "plain")) staffed.db.refresh_tokens
    ≡ some (record session { user_uuid = 2 })
unfolding hash_token
operator_session_found = refl

disabling_ends_sessions_example : ¬ (
    (refresh env "plain" (record (run env reinstated (disable_account env "one" "two" staffed).1) {
      now = 120;
      services = tt;
    })).0
    ≡ ok tokens)
disabling_ends_sessions_example =
    disabling_ends_sessions env laws "one" "two" 2 staffed disables_operator refl "plain"
      (record session { user_uuid = 2 }) operator_session_found refl reinstated 120 tt tokens
