-- ===== src/SessionScenarios.antt =====
-- Login, refresh and logout at the small service of Scenarios.
use poc_hydra_auth.Prelude.{ℕ, ◌≡◌, refl, some, List, [], ◌∷◌, str_eq, find?, ◌⊎◌}
use poc_hydra_auth.Errors.{session_revoked_error, token_reuse_detected}
use poc_hydra_auth.Exec.{ok, err, ◌>>=◌, guard}
use poc_hydra_auth.Domain.Status.{check_loginable_status}
use poc_hydra_auth.World.{World, check, reset}
use poc_hydra_auth.Db.Tx.{update_in_tx}
use poc_hydra_auth.Db.Users.{get_user_by_email}
use poc_hydra_auth.Service.{Request, refreshes, logs_out, logs_in, run}
use poc_hydra_auth.Command.Login.{IssuedTokens, login, authenticate, admit, issue_tokens}
use poc_hydra_auth.Command.RefreshToken.{
  refresh, refresh_stored, refresh_at, for_user, rotate, after_rotation,
}
use poc_hydra_auth.Db.RefreshTokens.{
  revoke_where, get_refresh_token_row_by_hash, mark_refresh_token_used, insert_refresh_token,
  revoke_refresh_token_row,
}
use poc_hydra_auth.Db.Tx.{try_tx, update_in_tx_once}
use poc_hydra_auth.Db.Users.{get_user_by_uuid, get_user_roles}
use poc_hydra_auth.Domain.Issue.{generate_refresh_token, issue_access_token}
use poc_hydra_auth.Domain.Token.{verify_password, hash_token, generate_access_token}
use poc_hydra_auth.Domain.Validation.{validate_email}
use poc_hydra_auth.Repo.RefreshTokens.{
  get_refresh_token_by_hash, get_user_for_refresh, refresh_user, rotate_refresh_token,
  revoke_refresh_token,
}
use poc_hydra_auth.Repo.Rows.{if_found, absent_or}
use poc_hydra_auth.Repo.Users.{get_login_user, with_roles, save_refresh_token}
use poc_hydra_auth.Success.Refresh.{Refreshed, refresh_effect}
use poc_hydra_auth.World.{select_one, statement, time_now, select_many, rand_read, uuid_new}
use poc_hydra_auth.Command.Logout.{logout, logout_stored, revoke_own}
use poc_hydra_auth.Success.Login.{LoggedIn, login_effect}
use poc_hydra_auth.Success.Logout.{RevokesOwn, Foreign, logout_effect}
use poc_hydra_auth.History.Replay.{exchanged_once}
use poc_hydra_auth.History.Ended.{reuse_ends_family}
use poc_hydra_auth.Scenarios.{K, env, laws, library, session, world, retry}

abbrev answer : IssuedTokens
answer = record { access_token = "jwt"; refresh_token = "fresh" }

rotates : (refresh env "plain" world).0 ≡ ok answer
unfolding refresh get_refresh_token_by_hash get_refresh_token_row_by_hash if_found absent_or
    select_one statement select_many refresh_stored time_now refresh_at get_user_for_refresh
    get_user_by_uuid refresh_user get_user_roles for_user rotate generate_refresh_token rand_read
    uuid_new rotate_refresh_token mark_refresh_token_used insert_refresh_token update_in_tx try_tx
    update_in_tx_once retry after_rotation issue_access_token generate_access_token ◌>>=◌ guard
    hash_token
rotates = refl

refresh_effect_example :
    Refreshed env laws "plain" answer world.now world.db (refresh env "plain" world).1.db
refresh_effect_example = refresh_effect env laws "plain" answer world rotates

abbrev spent : World K
spent = record world {
  db = record world.db { refresh_tokens = record session { used_at = some 50 } ∷ [] };
}

hashes :
    find? (λ t. str_eq t.token_hash (hash_token library "plain")) spent.db.refresh_tokens
    ≡ some (record session { used_at = some 50 })
unfolding hash_token
hashes = refl

abbrev logged_in : List (ℕ × K × Request)
logged_in = (110, tt, logs_in "a@example.org" "correct horse battery") ∷ []

reuse_ends_family_example :
    ((refresh env "plain" spent).0 ≡ err (session_revoked_error token_reuse_detected))
    × ¬ (
        (refresh env "plain"
          (record (run env logged_in (refresh env "plain" spent).1) { now = 120; services = tt })).0
        ≡ ok answer)
reuse_ends_family_example =
    reuse_ends_family env laws "plain" (record session { used_at = some 50 }) spent refl hashes refl
      refl refl refl "plain" (record session { used_at = some 50 }) hashes refl logged_in 120 tt
      answer

logs_in_answers : (login env "a@example.org" "correct horse battery" world).0 ≡ ok answer
unfolding login validate_email check get_login_user if_found absent_or get_user_by_email select_one
    statement with_roles get_user_roles select_many authenticate admit reset issue_tokens
    issue_access_token generate_access_token generate_refresh_token rand_read uuid_new time_now
    save_refresh_token insert_refresh_token check_loginable_status verify_password hash_token ◌>>=◌
    guard
logs_in_answers = refl

login_effect_example :
    LoggedIn env "a@example.org" "correct horse battery" answer world
      (login env "a@example.org" "correct horse battery" world).1.db
login_effect_example =
    login_effect env "a@example.org" "correct horse battery" answer world logs_in_answers

logs_out_session : (logout env "plain" "one" world).0 ≡ ok tt
unfolding logout get_refresh_token_by_hash get_refresh_token_row_by_hash if_found absent_or
    select_one statement logout_stored revoke_own revoke_refresh_token revoke_refresh_token_row
    revoke_where ◌>>=◌ guard hash_token
logs_out_session = refl

logout_effect_example :
    RevokesOwn env "plain" "one" world.now world.db (logout env "plain" "one" world).1.db
    ⊎ Foreign env "plain" "one" world.db (logout env "plain" "one" world).1.db
logout_effect_example = logout_effect env "plain" "one" world logs_out_session

-- The token is sent once more, and a session is ended, before it is sent a third time.
abbrev meanwhile : List (ℕ × K × Request)
meanwhile = (110, tt, refreshes "plain") ∷ (120, tt, logs_out "fresh" "one") ∷ []

exchanged_once_example : ¬ (
    (refresh env "plain"
      (record (run env meanwhile (refresh env "plain" world).1) { now = 130; services = tt })).0
    ≡ ok answer)
exchanged_once_example =
    exchanged_once env laws "plain" answer world rotates meanwhile 130 tt answer
