-- ===== src/LoginScenarios.antt =====
-- A wrong password and an unknown address at the small service of Scenarios.
use poc_hydra_auth.Prelude.{◌≡◌, refl, false}
use poc_hydra_auth.Errors.{sentinel, authentication_failed}
use poc_hydra_auth.Exec.{err, ◌>>=◌, guard}
use poc_hydra_auth.Db.{empty_db}
use poc_hydra_auth.Db.Users.{get_user_by_email, get_user_roles}
use poc_hydra_auth.Domain.Token.{verify_password}
use poc_hydra_auth.Domain.Validation.{validate_email}
use poc_hydra_auth.Repo.Rows.{if_found, absent_or}
use poc_hydra_auth.Repo.Users.{get_login_user, with_roles}
use poc_hydra_auth.World.{World, check, record_failure, select_one, select_many, statement}
use poc_hydra_auth.Command.Login.{login, authenticate, refuse_login}
use poc_hydra_auth.Secrecy.{login_tells_nothing}
use poc_hydra_auth.Scenarios.{K, env, world}

abbrev vacant : World K
vacant = record world { db = empty_db }

refuses_wrong_password :
    (login env "a@example.org" "guess" world).0 ≡ err (sentinel authentication_failed)
unfolding login validate_email get_login_user with_roles get_user_by_email get_user_roles if_found
    absent_or select_one select_many statement authenticate refuse_login check record_failure
    verify_password ◌>>=◌ guard
refuses_wrong_password = refl

misfit : verify_password env.lib "correct horse battery" "guess" ≡ false
unfolding verify_password
misfit = refl

login_tells_nothing_example :
    ((login env "a@example.org" "guess" world).0 ≡ (login env "a@example.org" "guess" vacant).0)
    × ((login env "a@example.org" "guess" world).1.services
        ≡ (login env "a@example.org" "guess" vacant).1.services)
login_tells_nothing_example =
    login_tells_nothing env (λ n. refl) "a@example.org" "guess" world vacant refl refl misfit refl
