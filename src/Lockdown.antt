-- ===== src/Lockdown.antt =====
-- The login with the lockout that the service runs with (login.go, adapters/ratelimit/login.go,
-- lockout.go): passwords guessed one after another.
pub mod Entries
pub mod Attempts
pub mod Guessing
use poc_hydra_auth.Prelude.{
  ℕ, zero, suc, ◌+◌, ◌-◌, ◌*◌, ◌<◌, ◌≤◌, ◌==◌, String, ◌≡◌, refl, sym, ap, subst, ◌∙◌, Bool, true,
  false, Option, none, some, List, [], ◌∷◌, length, find?, arith, if◌then◌else◌, pos, negsuc,
}
use poc_hydra_auth.Errors.{sentinel, authentication_failed, locked_error}
use poc_hydra_auth.Exec.{Result, ok, err, ◌>>=◌, pure, raise, lift, wrapping, wrap_result, guard}
use poc_hydra_auth.Domain.Library.{Library}
use poc_hydra_auth.Domain.Validation.{validate_email}
use poc_hydra_auth.Db.{Db}
use poc_hydra_auth.Db.Users.{has_email}
use poc_hydra_auth.Repo.Users.{get_login_user}
use poc_hydra_auth.World.{World, Env, check, record_failure}
use poc_hydra_auth.Command.Login.{IssuedTokens, login, refuse_login, authenticate}
use poc_hydra_auth.Ratelimit.Redis.{IsRedis, Entry, Backend, Link, delivered, alive, ttl_of}
use poc_hydra_auth.Ratelimit.Limiters.{milliseconds, millisecond}
use poc_hydra_auth.Ratelimit.Lockout.{
  LockoutLimiter, unlocked, count_key, lock_key, lockout_record_failure, lockout_check,
  lockout_status, login_lockout_check,
}
use poc_hydra_auth.Ratelimit.Settings.{login_lockout}
use poc_hydra_auth.Ratelimit.Locking.{failed_entry, failed, record_failure_effect}
use poc_hydra_auth.Ratelimit.Lasting.{
  later, Failed, not_yet, before, hit_lem, miss_lem, next_failure, alive_lem, check_lem,
  positive_lem,
}
use poc_hydra_auth.Secrecy.{fits, bind_of_ok, looked_up_lem}
use poc_hydra_auth.Deps.{at_instant, with_redis}

-- Time goes by, for the service and for Redis.
abbrev pub pass : {S : Type 0} → ℕ → World (Link S) → World (Link S)
pass ms w = record w { now = w.now + ms * millisecond; services = later ms w.services }

module _ {S : Type 0} (env : Env (Link S)) (email : String) where
  -- Logins with one password after another, each the given milliseconds after the one before.
  abbrev pub guesses :
      String → List (ℕ × String) → World (Link S) → List (Result IssuedTokens) × World (Link S)
  guesses password [] w = let r = login env email password w in (r.0 ∷ [], r.1)
  guesses password ((ms, next) ∷ rest) w =
      let r = login env email password w in
      let later_on = guesses next rest (pass ms r.1) in (r.0 ∷ later_on.0, later_on.1)

abbrev pub elapsed : List (ℕ × String) → ℕ
elapsed [] = 0
elapsed ((ms, next) ∷ rest) = ms + elapsed rest

-- None of the passwords is that of a user with the address.
abbrev pub AllWrong : Library → String → Db → String → List (ℕ × String) → Type 0
AllWrong lib email db password [] = fits lib password (find? (has_email email) db.users) ≡ false
AllWrong lib email db password ((ms, next) ∷ rest) =
    (fits lib password (find? (has_email email) db.users) ≡ false) × AllWrong lib email db next rest

abbrev pub all_refused : List (ℕ × String) → List (Result IssuedTokens)
all_refused [] = err (sentinel authentication_failed) ∷ []
all_refused (g ∷ rest) = err (sentinel authentication_failed) ∷ all_refused rest
