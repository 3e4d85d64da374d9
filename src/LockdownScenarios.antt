-- ===== src/LockdownScenarios.antt =====
-- Ten guesses at the small service of Scenarios with the Redis of RedisScenarios.
use poc_hydra_auth.Prelude.{ℕ, String, ◌≡◌, refl, true, false, List, [], ◌∷◌, ◌*◌, ◌-◌, arith}
use poc_hydra_auth.Errors.{locked_error}
use poc_hydra_auth.Exec.{ok, err}
use poc_hydra_auth.Domain.Validation.{validate_email}
use poc_hydra_auth.Domain.Token.{verify_password}
use poc_hydra_auth.Ratelimit.Redis.{Link}
use poc_hydra_auth.Ratelimit.Limiters.{millisecond}
use poc_hydra_auth.World.{World, Env}
use poc_hydra_auth.Command.Login.{login}
use poc_hydra_auth.Deps.{with_redis}
use poc_hydra_auth.Lockdown.{pass, guesses, AllWrong, all_refused}
use poc_hydra_auth.Lockdown.Entries.{quarter}
use poc_hydra_auth.Lockdown.Guessing.{guessing_locks_out}
use poc_hydra_auth.Scenarios.{env, world, retry}
use poc_hydra_auth.RedisScenarios.{S, backend, laws, empty_link}

abbrev linked_env : Env (Link S)
linked_env = record {
  lib = env.lib;
  db_fault = env.db_fault;
  collates = env.collates;
  rand_read = env.rand_read;
  uuid_new = env.uuid_new;
  generate_from_password = env.generate_from_password;
  delivers = env.delivers;
  allow = λ name key now k. (ok (record { allowed = true; retry_after = 0 }), k);
  check = λ key now k. (ok (false, 0), k);
  record_failure = λ key now k. (ok false, k);
  reset = λ key now k. (ok tt, k);
  retry = retry;
}

abbrev linked : World (Link S)
linked = record { db = world.db; services = empty_link; sent = []; draws = 0; now = 0 }

-- Nine more guesses, a second apart.
abbrev more : List (ℕ × String)
more =
    (1000, "1")
    ∷ (1000, "2")
    ∷ (1000, "3")
    ∷ (1000, "4")
    ∷ (1000, "5")
    ∷ (1000, "6")
    ∷ (1000, "7")
    ∷ (1000, "8")
    ∷ (1000, "9")
    ∷ []

wrong : AllWrong linked_env.lib "a@example.org" linked.db "0" more
unfolding verify_password
wrong = (refl, (refl, (refl, (refl, (refl, (refl, (refl, (refl, (refl, refl)))))))))

valid : validate_email linked_env.lib "a@example.org" ≡ ok tt
unfolding validate_email
valid = refl

guessing_locks_out_example :
    let r = guesses (with_redis backend (λ s. s) linked_env) "a@example.org" "0" more linked in
    (r.0 ≡ all_refused more)
    × ((login
          (with_redis backend (λ s. s) linked_env)
          "a@example.org"
          "correct horse battery"
          (pass 60000 r.1)).0
        ≡ err (locked_error ((quarter - 60000) * millisecond)))
guessing_locks_out_example =
    guessing_locks_out linked_env backend (λ s. s) laws (λ n. refl) (λ n. refl) "a@example.org" "0"
      more 60000 "correct horse battery" linked valid refl refl wrong refl (omega arith)
      (omega arith)
