-- ===== src/Lockdown/Guessing.antt =====
-- Passwords guessed one after another against the login with its lockout.
use poc_hydra_auth.Prelude.{
  ℕ, suc, ◌+◌, ◌-◌, ◌*◌, ◌<◌, String, ◌≡◌, refl, sym, ap, subst, ◌∙◌, true, none, some, List, [],
  ◌∷◌, length, arith, if◌then◌else◌,
}
use poc_hydra_auth.Errors.{sentinel, authentication_failed, locked_error}
use poc_hydra_auth.Exec.{ok, err}
use poc_hydra_auth.Domain.Validation.{validate_email}
use poc_hydra_auth.World.{World, Env}
use poc_hydra_auth.Command.Login.{login}
use poc_hydra_auth.Ratelimit.Redis.{IsRedis, Backend, Link, delivered, alive, ttl_of}
use poc_hydra_auth.Ratelimit.Limiters.{millisecond}
use poc_hydra_auth.Ratelimit.Lockout.{count_key, lock_key, lockout_status}
use poc_hydra_auth.Ratelimit.Settings.{login_lockout}
use poc_hydra_auth.Ratelimit.Lasting.{Failed, not_yet, before, hit_lem, miss_lem, alive_lem}
use poc_hydra_auth.Deps.{at_instant, with_redis}
use poc_hydra_auth.Lockdown.Entries.{quarter, count_of, lock_of, status_lem, still_locked}
use poc_hydra_auth.Lockdown.{pass, guesses, elapsed, AllWrong, all_refused}
use poc_hydra_auth.Lockdown.Attempts.{checked, check_of_status, guess_lem, locked_out_lem}

module _ {S : Type 0} (env : Env (Link S)) (backend : Backend S) (hmac : String → String)
    (laws : IsRedis backend.redis) (up : (n : ℕ) → backend.net n ≡ delivered)
    (quiet : (n : ℕ) → env.db_fault n ≡ none) (email : String) where
  abbrev sys : Env (Link S)
  sys = with_redis backend hmac env

  guesses_lem :
      (password : String) (n d : ℕ) (rest : List (ℕ × String)) (w : World (Link S))
      → validate_email env.lib email ≡ ok tt
      → Failed n d w.services.clock (quarter) (count_of laws email w.services)
      → lock_of laws email w.services ≡ none
      → AllWrong env.lib email w.db password rest
      → w.services.clock + elapsed rest < d
      → n + length rest ≡ 9
      → let r = guesses sys email password rest w in
        (r.0 ≡ all_refused rest)
        × (lock_of laws email r.1.services
            ≡ some (record { value = 1; deadline = some (r.1.services.clock + quarter) }))
  guesses_lem password n d [] w valid f h k m len =
      let g = guess_lem env backend hmac laws up quiet email password n d w valid f h k in
      (
        ap (λ a. a ∷ []) g.answer,
        g.locks
            ∙ ap
                (λ b.
                  if b
                  then some (record { value = 1; deadline = some (w.services.clock + quarter) })
                  else none)
                (hit_lem (suc n) 10 (omega (arith, len)))
            ∙ ap (λ t. some (record { value = 1; deadline = some (t + quarter) })) (sym g.clock),
      )
  guesses_lem password n d ((ms, next) ∷ rest) w valid f h (wrong, k) m len =
      let r = login sys email password w in
      let g = guess_lem env backend hmac laws up quiet email password n d w valid f h wrong in
      let x = r.1.services in
      let aged = λ (key : String). laws.aging key x.clock (x.clock + ms) x.store (omega arith) in
      let still =
        aged (count_key login_lockout email)
        ∙ ap (alive (x.clock + ms)) g.counted
        ∙ alive_lem (x.clock + ms) d (suc n) (omega (arith, m, g.clock)) in
      let unlocked_still =
        aged (lock_key login_lockout email)
        ∙ ap (alive (x.clock + ms)) (
            g.locks
            ∙ ap
                (λ b.
                  if b
                  then some (record { value = 1; deadline = some (w.services.clock + quarter) })
                  else none)
                (miss_lem (suc n) 10 (omega (arith, len)))) in
      let ih =
        guesses_lem next (suc n) d rest (pass ms r.1) valid (before (omega arith) still)
          unlocked_still (subst (λ db. AllWrong env.lib email db next rest) (sym g.same_db) k)
          (omega (arith, m, g.clock)) (omega (arith, len)) in
      (
        ap (λ a. a ∷ (guesses sys email next rest (pass ms r.1)).0) g.answer
            ∙ ap (λ l. err (sentinel authentication_failed) ∷ l) ih.0,
        ih.1,
      )

  -- With Redis as documented and answering every call, and while no statement fails: when an address
  -- of valid form has neither a count of failures nor a lock, and ten passwords, none of them that
  -- of a user with the address, are tried within less than fifteen minutes by the clock of Redis,
  -- each is refused as a failed authentication; and for the fifteen minutes after the last, a login
  -- for the address is refused as locked, whatever the password, the right one included, with the
  -- time that is left.
  pub guessing_locks_out :
      (password : String) (rest : List (ℕ × String)) (wait : ℕ) (any_password : String)
      (w : World (Link S))
      → validate_email env.lib email ≡ ok tt
      → count_of laws email w.services ≡ none
      → lock_of laws email w.services ≡ none
      → AllWrong env.lib email w.db password rest
      → length rest ≡ 9
      → elapsed rest < quarter
      → wait < quarter
      → let r = guesses sys email password rest w in
        (r.0 ≡ all_refused rest)
        × ((login sys email any_password (pass wait r.1)).0
            ≡ err (locked_error ((quarter - wait) * millisecond)))
  guessing_locks_out password rest wait any_password w valid c h k len m lim =
      let (refused, locked) =
        guesses_lem password 0 (w.services.clock + quarter) rest w valid (not_yet refl refl c) h k
          (omega (arith, m)) (omega (arith, len)) in
      let v = pass wait (guesses sys email password rest w).1 in
      let t = (guesses sys email password rest w).1.services.clock in
      let left =
        laws.aging (lock_key login_lockout email) t (t + wait) v.services.store (omega arith)
        ∙ ap (alive (t + wait)) locked
        ∙ alive_lem (t + wait) (t + quarter) 1 (omega (arith, lim)) in
      (
        refused,
        locked_out_lem env backend hmac laws up quiet email any_password v _ valid (
            check_of_status env backend hmac laws up quiet email v true _ (
              status_lem backend laws up email (at_instant v.now v.services)
              ∙ ap
                  (λ e.
                    lockout_status backend login_lockout email (ttl_of (t + wait) e)
                      (checked env backend hmac laws up quiet email v))
                  left
              ∙ still_locked backend laws up email (t + quarter - (t + wait)) (quarter - wait)
                  (checked env backend hmac laws up quiet email v) (omega arith)
                  (omega (arith, lim)))),
      )
