-- ===== src/Lockdown/Attempts.antt =====
-- One login with the lockout: what it answers, and what it leaves in Redis.
use poc_hydra_auth.Prelude.{
  ℕ, suc, ◌+◌, ◌==◌, String, ◌≡◌, refl, sym, ap, subst, ◌∙◌, Bool, true, false, none, some, find?,
  if◌then◌else◌,
}
use poc_hydra_auth.Errors.{sentinel, authentication_failed, locked_error}
use poc_hydra_auth.Exec.{Result, ok, err, ◌>>=◌, pure, raise, lift, wrapping, wrap_result, guard}
use poc_hydra_auth.Domain.Validation.{validate_email}
use poc_hydra_auth.Db.Users.{has_email}
use poc_hydra_auth.Repo.Users.{get_login_user}
use poc_hydra_auth.World.{World, Env, check, record_failure}
use poc_hydra_auth.Command.Login.{IssuedTokens, login, refuse_login, authenticate}
use poc_hydra_auth.Ratelimit.Redis.{IsRedis, Backend, Link, delivered, ttl_of}
use poc_hydra_auth.Ratelimit.Lockout.{
  count_key, lock_key, lockout_record_failure, lockout_check, lockout_status, login_lockout_check,
}
use poc_hydra_auth.Ratelimit.Settings.{login_lockout}
use poc_hydra_auth.Ratelimit.Lasting.{Failed}
use poc_hydra_auth.Secrecy.{fits, bind_of_ok, looked_up_lem}
use poc_hydra_auth.Deps.{at_instant, with_redis}
use poc_hydra_auth.Lockdown.Entries.{quarter, count_of, lock_of, status_lem, open_lem, counted_lem}

module _ {S : Type 0} (env : Env (Link S)) (backend : Backend S) (hmac : String → String)
    (laws : IsRedis backend.redis) (up : (n : ℕ) → backend.net n ≡ delivered)
    (quiet : (n : ℕ) → env.db_fault n ≡ none) (email : String) where
  abbrev sys : Env (Link S)
  sys = with_redis backend hmac env

  abbrev pub checked : World (Link S) → Link S
  checked w = let x = at_instant w.now w.services in record x { draws = suc x.draws }

  pub check_of_status :
      (w : World (Link S)) (b : Bool) (n : ℕ)
      → lockout_check backend login_lockout email (at_instant w.now w.services)
        ≡ (ok (record { locked = b; retry_after = n }), checked w)
      → check sys email w ≡ (ok (b, n), record w { services = checked w })
  unfolding check login_lockout_check pure
  check_of_status w b n h =
      let q =
        bind_of_ok (lockout_check backend login_lockout email)
          (λ st. pure (st.locked, st.retry_after)) h in
      ap (λ r. (r.0, record w { services = r.1 })) q

  unlocked_check :
      (w : World (Link S))
      → lock_of laws email w.services ≡ none
      → check sys email w ≡ (ok (false, 0), record w { services = checked w })
  unlocked_check w h = check_of_status w false 0 (
      status_lem backend laws up email (at_instant w.now w.services)
      ∙ ap (λ e. lockout_status backend login_lockout email (ttl_of w.services.clock e) (checked w))
          h
      ∙ open_lem backend laws up email (checked w))

  -- A login that is refused for its password, and counted as the failure after `n` others.
  pub record Guessed (n d : ℕ) (w : World (Link S)) (r : Result IssuedTokens × World (Link S))
      : Type 0 where
    pub answer : r.0 ≡ err (sentinel authentication_failed)
    pub same_db : r.1.db ≡ w.db
    pub clock : r.1.services.clock ≡ w.services.clock
    pub counted :
        count_of laws email r.1.services ≡ some (record { value = suc n; deadline = some d })
    pub locks : lock_of laws email r.1.services ≡ (
        if suc n == 10
        then some (record { value = 1; deadline = some (w.services.clock + quarter) })
        else none)

  refuse_lem :
      (v : World (Link S)) (b : Bool)
      → (lockout_record_failure backend login_lockout email (at_instant v.now v.services)).0 ≡ ok b
      → refuse_login sys email v ≡ (
        err (sentinel authentication_failed),
        record v {
          services =
              (lockout_record_failure backend login_lockout email (at_instant v.now v.services)).1;
        },
      )
  unfolding refuse_login record_failure raise wrapping
  refuse_lem v b h =
      bind_of_ok (wrapping "could not record login failure" (record_failure sys email)) _ (
        ap
          (λ r. (
            wrap_result "could not record login failure" r,
            record v {
              services =
                  (lockout_record_failure backend login_lockout email
                    (at_instant v.now v.services)).1;
            },
          ))
          h)

  -- Up to the lookup, for an address that is not locked.
  looked_up : (password : String) → World (Link S) → Result IssuedTokens × World (Link S)
  looked_up password =
      wrapping "could not look up user" (get_login_user sys email)
      >>= authenticate sys email password

  admitted_lem :
      (password : String) (w : World (Link S))
      → validate_email env.lib email ≡ ok tt
      → lock_of laws email w.services ≡ none
      → login sys email password w ≡ looked_up password (record w { services = checked w })
  unfolding login lift wrapping guard pure looked_up
  admitted_lem password w valid h =
      bind_of_ok (lift (validate_email env.lib email)) _ (ap (λ r. (r, w)) valid)
      ∙ bind_of_ok (wrapping "could not check lockout" (check sys email)) _
          (ap (λ r. (wrap_result "could not check lockout" r.0, r.1)) (unlocked_check w h))
      ∙ bind_of_ok (guard false (locked_error 0)) _ refl

  pub locked_out_lem :
      (password : String) (w : World (Link S)) (n : ℕ)
      → validate_email env.lib email ≡ ok tt
      → check sys email w ≡ (ok (true, n), record w { services = checked w })
      → (login sys email password w).0 ≡ err (locked_error n)
  unfolding login lift wrapping guard raise ◌>>=◌
  locked_out_lem password w n valid h = rw valid (rw h refl)

  pub guess_lem :
      (password : String) (n d : ℕ) (w : World (Link S))
      → validate_email env.lib email ≡ ok tt
      → Failed n d w.services.clock (quarter) (count_of laws email w.services)
      → lock_of laws email w.services ≡ none
      → fits env.lib password (find? (has_email email) w.db.users) ≡ false
      → Guessed n d w (login sys email password w)
  unfolding looked_up
  guess_lem password n d w valid f h k =
      let (v, p, s, now, db) =
        looked_up_lem sys quiet email password (record w { services = checked w }) k in
      let link = at_instant v.now v.services in
      let clock = ap (λ z. z.clock) s in
      let c =
        counted_lem backend laws up email n d link
          (subst (λ z. Failed n d z.clock (quarter) (count_of laws email z)) (sym s) f) in
      let y = (lockout_record_failure backend login_lockout email link).1 in
      let e = admitted_lem password w valid h ∙ p ∙ refuse_lem v (suc n == 10) c.0 in
      let on_link : lock_of laws email link ≡ none = ap (lock_of laws email) s ∙ h in
      let services = ap (λ r. r.1.services) e in
      record {
        answer = ap (λ r. r.0) e;
        same_db = ap (λ r. r.1.db) e ∙ db;
        clock = ap (λ z. z.clock) services ∙ c.3 ∙ clock;
        counted =
            ap (count_of laws email) services
            ∙ ap (λ t. laws.entry (count_key login_lockout email) t y.store) c.3
            ∙ c.1;
        locks =
            ap (lock_of laws email) services
            ∙ ap (λ t. laws.entry (lock_key login_lockout email) t y.store) c.3
            ∙ c.2
            ∙ ap
                (λ o.
                  if suc n == 10
                  then some (record { value = 1; deadline = some (link.clock + quarter) })
                  else o)
                on_link
            ∙ ap
                (λ t.
                  if suc n == 10
                  then some (record { value = 1; deadline = some (t + quarter) })
                  else none)
                clock;
      }
