-- ===== src/Lockdown/Entries.antt =====
-- The lockout of login.go for one address: what Check finds and what a failure changes.
use poc_hydra_auth.Prelude.{
  ℕ, zero, suc, ◌+◌, ◌*◌, ◌≤◌, ◌==◌, String, ◌≡◌, refl, ap, ◌∙◌, true, Option, some, arith,
  if◌then◌else◌, pos, negsuc,
}
use poc_hydra_auth.Exec.{ok, pure}
use poc_hydra_auth.Ratelimit.Redis.{Redis, IsRedis, Entry, Backend, Link, delivered, ttl_of}
use poc_hydra_auth.Ratelimit.Limiters.{millisecond}
use poc_hydra_auth.Ratelimit.Lockout.{
  unlocked, count_key, lock_key, lockout_record_failure, lockout_check, lockout_status,
}
use poc_hydra_auth.Ratelimit.Settings.{login_lockout}
use poc_hydra_auth.Ratelimit.Locking.{record_failure_effect}
use poc_hydra_auth.Ratelimit.Lasting.{Failed, next_failure, check_lem}

-- Fifteen minutes, in milliseconds.
abbrev pub quarter : ℕ
quarter = 15 * 60 * 1000

-- What Redis holds for an address: its failures, and its lock.
abbrev pub count_of :
    {S : Type 0} {redis : Redis S} → IsRedis redis → String → Link S → Option Entry
count_of laws email x = laws.entry (count_key login_lockout email) x.clock x.store

abbrev pub lock_of : {S : Type 0} {redis : Redis S} → IsRedis redis → String → Link S → Option Entry
lock_of laws email x = laws.entry (lock_key login_lockout email) x.clock x.store

module _ {S : Type 0} (backend : Backend S) (laws : IsRedis backend.redis)
    (up : (n : ℕ) → backend.net n ≡ delivered) (email : String) where
  -- Check, by what is left of the lock.
  pub status_lem :
      (x : Link S)
      → lockout_check backend login_lockout email x
        ≡ lockout_status backend login_lockout email
            (ttl_of x.clock (lock_of laws email x))
            (record x { draws = suc x.draws })
  status_lem x = check_lem backend laws login_lockout email (omega arith) (omega arith) up x

  pub open_lem :
      (x : Link S) → lockout_status backend login_lockout email (negsuc 1) x ≡ (ok unlocked, x)
  unfolding lockout_status pure
  open_lem x = refl

  shut_lem :
      (n : ℕ) (x : Link S)
      → lockout_status backend login_lockout email (pos (suc n)) x
        ≡ (ok (record { locked = true; retry_after = suc n * millisecond }), x)
  unfolding lockout_status pure
  shut_lem n x = refl

  pub still_locked :
      (m n : ℕ) (x : Link S)
      → m ≡ n
      → 1 ≤ n
      → lockout_status backend login_lockout email (pos m) x
        ≡ (ok (record { locked = true; retry_after = n * millisecond }), x)
  still_locked m zero x h k = absurd (omega (arith, k))
  still_locked m (suc n) x h k =
      ap (λ i. lockout_status backend login_lockout email (pos i) x) h ∙ shut_lem n x

  -- What a failure does to the two entries, `n` failures being counted.
  pub counted_lem :
      (n d : ℕ) (x : Link S)
      → Failed n d x.clock (quarter) (count_of laws email x)
      → let r = lockout_record_failure backend login_lockout email x in
        (r.0 ≡ ok (suc n == 10))
        × (laws.entry (count_key login_lockout email) x.clock r.1.store
            ≡ some (record { value = suc n; deadline = some d }))
        × (laws.entry (lock_key login_lockout email) x.clock r.1.store ≡ (
            if suc n == 10
            then some (record { value = 1; deadline = some (x.clock + quarter) })
            else lock_of laws email x))
        × (r.1.clock ≡ x.clock)
  counted_lem n d x f =
      let effect =
        record_failure_effect backend laws login_lockout email (omega arith) (omega arith) x
          (up x.draws) in
      let next = next_failure n d x.clock (quarter) _ f in
      let value = ap (λ e. e.value) next in
      (
        effect.0 ∙ ap (λ v. ok (v == 10)) value,
        effect.1 ∙ ap some next,
        effect.2
            ∙ ap
                (λ v.
                  if v == 10
                  then some (record { value = 1; deadline = some (x.clock + quarter) })
                  else lock_of laws email x)
                value,
        effect.3,
      )
