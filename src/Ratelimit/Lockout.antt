-- ===== src/Ratelimit/Lockout.antt =====
-- lockout.go, and the loginLockout of adapters/ratelimit/login.go, which passes its answers on.
use poc_hydra_auth.Prelude.{
  join, ℕ, zero, suc, ◌*◌, ◌==◌, String, Bool, true, false, ℤ, pos, negsuc,
}
use poc_hydra_auth.Exec.{Exec, ◌>>=◌, ◌>>◌, pure, wrapping}
use poc_hydra_auth.Ratelimit.Redis.{Backend, Link, call}
use poc_hydra_auth.Ratelimit.Scripts.{lockout_failure_script}
use poc_hydra_auth.Ratelimit.Limiters.{millisecond, milliseconds}

-- LockoutLimiter
pub record LockoutLimiter : Type 0 where
  pub prefix : String
  pub window : ℕ
  pub lock_ttl : ℕ
  pub threshold : ℕ
  pub hash : String → String

-- countKey
abbrev pub count_key : LockoutLimiter → String → String
count_key l key = join (join l.prefix "count:") (l.hash key)

-- lockKey
abbrev pub lock_key : LockoutLimiter → String → String
lock_key l key = join (join l.prefix "lock:") (l.hash key)

-- LockoutStatus
pub record LockoutStatus : Type 0 where
  pub locked : Bool
  pub retry_after : ℕ

abbrev pub unlocked : LockoutStatus
unlocked = record { locked = false; retry_after = 0 }

module _ {S : Type 0} (backend : Backend S) where
  -- The end of Check, after PTTL: a lock without an expiry gets one.
  unfoldable pub lockout_status : LockoutLimiter → String → ℤ → Exec (Link S) LockoutStatus
  lockout_status l key (pos zero) = pure unlocked
  lockout_status l key (pos (suc n)) =
      pure (record { locked = true; retry_after = suc n * millisecond })
  lockout_status l key (negsuc zero) = do
    wrapping "could not heal lockout ttl" (
        call backend
          λ t s. (tt {0}, backend.redis.pexpire (lock_key l key) (milliseconds l.lock_ttl) t s))
    pure (record { locked = true; retry_after = l.lock_ttl })
  lockout_status l key (negsuc (suc n)) = pure unlocked

  -- Check
  unfoldable pub lockout_check : LockoutLimiter → String → Exec (Link S) LockoutStatus
  unfolding lockout_status
  lockout_check l key = do
    pttl ←
        wrapping "could not check lockout state"
          (call backend λ t s. (backend.redis.pttl (lock_key l key) t s, s))
    lockout_status l key pttl

  -- RecordFailure
  unfoldable pub lockout_record_failure : LockoutLimiter → String → Exec (Link S) Bool
  lockout_record_failure l key = do
    locked ← wrapping "could not record login failure" (
        call backend (
          lockout_failure_script backend.redis (count_key l key) (lock_key l key)
            (milliseconds l.window) l.threshold (milliseconds l.lock_ttl)))
    pure (locked == 1)

  -- Reset
  unfoldable pub lockout_reset : LockoutLimiter → String → Exec (Link S) (Unit {0})
  lockout_reset l key =
      wrapping "could not reset login failure count"
        (call backend λ t s. (tt, backend.redis.del (count_key l key) t s))

  -- loginLockout.Check
  unfoldable pub login_lockout_check : LockoutLimiter → String → Exec (Link S) (Bool × ℕ)
  unfolding lockout_check
  login_lockout_check l key = do st ← lockout_check l key; pure (st.locked, st.retry_after)
