-- ===== src/Ratelimit/Scripts.antt =====
-- The Lua scripts of fixedwindow.go, countingwindow.go and lockout.go.
use poc_hydra_auth.Prelude.{
  ℕ, suc, ◌==◌, String, Option, none, some, ℤ, pos, is_negative, ltb, if◌then◌else◌,
}
use poc_hydra_auth.Ratelimit.Redis.{Redis}

-- tonumber(... or '0')
abbrev pub or_zero : Option ℕ → ℕ
or_zero none = 0
or_zero (some n) = n

module _ {S : Type 0} (redis : Redis S) where
  unfoldable pub fixed_window_script : String → ℕ → ℕ → S → (ℕ × ℤ) × S
  fixed_window_script key window t s =
      let (created, s') = redis.set_nx_px key window t s in
      ((if created then 1 else 0, redis.pttl key t s'), s')

  -- The branch `count < limit` and the other.
  abbrev pub counted : String → ℕ → ℕ → ℕ → S → ℕ × S
  counted key window limit t s =
      let count = or_zero (redis.get key t s) in
      let (count', s') = redis.incr key t s in
      if ltb count limit
      then (count', if count' == 1 then redis.pexpire key window t s' else s')
      else (suc count, s)

  -- A key without an expiry gets one.
  abbrev pub healed : String → ℕ → ℕ → ℕ × S → (ℕ × ℤ) × S
  healed key window t (count, s) =
      let pttl = redis.pttl key t s in
      if is_negative pttl
      then ((count, pos window), redis.pexpire key window t s)
      else ((count, pttl), s)

  unfoldable pub counting_window_script : String → ℕ → ℕ → ℕ → S → (ℕ × ℤ) × S
  counting_window_script key window limit t s = healed key window t (counted key window limit t s)

  -- The expiry of the count of failures, after INCR.
  abbrev pub windowed : String → ℕ → ℕ → ℕ × S → ℕ × S
  windowed key window t (count, s) =
      if count == 1
      then (count, redis.pexpire key window t s)
      else if is_negative (redis.pttl key t s)
      then (count, redis.pexpire key window t s)
      else (count, s)

  abbrev pub locking : String → ℕ → ℕ → ℕ → ℕ × S → ℕ × S
  locking lock_key threshold lock_ttl t (count, s) =
      if count == threshold then (1, redis.set_px lock_key lock_ttl t s) else (0, s)

  unfoldable pub lockout_failure_script : String → String → ℕ → ℕ → ℕ → ℕ → S → ℕ × S
  lockout_failure_script count_key lock_key window threshold lock_ttl t s =
      locking lock_key threshold lock_ttl t (windowed count_key window t (redis.incr count_key t s))
