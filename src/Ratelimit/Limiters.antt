-- ===== src/Ratelimit/Limiters.antt =====
-- ratelimit.go, fixedwindow.go, countingwindow.go and failmode.go. The scripts answer in the types
-- that the code asserts, so the branches on another type are not modelled; nor are the logs.
use poc_hydra_auth.Prelude.{
  join, ℕ, ◌+◌, ◌*◌, ◌/◌, ◌==◌, String, Bool, true, false, ℤ, pos, not_below_zero, difference, ltb,
  if◌then◌else◌,
}
use poc_hydra_auth.Exec.{Exec, Result, ok, err, ◌>>=◌, pure, wrapping, attempt}
use poc_hydra_auth.Ratelimit.Redis.{Backend, Link, call, link_now}
use poc_hydra_auth.Ratelimit.Scripts.{fixed_window_script, counting_window_script}

-- time.Millisecond
abbrev pub millisecond : ℕ
millisecond = 1000000

-- Duration.Milliseconds
abbrev pub milliseconds : ℕ → ℕ
milliseconds d = d / millisecond

-- ratelimit.Result
pub record LimitResult : Type 0 where
  pub allowed : Bool
  pub retry_after : ℕ
  pub remaining : ℕ
  pub reset_at : ℕ

-- NewResult
abbrev pub new_result : Bool → ℕ → ℤ → ℕ → LimitResult
new_result allowed retry_after remaining reset_at = record {
  allowed = allowed;
  retry_after = retry_after;
  remaining = not_below_zero remaining;
  reset_at = reset_at;
}

-- FixedWindowLimiter
pub record FixedWindowLimiter : Type 0 where
  pub prefix : String
  pub window : ℕ
  pub hash : String → String

-- CountingWindowLimiter
pub record CountingWindowLimiter : Type 0 where
  pub prefix : String
  pub window : ℕ
  pub limit : ℕ
  pub hash : String → String

-- l.prefix + l.hasher.Hash(key)
abbrev pub fixed_key : FixedWindowLimiter → String → String
fixed_key l key = join l.prefix (l.hash key)

abbrev pub counting_key : CountingWindowLimiter → String → String
counting_key l key = join l.prefix (l.hash key)

-- The end of FixedWindowLimiter.Allow: a negative time to live counts as 0.
abbrev pub fixed_result : ℕ × ℤ → ℕ → LimitResult
fixed_result (created, pttl_ms) now =
    let remaining_ttl = not_below_zero pttl_ms * millisecond in
    let reset_at = now + remaining_ttl in
    if created == 1
    then new_result true 0 (pos 0) reset_at
    else new_result false remaining_ttl (pos 0) reset_at

-- The end of CountingWindowLimiter.Allow. The script's time to live is not negative.
abbrev pub counting_result : ℕ → ℕ × ℤ → ℕ → LimitResult
counting_result limit (count, pttl_ms) now =
    let remaining_ttl = not_below_zero pttl_ms * millisecond in
    let reset_at = now + remaining_ttl in
    if ltb limit count
    then new_result false remaining_ttl (pos 0) reset_at
    else new_result true 0 (difference limit count) reset_at

pub data FailMode : Type 0 where
  fail_closed fail_open : FailMode

abbrev pub failed_result : FailMode → ℕ → LimitResult
failed_result fail_open now = new_result true 0 (pos 0) now
failed_result fail_closed now = new_result false 0 (pos 0) now

module _ {S : Type 0} (backend : Backend S) where
  -- FixedWindowLimiter.Allow
  unfoldable pub fixed_window_allow : FixedWindowLimiter → String → Exec (Link S) LimitResult
  fixed_window_allow l key = do
    raw ←
        wrapping "could not evaluate rate limit script" (
          call backend
            (fixed_window_script backend.redis (fixed_key l key) (milliseconds l.window)))
    now ← link_now
    pure (fixed_result raw now)

  -- CountingWindowLimiter.Allow
  unfoldable pub counting_window_allow : CountingWindowLimiter → String → Exec (Link S) LimitResult
  counting_window_allow l key = do
    raw ← wrapping "could not evaluate rate limit script" (
        call backend (
          counting_window_script backend.redis (counting_key l key) (milliseconds l.window)
            l.limit))
    now ← link_now
    pure (counting_result l.limit raw now)

-- What FailModeLimiter.Allow does with the answer of the inner limiter.
unfoldable pub absorbed : {S : Type 0} → FailMode → Result LimitResult → Exec (Link S) LimitResult
absorbed mode (ok r) = pure r
absorbed mode (err e) = link_now >>= λ now. pure (failed_result mode now)

-- FailModeLimiter.Allow
unfoldable pub fail_mode_allow :
    {S : Type 0}
    → FailMode
    → (String → Exec (Link S) LimitResult)
    → String
    → Exec (Link S) LimitResult
unfolding absorbed
fail_mode_allow mode inner key = attempt (inner key) >>= absorbed mode
