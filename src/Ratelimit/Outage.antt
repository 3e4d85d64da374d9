-- ===== src/Ratelimit/Outage.antt =====
-- The limiters and the lockout when Redis does not answer.
use poc_hydra_auth.Prelude.{
  ℕ, String, ◌≡◌, ◌≤◌, refl, ◌∙◌, Bool, true, false, is_none, if◌then◌else◌,
}
use poc_hydra_auth.Exec.{Result, ok, ◌>>=◌, pure, wrapping, attempt}
use poc_hydra_auth.Ratelimit.Redis.{
  Backend, IsRedis, Link, Net, delivered, not_sent, reply_lost, call, link_now,
}
use poc_hydra_auth.Ratelimit.Scripts.{fixed_window_script}
use poc_hydra_auth.Ratelimit.Limiters.{
  FixedWindowLimiter, LimitResult, FailMode, fixed_key, fixed_result, fixed_window_allow,
  fail_mode_allow, absorbed, failed_result, fail_open, fail_closed, milliseconds,
}
use poc_hydra_auth.Ratelimit.Windows.Fixed.{allowed_lem}

abbrev pub is_delivered : Net → Bool
is_delivered delivered = true
is_delivered not_sent = false
is_delivered reply_lost = false

abbrev pub passes : FailMode → Bool
passes fail_open = true
passes fail_closed = false

-- A reply that is no error, with what it allows.
pub record Decides (r : Result LimitResult) (allowed : Bool) : Type 0 where
  pub decision : LimitResult
  pub returned : r ≡ ok decision
  pub allows : decision.allowed ≡ allowed

failed_lem : (mode : FailMode) (now : ℕ) → (failed_result mode now).allowed ≡ passes mode
failed_lem fail_open now = refl
failed_lem fail_closed now = refl

module _ {S : Type 0} (b : Backend S) (laws : IsRedis b.redis) (mode : FailMode)
    (l : FixedWindowLimiter) (key : String) (some_window : 1 ≤ milliseconds l.window) where
  by_net_lem :
      (n : Net) (w : Link S)
      → b.net w.draws ≡ n
      → Decides (fail_mode_allow mode (fixed_window_allow b l) key w).0 (
          if is_delivered (b.net w.draws)
          then is_none (laws.entry (fixed_key l key) w.clock w.store)
          else passes mode)
  unfolding fail_mode_allow absorbed fixed_window_allow attempt ◌>>=◌ pure wrapping call link_now
      fixed_window_script
  by_net_lem delivered w e =
      let s = b.redis.set_nx_px (fixed_key l key) (milliseconds l.window) w.clock w.store in
      rw e (record {
        decision =
            fixed_result (if s.0 then 1 else 0, b.redis.pttl (fixed_key l key) w.clock s.1) w.now;
        returned = refl;
        allows =
            allowed_lem s.0 (b.redis.pttl (fixed_key l key) w.clock s.1) w.now
            ∙ (laws.set_nx_px_law (fixed_key l key) (milliseconds l.window) w.clock w.store
                some_window).0;
      })
  by_net_lem not_sent w e = rw e (record {
    decision = failed_result mode w.now;
    returned = refl;
    allows = failed_lem mode w.now;
  })
  by_net_lem reply_lost w e = rw e (record {
    decision = failed_result mode w.now;
    returned = refl;
    allows = failed_lem mode w.now;
  })

  -- With Redis as documented and a window of a millisecond at least, a FixedWindowLimiter under a FailModeLimiter never returns an error.
  -- When Redis answers, it lets the key pass exactly when the key has no entry; when the call is
  -- lost, before Redis has run it or after, it does so exactly when the mode is FailOpen.
  pub fail_mode-Decides :
      (w : Link S)
      → Decides (fail_mode_allow mode (fixed_window_allow b l) key w).0 (
          if is_delivered (b.net w.draws)
          then is_none (laws.entry (fixed_key l key) w.clock w.store)
          else passes mode)
  fail_mode-Decides w = by_net_lem (b.net w.draws) w refl
