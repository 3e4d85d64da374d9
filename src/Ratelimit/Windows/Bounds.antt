-- ===== src/Ratelimit/Windows/Bounds.antt =====
-- How often FixedWindowLimiter and CountingWindowLimiter let a key pass, and when they do so again.
use poc_hydra_auth.Prelude.{◌+◌, ◌≤◌, String, ◌≡◌, refl, none, List, count_where, arith}
use poc_hydra_auth.Ratelimit.Redis.{Backend, IsRedis, Link}
use poc_hydra_auth.Ratelimit.Limiters.{
  FixedWindowLimiter, CountingWindowLimiter, milliseconds, fixed_key, counting_key,
  fixed_window_allow, counting_window_allow,
}
use poc_hydra_auth.Ratelimit.Runs.{Call, calls, is_grant}
use poc_hydra_auth.Ratelimit.Windows.{unused, cap_lem}
use poc_hydra_auth.Ratelimit.Windows.Fixed.{fixed-Windows}
use poc_hydra_auth.Ratelimit.Windows.Counting.{counting-Windows}

module _ {S : Type 0} (b : Backend S) (laws : IsRedis b.redis) where
  -- With Redis as documented and a window of a millisecond at least, from an instant at which a key has no entry and whatever the later
  -- calls, their keys and times and the network do: within a window's length of that instant,
  -- FixedWindowLimiter.Allow lets the key pass once at most.
  pub fixed_window_at_most_once :
      (l : FixedWindowLimiter) (key : String) (cs : List Call) (w : Link S)
      → 1 ≤ milliseconds l.window
      → laws.entry (fixed_key l key) w.clock w.store ≡ none
      → count_where
          (is_grant (fixed_key l) (fixed_key l key) (w.clock + milliseconds l.window))
          (calls (fixed_window_allow b l) cs w).0
        ≤ 1
  fixed_window_at_most_once l key cs w some_window h =
      let k =
        cap_lem b laws (milliseconds l.window) 1 (fixed_key l) (fixed_window_allow b l)
          (fixed-Windows b laws l some_window) (w.clock + milliseconds l.window) 0 (fixed_key l key)
          cs w (omega arith) (omega arith) (unused refl h) in
      omega (arith, k)

  -- With Redis as documented and a window of a millisecond at least, from an instant at which a key has no entry and whatever the later
  -- calls, their keys and times and the network do: within a window's length of that instant,
  -- CountingWindowLimiter.Allow lets the key pass `limit` times at most, where `limit` is positive.
  pub counting_window_at_most_limit :
      (l : CountingWindowLimiter) (key : String) (cs : List Call) (w : Link S)
      → 1 ≤ milliseconds l.window
      → 1 ≤ l.limit
      → laws.entry (counting_key l key) w.clock w.store ≡ none
      → count_where
          (is_grant (counting_key l) (counting_key l key) (w.clock + milliseconds l.window))
          (calls (counting_window_allow b l) cs w).0
        ≤ l.limit
  counting_window_at_most_limit l key cs w some_window k h =
      let c =
        cap_lem b laws (milliseconds l.window) l.limit (counting_key l) (counting_window_allow b l)
          (counting-Windows b laws l some_window k) (w.clock + milliseconds l.window) 0
          (counting_key l key) cs w (omega arith) (omega arith) (unused refl h) in
      omega (arith, c)
