-- ===== src/Ratelimit/Windows/Fixed.antt =====
-- The script of FixedWindowLimiter: a window holds one grant.
use poc_hydra_auth.Prelude.{
  ℕ, ℤ, ◌+◌, ◌≤◌, ◌≡◌, refl, sym, subst, ◌∙◌, ap, Bool, true, false, Option, none, some,
  if◌then◌else◌, is_none, arith,
}
use poc_hydra_auth.Ratelimit.Redis.{Backend, IsRedis, Entry, created_entry}
use poc_hydra_auth.Ratelimit.Scripts.{fixed_window_script}
use poc_hydra_auth.Ratelimit.Limiters.{
  fixed_result, milliseconds, FixedWindowLimiter, fixed_key, fixed_window_allow,
}
use poc_hydra_auth.Ratelimit.Windows.{Used, unused, counted_until, Open, open_until, Windows}
use poc_hydra_auth.Ratelimit.Windows.Scripted.{ScriptWindows, scripted, scripted_lem}

-- The answer as the code reads it.
pub allowed_lem :
    (created : Bool) (z : ℤ) (now : ℕ)
    → (fixed_result (if created then 1 else 0, z) now).allowed ≡ created
allowed_lem true z now = refl
allowed_lem false z now = refl

none_lem : (d n : ℕ) (e : Option Entry) → e ≡ none → Used d n e → n ≡ 0
none_lem d n e h (unused p q) = p
none_lem d n e h (counted_until v d' p q r) = cc (h, p)

created_counts_lem :
    (d n m : ℕ) (e : Option Entry)
    → d ≤ m
    → n ≤ 1
    → Used d n e
    → Used d (n + (if is_none e then 1 else 0)) (created_entry m e)
      × n + (if is_none e then 1 else 0) ≤ 1
created_counts_lem d n m none k h u = (
  counted_until 1 m refl k (omega (arith, none_lem d n none refl u)),
  omega (arith, none_lem d n none refl u),
)
created_counts_lem d n m (some e) k h u =
    (subst (λ g. Used d g (some e)) (omega arith) u, omega (arith, h))

created_open_lem : (d m : ℕ) (e : Option Entry) → Open d e → Open d (created_entry m e)
created_open_lem d m none (open_until v k p) = cc p
created_open_lem d m (some e) o = o

module _ {S : Type 0} (b : Backend S) (laws : IsRedis b.redis) (window : ℕ)
    (some_window : 1 ≤ window) where
  fixed_script_lem :
      ScriptWindows b laws window 1 (λ key. fixed_window_script b.redis key window) fixed_result
  unfolding fixed_window_script
  fixed_script_lem = record {
    elsewhere = λ key other t s e. laws.set_nx_px_frame key other window t s e;
    counts = λ key d n t now s k h u.
        let law = laws.set_nx_px_law key window t s some_window in
        let counts = created_counts_lem d n (t + window) (laws.entry key t s) k h u in
        subst
          (λ x.
            Used d (n + (if x then 1 else 0))
              (laws.entry key t (b.redis.set_nx_px key window t s).1)
            × n + (if x then 1 else 0) ≤ 1)
          (sym (allowed_lem _ (fixed_window_script b.redis key window t s).0.1 now ∙ law.0))
          (
            subst (Used d (n + (if is_none (laws.entry key t s) then 1 else 0))) (sym law.1)
                counts.0,
            counts.1,
          );
    stays_open = λ key d t s o.
        subst (Open d) (sym (laws.set_nx_px_law key window t s some_window).1)
          (created_open_lem d (t + window) (laws.entry key t s) o);
    admits = λ key t now s e.
        allowed_lem _ (fixed_window_script b.redis key window t s).0.1 now
        ∙ (laws.set_nx_px_law key window t s some_window).0
        ∙ ap is_none e;
  }

module _ {S : Type 0} (b : Backend S) (laws : IsRedis b.redis) (l : FixedWindowLimiter)
    (some_window : 1 ≤ milliseconds l.window) where
  pub fixed-Windows :
      Windows b laws (milliseconds l.window) 1 (fixed_key l) (fixed_window_allow b l)
  unfolding fixed_window_allow scripted
  fixed-Windows =
      scripted_lem b laws (milliseconds l.window) 1 (fixed_key l)
        (λ key. fixed_window_script b.redis key (milliseconds l.window)) fixed_result
        "could not evaluate rate limit script"
        (fixed_script_lem b laws (milliseconds l.window) some_window)
