-- ===== src/Ratelimit/Windows/Counting.antt =====
-- The script of CountingWindowLimiter: a window holds `limit` grants.
use poc_hydra_auth.Prelude.{
  ℕ, ◌+◌, ◌≤◌, ◌==◌, String, ◌≡◌, refl, sym, subst, ◌∙◌, ap, Bool, true, false, Option, ltb, inl,
  inr, Bool-cases, is_negative, str_eq, if◌then◌else◌,
}
use poc_hydra_auth.Ratelimit.Redis.{
  Backend, Redis, IsRedis, Entry, incremented, expiring, ttl_of, value_of,
}
use poc_hydra_auth.Ratelimit.Scripts.{counting_window_script, counted, healed, or_zero}
use poc_hydra_auth.Ratelimit.Limiters.{
  counting_result, milliseconds, CountingWindowLimiter, counting_key, counting_window_allow,
}
use poc_hydra_auth.Ratelimit.Windows.{Used, Open, Windows}
use poc_hydra_auth.Ratelimit.Windows.Scripted.{ScriptWindows, scripted, scripted_lem}
use poc_hydra_auth.Ratelimit.Windows.Entries.{
  counted_entry, healed_entry, counts_lem, open_lem, granted_lem, admits_lem,
}

module _ {S : Type 0} (redis : Redis S) (laws : IsRedis redis) where
  counted_lem :
      (key : String) (window limit t : ℕ) (s : S)
      → 1 ≤ window
      → let r = counted redis key window limit t s in
        let spec = counted_entry limit (t + window) (laws.entry key t s) in
        (r.0 ≡ spec.0) × (laws.entry key t r.1 ≡ spec.1)
  counted_lem key window limit t s some_window =
      let law = laws.incr_law key t s in
      let law' = laws.pexpire_law key window t (redis.incr key t s).1 some_window in
      rw (laws.get_law key t s, law.0)
        (elim (Bool-cases (ltb (or_zero (value_of (laws.entry key t s))) limit)) [
          | inl e ↦ rw e (
            refl,
            elim (Bool-cases ((incremented (laws.entry key t s)).value == 1)) [
              | inl f ↦ rw f (law' ∙ ap (expiring (t + window)) law.1)
              | inr f ↦ rw f law.1
            ],
          )
          | inr e ↦ rw e (refl, refl)
        ])

  healed_lem :
      (key : String) (window t count : ℕ) (s : S)
      → 1 ≤ window
      → let r = healed redis key window t (count, s) in
        (r.0.0 ≡ count) × (laws.entry key t r.1 ≡ healed_entry t (t + window) (laws.entry key t s))
  healed_lem key window t count s some_window =
      rw (laws.pttl_law key t s) (elim (Bool-cases (is_negative (ttl_of t (laws.entry key t s)))) [
        | inl e ↦ rw e (refl, laws.pexpire_law key window t s some_window)
        | inr e ↦ rw e (refl, refl)
      ])

  script_lem :
      (key : String) (window limit t : ℕ) (s : S)
      → 1 ≤ window
      → let r = counting_window_script redis key window limit t s in
        (r.0.0 ≡ (counted_entry limit (t + window) (laws.entry key t s)).0)
        × (laws.entry key t r.1
            ≡ healed_entry t (t + window) (counted_entry limit (t + window) (laws.entry key t s)).1)
  unfolding counting_window_script
  script_lem key window limit t s some_window =
      let c = counted redis key window limit t s in
      let law = counted_lem key window limit t s some_window in
      let law' = healed_lem key window t c.0 c.1 some_window in
      (law'.0 ∙ law.0, law'.1 ∙ ap (healed_entry t (t + window)) law.1)

frame_if :
    {A S : Type 0} (view : S → Option Entry) (c : Bool) (x y : A × S) (e : Option Entry)
    → view x.1 ≡ e
    → view y.1 ≡ e
    → view (if c then x else y).1 ≡ e
frame_if view true x y e h k = h
frame_if view false x y e h k = k

frame_if_state :
    {S : Type 0} (view : S → Option Entry) (c : Bool) (x y : S) (e : Option Entry)
    → view x ≡ e
    → view y ≡ e
    → view (if c then x else y) ≡ e
frame_if_state view true x y e h k = h
frame_if_state view false x y e h k = k

module _ {S : Type 0} (redis : Redis S) (laws : IsRedis redis) (key other : String) (t : ℕ)
    (apart : str_eq key other ≡ false) where
  counted_frame :
      (window limit : ℕ) (s : S)
      → laws.entry other t (counted redis key window limit t s).1 ≡ laws.entry other t s
  counted_frame window limit s =
      let s' = (redis.incr key t s).1 in
      let law = laws.incr_frame key other t s apart in
      frame_if (laws.entry other t) _ _ _ _
        (frame_if_state (laws.entry other t) _ _ _ _
          (laws.pexpire_frame key other window t s' apart ∙ law) law)
        refl

  healed_frame :
      (window : ℕ) (p : ℕ × S)
      → laws.entry other t (healed redis key window t p).1 ≡ laws.entry other t p.1
  healed_frame window p =
      frame_if (laws.entry other t) _ _ _ _ (laws.pexpire_frame key other window t p.1 apart) refl

module _ {S : Type 0} (b : Backend S) (laws : IsRedis b.redis) (window limit : ℕ)
    (some_window : 1 ≤ window) (some_limit : 1 ≤ limit) where
  counting_script_lem :
      ScriptWindows b laws window limit
        (λ key. counting_window_script b.redis key window limit)
        (counting_result limit)
  unfolding counting_window_script
  counting_script_lem = record {
    elsewhere = λ key other t s e.
        healed_frame b.redis laws key other t e window (counted b.redis key window limit t s)
        ∙ counted_frame b.redis laws key other t e window limit s;
    counts = λ key d n t now s h k u.
        let law = script_lem b.redis laws key window limit t s some_window in
        let (p, q) = counts_lem limit t (t + window) d n (laws.entry key t s) h k u in
        let r = counting_window_script b.redis key window limit t s in
        let g = granted_lem limit r.0.0 now r.0.1 ∙ ap (λ c. if ltb limit c then 0 else 1) law.0 in
        subst (λ x. Used d (n + x) (laws.entry key t r.1) × n + x ≤ limit) (sym g)
          (subst (Used d _) (sym law.1) p, q);
    stays_open = λ key d t s o.
        subst (Open d) (sym (script_lem b.redis laws key window limit t s some_window).1)
          (open_lem limit t (t + window) d (laws.entry key t s) o);
    admits = λ key t now s e.
        let law = script_lem b.redis laws key window limit t s some_window in
        let r = counting_window_script b.redis key window limit t s in
        subst (λ c. (counting_result limit (c, r.0.1) now).allowed ≡ true)
          (sym (law.0 ∙ ap (λ x. (counted_entry limit (t + window) x).0) e))
          (admits_lem limit t (t + window) now r.0.1 some_limit);
  }

module _ {S : Type 0} (b : Backend S) (laws : IsRedis b.redis) (l : CountingWindowLimiter)
    (some_window : 1 ≤ milliseconds l.window) (some_limit : 1 ≤ l.limit) where
  pub counting-Windows :
      Windows b laws (milliseconds l.window) l.limit (counting_key l) (counting_window_allow b l)
  unfolding counting_window_allow scripted
  counting-Windows =
      scripted_lem b laws (milliseconds l.window) l.limit (counting_key l)
        (λ key. counting_window_script b.redis key (milliseconds l.window) l.limit)
        (counting_result l.limit) "could not evaluate rate limit script"
        (counting_script_lem b laws (milliseconds l.window) l.limit some_window some_limit)
