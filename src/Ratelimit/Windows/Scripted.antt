-- ===== src/Ratelimit/Windows/Scripted.antt =====
-- From a script to the limiter that runs it: over a network that may lose the question or the answer.
use poc_hydra_auth.Prelude.{
  ℕ, ◌+◌, ◌≤◌, String, ◌≡◌, refl, subst, true, false, Option, none, str_eq, if◌then◌else◌, ℤ, arith,
}
use poc_hydra_auth.Exec.{Exec, ◌>>=◌, pure, wrapping}
use poc_hydra_auth.Ratelimit.Redis.{
  Backend, IsRedis, Link, Entry, Net, delivered, not_sent, reply_lost, answer, call, link_now,
}
use poc_hydra_auth.Ratelimit.Limiters.{LimitResult}
use poc_hydra_auth.Ratelimit.Windows.{Used, unused, counted_until, Open, Windows, grant}

-- What `Windows` says, of the script alone; `result` is what the code makes of the script's answer.
pub record ScriptWindows {S : Type 0} (b : Backend S) (laws : IsRedis b.redis) (window limit : ℕ)
    (script : String → ℕ → S → (ℕ × ℤ) × S) (result : ℕ × ℤ → ℕ → LimitResult) : Type 0 where
  pub elsewhere :
      (key other : String) (t : ℕ) (s : S)
      → str_eq key other ≡ false
      → laws.entry other t (script key t s).1 ≡ laws.entry other t s
  pub counts :
      (key : String) (d n t now : ℕ) (s : S)
      → d ≤ t + window
      → n ≤ limit
      → Used d n (laws.entry key t s)
      → let g : ℕ = if (result (script key t s).0 now).allowed then 1 else 0 in
        Used d (n + g) (laws.entry key t (script key t s).1) × n + g ≤ limit
  pub stays_open :
      (key : String) (d t : ℕ) (s : S)
      → Open d (laws.entry key t s)
      → Open d (laws.entry key t (script key t s).1)
  pub admits :
      (key : String) (t now : ℕ) (s : S)
      → laws.entry key t s ≡ none
      → (result (script key t s).0 now).allowed ≡ true

Used-fewer : (d n g : ℕ) (e : Option Entry) → Used d (n + g) e → Used d n e
Used-fewer d n g e (unused p q) = unused (omega (arith, p)) q
Used-fewer d n g e (counted_until v d' p q r) = counted_until v d' p q (omega (arith, r))

module _ {S : Type 0} (b : Backend S) (laws : IsRedis b.redis) (window limit : ℕ)
    (redis_key : String → String) (script : String → ℕ → S → (ℕ × ℤ) × S)
    (result : ℕ × ℤ → ℕ → LimitResult) (message : String)
    (h : ScriptWindows b laws window limit script result) where
  unfoldable pub scripted : String → Exec (Link S) LimitResult
  unfolding ◌>>=◌ pure wrapping call link_now
  scripted key = do
    raw ← wrapping message (call b (script (redis_key key)))
    now ← link_now
    pure (result raw now)

  abbrev after_answer : Net → (ℕ × ℤ) × S → Exec (Link S) LimitResult
  unfolding ◌>>=◌ pure wrapping link_now
  after_answer net p = do
    raw ← wrapping message (answer net p)
    now ← link_now
    pure (result raw now)

  answer_clock_lem :
      (net : Net) (p : (ℕ × ℤ) × S) (w : Link S) → (after_answer net p w).1.clock ≡ w.clock
  unfolding after_answer
  answer_clock_lem delivered p w = refl
  answer_clock_lem not_sent p w = refl
  answer_clock_lem reply_lost p w = refl

  answer_elsewhere_lem :
      (other : String) (net : Net) (p : (ℕ × ℤ) × S) (w : Link S)
      → laws.entry other w.clock p.1 ≡ laws.entry other w.clock w.store
      → laws.entry other w.clock (after_answer net p w).1.store ≡ laws.entry other w.clock w.store
  unfolding after_answer
  answer_elsewhere_lem other delivered p w h = h
  answer_elsewhere_lem other not_sent p w h = refl
  answer_elsewhere_lem other reply_lost p w h = h

  answer_counts_lem :
      (key : String) (d n : ℕ) (net : Net) (p : (ℕ × ℤ) × S) (w : Link S)
      → n ≤ limit
      → Used d n (laws.entry key w.clock w.store)
      → (Used d (n + (if (result p.0 w.now).allowed then 1 else 0)) (laws.entry key w.clock p.1)
          × n + (if (result p.0 w.now).allowed then 1 else 0) ≤ limit)
      → Used d
          (n + grant (after_answer net p w).0)
          (laws.entry key w.clock (after_answer net p w).1.store)
        × n + grant (after_answer net p w).0 ≤ limit
  unfolding after_answer
  answer_counts_lem key d n delivered p w k u h = h
  answer_counts_lem key d n not_sent p w k u h =
      (subst (λ m. Used d m (laws.entry key w.clock w.store)) (omega arith) u, omega (arith, k))
  answer_counts_lem key d n reply_lost p w k u h = (
    subst (λ m. Used d m (laws.entry key w.clock p.1)) (omega arith) (Used-fewer d n _ _ h.0),
    omega (arith, k),
  )

  answer_open_lem :
      (key : String) (d : ℕ) (net : Net) (p : (ℕ × ℤ) × S) (w : Link S)
      → Open d (laws.entry key w.clock w.store)
      → Open d (laws.entry key w.clock p.1)
      → Open d (laws.entry key w.clock (after_answer net p w).1.store)
  unfolding after_answer
  answer_open_lem key d delivered p w o h = h
  answer_open_lem key d not_sent p w o h = o
  answer_open_lem key d reply_lost p w o h = h

  pub scripted_lem : Windows b laws window limit redis_key scripted
  unfolding scripted after_answer ◌>>=◌ pure wrapping call link_now
  scripted_lem = record {
    same_clock = λ key w. answer_clock_lem (b.net w.draws) _ w;
    elsewhere = λ key other w e.
        answer_elsewhere_lem other (b.net w.draws) _ w
          (h.elsewhere (redis_key key) other w.clock w.store e);
    counts = λ key d n w k m u.
        answer_counts_lem (redis_key key) d n (b.net w.draws) _ w m u
          (h.counts (redis_key key) d n w.clock w.now w.store k m u);
    stays_open = λ key d w o.
        answer_open_lem (redis_key key) d (b.net w.draws) _ w o
          (h.stays_open (redis_key key) d w.clock w.store o);
    admits = λ key w e k. rw e (h.admits (redis_key key) w.clock w.now w.store k);
  }
