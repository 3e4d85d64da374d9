-- ===== src/Ratelimit/Lasting.antt =====
-- LockoutLimiter over time: the failures that lock a key, and how long it stays locked.
use poc_hydra_auth.Prelude.{
  ◌⊎◌, ℤ, ℕ, zero, suc, ◌+◌, ◌-◌, ◌≤◌, ◌<◌, ◌*◌, ◌==◌, String, ◌≡◌, refl, sym, subst, ◌∙◌, ap, Bool,
  true, false, Option, none, some, List, [], ◌∷◌, length, ltb, if◌then◌else◌, arith, inl, inr,
  Bool-cases, pos, negsuc,
}
use poc_hydra_auth.Exec.{Result, ok, ◌>>=◌, pure, wrapping}
use poc_hydra_auth.Ratelimit.Redis.{IsRedis, Entry, Backend, Link, call, delivered, alive, ttl_of}
use poc_hydra_auth.Ratelimit.Limiters.{milliseconds, millisecond}
use poc_hydra_auth.Ratelimit.Lockout.{
  LockoutLimiter, unlocked, count_key, lock_key, lockout_record_failure, lockout_check,
  lockout_status,
}
use poc_hydra_auth.Ratelimit.Locking.{failed_entry, failed, record_failure_effect}

abbrev pub later : {S : Type 0} → ℕ → Link S → Link S
later d w = record w { clock = w.clock + d }

-- Failures one after another, each the given time after the one before.
abbrev pub failures :
    {S : Type 0}
    → Backend S
    → LockoutLimiter
    → String
    → List ℕ
    → Link S
    → List (Result Bool) × Link S
failures b l key [] w = let r = lockout_record_failure b l key w in (r.0 ∷ [], r.1)
failures b l key (d ∷ ds) w =
    let r = lockout_record_failure b l key w in
    let rest = failures b l key ds (later d r.1) in (r.0 ∷ rest.0, rest.1)

abbrev pub total : List ℕ → ℕ
total [] = 0
total (d ∷ ds) = d + total ds

-- An answer `false` for each time in the list, then `true`.
abbrev pub locked_last : List ℕ → List (Result Bool)
locked_last [] = ok true ∷ []
locked_last (d ∷ ds) = ok false ∷ locked_last ds

-- `n` failures are counted until `d`; a first one at `t` opens a window that ends at `d`.
pub data Failed (n d t window : ℕ) : Option Entry → Type 0 where
  not_yet : {e : Option Entry} → n ≡ 0 → d ≡ t + window → e ≡ none → Failed n d t window e
  before :
      {e : Option Entry}
      → 1 ≤ n
      → e ≡ some (record { value = n; deadline = some d })
      → Failed n d t window e

pub hit_lem : (a b : ℕ) → a ≡ b → (a == b) ≡ true
hit_lem a b h = ground (arith, h)

pub miss_lem : (a b : ℕ) → a < b → (a == b) ≡ false
miss_lem a b h = ground (arith, h)

next_lem :
    (n d t m : ℕ)
    → 1 ≤ n
    → failed_entry t m (some (record { value = n; deadline = some d }))
      ≡ record { value = suc n; deadline = some d }
next_lem n d t m h = ground (arith, h)

pub next_failure :
    (n d t window : ℕ) (e : Option Entry)
    → Failed n d t window e
    → failed_entry t (t + window) e ≡ record { value = suc n; deadline = some d }
next_failure n d t window e (not_yet p q r) =
    subst (λ x. failed_entry t (t + window) x ≡ record { value = suc n; deadline = some d }) (sym r)
      (rw (p, q) refl)
next_failure n d t window e (before p q) =
    subst (λ x. failed_entry t (t + window) x ≡ record { value = suc n; deadline = some d }) (sym q)
      (next_lem n d t (t + window) p)

pub alive_lem :
    (t d v : ℕ)
    → t < d
    → alive t (some (record { value = v; deadline = some d }))
      ≡ some (record { value = v; deadline = some d })
alive_lem t d v h = ground arith

-- At its deadline an entry has no time left, and later it is gone.
over_lem :
    (t d v : ℕ)
    → d ≤ t
    → let z = ttl_of t (alive t (some (record { value = v; deadline = some d }))) in
      (z ≡ pos 0) ⊎ (z ≡ negsuc 1)
over_lem t d v h = elim (Bool-cases (ltb d t)) [
  | inl e ↦ inr (rw e refl)
  | inr e ↦ inl (rw e (ap pos (ground (arith, e))))
]

module _ {S : Type 0} (b : Backend S) (laws : IsRedis b.redis) (l : LockoutLimiter) (key : String)
    (some_window : 1 ≤ milliseconds l.window) (some_ttl : 1 ≤ milliseconds l.lock_ttl)
    (up : (n : ℕ) → b.net n ≡ delivered) where
  failures_lem :
      (n d : ℕ) (ds : List ℕ) (w : Link S)
      → Failed n d w.clock (milliseconds l.window) (laws.entry (count_key l key) w.clock w.store)
      → w.clock + total ds < d
      → suc (n + length ds) ≡ l.threshold
      → let r = failures b l key ds w in
        (r.0 ≡ locked_last ds)
        × (laws.entry (lock_key l key) r.1.clock r.1.store
            ≡ some (record { value = 1; deadline = some (r.1.clock + milliseconds l.lock_ttl) }))
  failures_lem n d [] w f h k =
      let effect = record_failure_effect b laws l key some_window some_ttl w (up w.draws) in
      let next = next_failure n d w.clock (milliseconds l.window) _ f in
      let r = lockout_record_failure b l key w in
      let hit =
        hit_lem (failed b laws l key some_window some_ttl w).value l.threshold
          (ap (λ e. e.value) next ∙ omega (arith, k)) in
      (
        ap (λ x. x ∷ []) (effect.0 ∙ ap ok hit),
        subst
            (λ t.
              laws.entry (lock_key l key) t r.1.store
              ≡ some (record { value = 1; deadline = some (t + milliseconds l.lock_ttl) }))
            (sym effect.3)
            (effect.2
              ∙ ap
                  (λ c.
                    if c
                    then some
                        (record { value = 1; deadline = some (w.clock + milliseconds l.lock_ttl) })
                    else laws.entry (lock_key l key) w.clock w.store)
                  hit),
      )
  failures_lem n d (x ∷ ds) w f h k =
      let effect = record_failure_effect b laws l key some_window some_ttl w (up w.draws) in
      let next = next_failure n d w.clock (milliseconds l.window) _ f in
      let r = lockout_record_failure b l key w in
      let miss =
        miss_lem (failed b laws l key some_window some_ttl w).value l.threshold
          (omega (arith, ap (λ e. e.value) next, k)) in
      let counted =
        subst
          (λ t.
            laws.entry (count_key l key) t r.1.store
            ≡ some (record { value = suc n; deadline = some d }))
          (sym effect.3) (effect.1 ∙ ap some next) in
      let still =
        laws.aging (count_key l key) r.1.clock (r.1.clock + x) r.1.store (omega arith)
        ∙ ap (alive (r.1.clock + x)) counted
        ∙ alive_lem (r.1.clock + x) d (suc n) (omega (arith, h, effect.3)) in
      let ih =
        failures_lem (suc n) d ds (later x r.1) (before (omega arith) still)
          (omega (arith, h, effect.3)) (omega (arith, k)) in
      (
        ap (λ a. a ∷ (failures b l key ds (later x r.1)).0) (effect.0 ∙ ap ok miss)
            ∙ ap (λ a. ok false ∷ a) ih.0,
        ih.1,
      )

  -- What Check answers when Redis does, by what is left of the lock.
  pub check_lem :
      (w : Link S)
      → lockout_check b l key w
        ≡ lockout_status b l key
            (ttl_of w.clock (laws.entry (lock_key l key) w.clock w.store))
            (record w { draws = suc w.draws })
  unfolding lockout_check ◌>>=◌ pure wrapping call
  check_lem w = rw (up w.draws, sym (laws.pttl_law (lock_key l key) w.clock w.store)) refl

  pub positive_lem :
      (n : ℕ) (w : Link S)
      → 1 ≤ n
      → (lockout_status b l key (pos n) w).0
        ≡ ok (record { locked = true; retry_after = n * millisecond })
  unfolding lockout_status pure
  positive_lem zero w h = let f : ⊥ = omega (arith, h) in elim f [ ]
  positive_lem (suc n) w h = refl

  pub missing_lem : (w : Link S) → (lockout_status b l key (negsuc 1) w).0 ≡ ok unlocked
  unfolding lockout_status pure
  missing_lem w = refl

  expired_lem :
      (z : ℤ) (w : Link S)
      → (z ≡ pos 0) ⊎ (z ≡ negsuc 1)
      → (lockout_status b l key z w).0 ≡ ok unlocked
  unfolding lockout_status pure
  expired_lem z w (inl e) = ap (λ x. (lockout_status b l key x w).0) e
  expired_lem z w (inr e) = ap (λ x. (lockout_status b l key x w).0) e ∙ missing_lem w

  -- With Redis as documented and answering every call, and a window and a `lock_ttl` of a
  -- millisecond at least: when a key has no count of failures, as many
  -- failures as the threshold, the first of them less than the window before the last, answer
  -- `false`, all but the last, which answers `true`; from then on Check finds the key locked for
  -- `lock_ttl`, to the millisecond, with the time that is left, and not locked afterwards.
  pub lockout_locks :
      (ds : List ℕ) (wait : ℕ) (w : Link S)
      → laws.entry (count_key l key) w.clock w.store ≡ none
      → suc (length ds) ≡ l.threshold
      → total ds < milliseconds l.window
      → let r = failures b l key ds w in
        (r.0 ≡ locked_last ds)
        × ((lockout_check b l key (later wait r.1)).0
            ≡ ok (
                if ltb wait (milliseconds l.lock_ttl)
                then record {
                  locked = true;
                  retry_after = (milliseconds l.lock_ttl - wait) * millisecond;
                }
                else unlocked))
  lockout_locks ds wait w h k m =
      let v = (failures b l key ds w).1 in
      let ttl = milliseconds l.lock_ttl in
      let locks =
        failures_lem 0 (w.clock + milliseconds l.window) ds w (not_yet refl refl h)
          (omega (arith, m)) (omega (arith, k)) in
      let aged =
        laws.aging (lock_key l key) v.clock (v.clock + wait) v.store (omega arith)
        ∙ ap (alive (v.clock + wait)) locks.1 in
      let answer = ap (λ x. x.0) (check_lem (later wait v)) in
      let u : Link S = record (later wait v) { draws = suc v.draws } in
      (
        locks.0,
        elim (Bool-cases (ltb wait ttl)) [
          | inl e ↦
              let left = aged ∙ alive_lem (v.clock + wait) (v.clock + ttl) 1 (ground (arith, e)) in
              answer
              ∙ ap (λ x. (lockout_status b l key (ttl_of (v.clock + wait) x) u).0) left
              ∙ positive_lem (v.clock + ttl - (v.clock + wait)) u (ground (arith, e))
              ∙ rw e (
                  ap (λ n. ok (record { locked = true; retry_after = n * millisecond }))
                    (omega arith))
          | inr e ↦
              answer
              ∙ ap (λ x. (lockout_status b l key (ttl_of (v.clock + wait) x) u).0) aged
              ∙ expired_lem _ u (over_lem (v.clock + wait) (v.clock + ttl) 1 (ground (arith, e)))
              ∙ rw e refl
        ],
      )
