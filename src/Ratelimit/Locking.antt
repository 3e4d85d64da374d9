-- ===== src/Ratelimit/Locking.antt =====
-- LockoutLimiter: what a failure does to the two entries of a key.
use poc_hydra_auth.Prelude.{
  ℕ, ◌+◌, ◌≤◌, ◌==◌, String, ◌≡◌, refl, ◌∙◌, ap, Bool, true, false, Option, some, parting_texts,
  str_eq, if◌then◌else◌, is_negative, arith, inl, inr, Bool-cases,
}
use poc_hydra_auth.Exec.{ok, ◌>>=◌, pure, wrapping}
use poc_hydra_auth.Ratelimit.Limiters.{milliseconds}
use poc_hydra_auth.Ratelimit.Lockout.{LockoutLimiter, count_key, lock_key, lockout_record_failure}
use poc_hydra_auth.Ratelimit.Redis.{
  Redis, IsRedis, Entry, Backend, Link, call, delivered, incremented, expiring, ttl_of,
}
use poc_hydra_auth.Ratelimit.Scripts.{lockout_failure_script, windowed, locking}

-- What a failure does to the count, `m` being the end of a window that starts now.
abbrev pub failed_entry : ℕ → ℕ → Option Entry → Entry
failed_entry t m e =
    let i = incremented e in
    if i.value == 1
    then record i { deadline = some m }
    else if is_negative (ttl_of t (some i))
    then record i { deadline = some m }
    else i

module _ {S : Type 0} (redis : Redis S) (laws : IsRedis redis) where
  windowed_lem :
      (key : String) (window t : ℕ) (s : S)
      → 1 ≤ window
      → let r = windowed redis key window t (redis.incr key t s) in
        let i = failed_entry t (t + window) (laws.entry key t s) in
        (r.0 ≡ i.value) × (laws.entry key t r.1 ≡ some i)
  windowed_lem key window t s some_window =
      let r = redis.incr key t s in
      let law = laws.incr_law key t s in
      let i = incremented (laws.entry key t s) in
      let healed =
        laws.pexpire_law key window t r.1 some_window ∙ ap (expiring (t + window)) law.1 in
      rw (law.0, laws.pttl_law key t r.1, law.1)
        (elim (Bool-cases (i.value == 1)) [
          | inl e ↦ rw e (refl, healed)
          | inr e ↦ elim (Bool-cases (is_negative (ttl_of t (some i)))) [
            | inl f ↦ rw (e, f) (refl, healed)
            | inr f ↦ rw (e, f) (refl, law.1)
          ]
        ])

  locking_lem :
      (lock_key : String) (threshold ttl t count : ℕ) (s : S)
      → 1 ≤ ttl
      → let r = locking redis lock_key threshold ttl t (count, s) in
        (r.0 ≡ (if count == threshold then 1 else 0))
        × (laws.entry lock_key t r.1 ≡ (
            if count == threshold
            then some (record { value = 1; deadline = some (t + ttl) })
            else laws.entry lock_key t s))
        × ((other : String)
            → str_eq lock_key other ≡ false
            → laws.entry other t r.1 ≡ laws.entry other t s)
  locking_lem lock_key threshold ttl t count s some_ttl = elim (Bool-cases (count == threshold)) [
    | inl e ↦ rw e (
      refl,
      laws.set_px_law lock_key ttl t s some_ttl,
      λ other h. laws.set_px_frame lock_key other ttl t s h,
    )
    | inr e ↦ rw e (refl, refl, λ other h. refl)
  ]

-- The two keys of a LockoutLimiter differ.
count_key_apart :
    (l : LockoutLimiter) (key : String) → str_eq (count_key l key) (lock_key l key) ≡ false
count_key_apart l key =
    parting_texts l.prefix "count:" "lock:" (l.hash key) (l.hash key) (omega arith) (omega arith)
      (omega arith)

lock_key_apart :
    (l : LockoutLimiter) (key : String) → str_eq (lock_key l key) (count_key l key) ≡ false
lock_key_apart l key =
    parting_texts l.prefix "lock:" "count:" (l.hash key) (l.hash key) (omega arith) (omega arith)
      (omega arith)

indicator_lem : (c : Bool) → ((if c then 1 else 0) == 1) ≡ c
indicator_lem true = refl
indicator_lem false = refl

module _ {S : Type 0} (redis : Redis S) (laws : IsRedis redis) (ck lk : String)
    (window threshold ttl t : ℕ) (s : S) (apart : str_eq ck lk ≡ false)
    (apart' : str_eq lk ck ≡ false) (some_window : 1 ≤ window) (some_ttl : 1 ≤ ttl) where
  windowed_frame :
      laws.entry lk t (windowed redis ck window t (redis.incr ck t s)).1 ≡ laws.entry lk t s
  windowed_frame =
      let law = laws.incr_frame ck lk t s apart in
      let law' = laws.pexpire_frame ck lk window t (redis.incr ck t s).1 apart ∙ law in
      let r = redis.incr ck t s in
      elim (Bool-cases (r.0 == 1)) [
        | inl e ↦ rw e law'
        | inr e ↦ elim (Bool-cases (is_negative (redis.pttl ck t r.1))) [
          | inl f ↦ rw (e, f) law'
          | inr f ↦ rw (e, f) law
        ]
      ]

  failure_script_lem :
      let r = lockout_failure_script redis ck lk window threshold ttl t s in
      let i = failed_entry t (t + window) (laws.entry ck t s) in
      (r.0 ≡ (if i.value == threshold then 1 else 0))
      × (laws.entry ck t r.1 ≡ some i)
      × (laws.entry lk t r.1 ≡ (
          if i.value == threshold
          then some (record { value = 1; deadline = some (t + ttl) })
          else laws.entry lk t s))
  unfolding lockout_failure_script
  failure_script_lem =
      let p = windowed redis ck window t (redis.incr ck t s) in
      let law = windowed_lem redis laws ck window t s some_window in
      let locks = locking_lem redis laws lk threshold ttl t p.0 p.1 some_ttl in
      (
        locks.0 ∙ ap (λ n. if n == threshold then 1 else 0) law.0,
        locks.2 ck apart' ∙ law.1,
        locks.1
            ∙ ap
                (λ n.
                  if n == threshold
                  then some (record { value = 1; deadline = some (t + ttl) })
                  else laws.entry lk t p.1)
                law.0
            ∙ ap
                (λ e.
                  if (failed_entry t (t + window) (laws.entry ck t s)).value == threshold
                  then some (record { value = 1; deadline = some (t + ttl) })
                  else e)
                windowed_frame,
      )

module _ {S : Type 0} (b : Backend S) (laws : IsRedis b.redis) (l : LockoutLimiter) (key : String)
    (some_window : 1 ≤ milliseconds l.window) (some_ttl : 1 ≤ milliseconds l.lock_ttl) where
  abbrev pub failed : Link S → Entry
  failed w =
      failed_entry w.clock (w.clock + milliseconds l.window)
        (laws.entry (count_key l key) w.clock w.store)

  pub record_failure_effect :
      (w : Link S)
      → b.net w.draws ≡ delivered
      → let r = lockout_record_failure b l key w in
        (r.0 ≡ ok ((failed w).value == l.threshold))
        × (laws.entry (count_key l key) w.clock r.1.store ≡ some (failed w))
        × (laws.entry (lock_key l key) w.clock r.1.store ≡ (
            if (failed w).value == l.threshold
            then some (record { value = 1; deadline = some (w.clock + milliseconds l.lock_ttl) })
            else laws.entry (lock_key l key) w.clock w.store))
        × (r.1.clock ≡ w.clock)
  unfolding lockout_record_failure lockout_failure_script ◌>>=◌ pure wrapping call
  record_failure_effect w h =
      let t = w.clock in
      let law =
        failure_script_lem b.redis laws (count_key l key) (lock_key l key) (milliseconds l.window)
          l.threshold (milliseconds l.lock_ttl) t w.store (count_key_apart l key)
          (lock_key_apart l key) some_window some_ttl in
      rw h (ap ok (ap (λ n. n == 1) law.0 ∙ indicator_lem _), law.1, law.2, refl)
