-- ===== src/Ratelimit/Redis.antt =====
-- Redis as the limiters use it, a parameter of the model: its commands on a state `S`, at an instant
-- in milliseconds, and what its documentation says of them.
use poc_hydra_auth.Prelude.{
  ℕ, suc, ◌+◌, ◌-◌, ◌≤◌, String, ◌≡◌, Bool, false, Option, none, some, ℤ, pos, negsuc, ltb,
  if◌then◌else◌, is_none, str_eq,
}
use poc_hydra_auth.Errors.{service_error}
use poc_hydra_auth.Exec.{Exec, Result, ok, err}

pub record Redis (S : Type 0) : Type 0 where
  -- GET of a key that holds a number
  pub get : String → ℕ → S → Option ℕ
  -- PTTL: -2 without the key, -1 without an expiry
  pub pttl : String → ℕ → S → ℤ
  -- SET key '1' NX PX, with the milliseconds; true when it has created the key
  pub set_nx_px : String → ℕ → ℕ → S → Bool × S
  -- SET key '1' PX
  pub set_px : String → ℕ → ℕ → S → S
  -- INCR
  pub incr : String → ℕ → S → ℕ × S
  -- PEXPIRE
  pub pexpire : String → ℕ → ℕ → S → S
  -- DEL
  pub del : String → ℕ → S → S

pub record Entry : Type 0 where
  pub value : ℕ
  pub deadline : Option ℕ

abbrev pub is_past : ℕ → Option ℕ → Bool
is_past t none = false
is_past t (some d) = ltb d t

-- What is left of an entry at an instant.
abbrev pub alive : ℕ → Option Entry → Option Entry
alive t none = none
alive t (some e) = if is_past t e.deadline then none else some e

abbrev pub value_of : Option Entry → Option ℕ
value_of none = none
value_of (some e) = some e.value

abbrev left : ℕ → Option ℕ → ℤ
left t none = negsuc 0
left t (some d) = pos (d - t)

abbrev pub ttl_of : ℕ → Option Entry → ℤ
ttl_of t none = negsuc 1
ttl_of t (some e) = left t e.deadline

-- SET NX PX keeps an entry that is there.
abbrev pub created_entry : ℕ → Option Entry → Option Entry
created_entry d none = some (record { value = 1; deadline = some d })
created_entry d (some e) = some e

-- INCR keeps the expiry.
abbrev pub incremented : Option Entry → Entry
incremented none = record { value = 1; deadline = none }
incremented (some e) = record e { value = suc e.value }

abbrev pub expiring : ℕ → Option Entry → Option Entry
expiring d none = none
expiring d (some e) = some (record e { deadline = some d })

-- `entry` is what the commands see under a key. A command changes the entry of its key only, and an
-- entry is gone once its deadline is over, as PEXPIRE has it; at the deadline it is still there. The times to live are positive.
pub record IsRedis {S : Type 0} (redis : Redis S) : Type 0 where
  pub entry : String → ℕ → S → Option Entry
  pub aging : (key : String) (t t' : ℕ) (s : S) → t ≤ t' → entry key t' s ≡ alive t' (entry key t s)
  pub get_law : (key : String) (t : ℕ) (s : S) → redis.get key t s ≡ value_of (entry key t s)
  pub pttl_law : (key : String) (t : ℕ) (s : S) → redis.pttl key t s ≡ ttl_of t (entry key t s)
  pub set_nx_px_law :
      (key : String) (ms t : ℕ) (s : S)
      → 1 ≤ ms
      → ((redis.set_nx_px key ms t s).0 ≡ is_none (entry key t s))
        × (entry key t (redis.set_nx_px key ms t s).1 ≡ created_entry (t + ms) (entry key t s))
  pub set_px_law :
      (key : String) (ms t : ℕ) (s : S)
      → 1 ≤ ms
      → entry key t (redis.set_px key ms t s)
        ≡ some (record { value = 1; deadline = some (t + ms) })
  pub incr_law :
      (key : String) (t : ℕ) (s : S)
      → ((redis.incr key t s).0 ≡ (incremented (entry key t s)).value)
        × (entry key t (redis.incr key t s).1 ≡ some (incremented (entry key t s)))
  pub pexpire_law :
      (key : String) (ms t : ℕ) (s : S)
      → 1 ≤ ms
      → entry key t (redis.pexpire key ms t s) ≡ expiring (t + ms) (entry key t s)
  pub del_law : (key : String) (t : ℕ) (s : S) → entry key t (redis.del key t s) ≡ none
  pub set_nx_px_frame :
      (key other : String) (ms t : ℕ) (s : S)
      → str_eq key other ≡ false
      → entry other t (redis.set_nx_px key ms t s).1 ≡ entry other t s
  pub set_px_frame :
      (key other : String) (ms t : ℕ) (s : S)
      → str_eq key other ≡ false
      → entry other t (redis.set_px key ms t s) ≡ entry other t s
  pub incr_frame :
      (key other : String) (t : ℕ) (s : S)
      → str_eq key other ≡ false
      → entry other t (redis.incr key t s).1 ≡ entry other t s
  pub pexpire_frame :
      (key other : String) (ms t : ℕ) (s : S)
      → str_eq key other ≡ false
      → entry other t (redis.pexpire key ms t s) ≡ entry other t s
  pub del_frame :
      (key other : String) (t : ℕ) (s : S)
      → str_eq key other ≡ false
      → entry other t (redis.del key t s) ≡ entry other t s

-- What becomes of a call: Redis may not get it, or its answer may be lost after it has run.
pub data Net : Type 0 where
  delivered not_sent reply_lost : Net

-- `clock` is that of Redis, in milliseconds, and `now` that of the process, in nanoseconds.
pub record Link (S : Type 0) : Type 0 where
  pub store : S
  pub draws : ℕ
  pub clock : ℕ
  pub now : ℕ

pub record Backend (S : Type 0) : Type 0 where
  pub redis : Redis S
  pub net : ℕ → Net

abbrev pub answer : {A S : Type 0} → Net → A × S → Link S → Result A × Link S
answer delivered (a, s) w = (ok a, record w { store = s; draws = suc w.draws })
answer not_sent (a, s) w = (err service_error, record w { draws = suc w.draws })
answer reply_lost (a, s) w = (err service_error, record w { store = s; draws = suc w.draws })

-- A command or a script, which Redis runs with no other between its steps.
unfoldable pub call : {A S : Type 0} → Backend S → (ℕ → S → A × S) → Exec (Link S) A
call b f w = answer (b.net w.draws) (f w.clock w.store) w

-- time.Now
unfoldable pub link_now : {S : Type 0} → Exec (Link S) ℕ
link_now w = (ok w.now, w)
