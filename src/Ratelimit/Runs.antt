-- ===== src/Ratelimit/Runs.antt =====
-- Sequences of calls of a limiter, at instants that do not go back.
use poc_hydra_auth.Prelude.{ℕ, ◌+◌, String, Bool, false, ◌&&◌, List, [], ◌∷◌, ltb, str_eq}
use poc_hydra_auth.Exec.{Exec, Result, ok, err}
use poc_hydra_auth.Ratelimit.Redis.{Link}
use poc_hydra_auth.Ratelimit.Limiters.{LimitResult}

-- How long after the last call it comes, by the clock of Redis, what the process's clock shows then,
-- and the key.
pub record Call : Type 0 where
  pub wait : ℕ
  pub now : ℕ
  pub key : String

pub record Reply : Type 0 where
  pub clock : ℕ
  pub key : String
  pub result : Result LimitResult

abbrev pub waited : {S : Type 0} → Call → Link S → Link S
waited c w = record w { clock = w.clock + c.wait; now = c.now }

abbrev pub is_allowed : Result LimitResult → Bool
is_allowed (ok r) = r.allowed
is_allowed (err e) = false

abbrev pub replied :
    {S : Type 0}
    → ℕ
    → String
    → Result LimitResult × Link S
    → List Reply × Link S
    → List Reply × Link S
replied clock key (r, w) (rest, w') = (record { clock = clock; key = key; result = r } ∷ rest, w')

-- The replies in their order, and where they leave the world.
abbrev pub calls :
    {S : Type 0} → (String → Exec (Link S) LimitResult) → List Call → Link S → List Reply × Link S
calls allow [] w = ([], w)
calls allow (c ∷ cs) w =
    let r = allow c.key (waited c w) in replied (w.clock + c.wait) c.key r (calls allow cs r.1)

-- A grant of the key's window before the instant `d`.
abbrev pub is_grant : (String → String) → String → ℕ → Reply → Bool
is_grant redis_key at d x = str_eq (redis_key x.key) at && (is_allowed x.result && ltb x.clock d)
