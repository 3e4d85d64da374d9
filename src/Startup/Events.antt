-- ===== src/Startup/Events.antt =====
-- What a start does, in order, the newest event first, and `defer`.
use poc_hydra_auth.Prelude.{String, Bool, not, List, ◌∷◌}
use poc_hydra_auth.Errors.{Err}
use poc_hydra_auth.Exec.{Exec, ok, guard}

pub data Event : Type 0 where
  -- handles
  opened_pool : String → Event
  opened_redis : String → Event
  opened_db opened_source opened_connection : Event
  closed_pool closed_redis closed_db closed_instance : Event
  -- the database
  created_schema : String → Event
  ran_migrations : Event
  -- the process; the last one is the call of Start with a port
  warned_of_weak_secret : Event
  logged_error : String → Event
  listening : String → Event

abbrev pub Start : Type 0 → Type 0
Start A = Exec (List Event) A

abbrev pub act : Event → Start (Unit {0})
act e t = (ok tt, e ∷ t)

-- `if err != nil { return err }`
abbrev pub need : Bool → Err → Start (Unit {0})
unfolding guard
need works e = guard (not works) e

-- `defer cleanup`, before the rest of a function
abbrev pub deferred : {A : Type 0} → Event → Start A → Start A
deferred cleanup rest t = let (r, t') = rest t in (r, cleanup ∷ t')
