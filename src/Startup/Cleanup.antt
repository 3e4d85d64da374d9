-- ===== src/Startup/Cleanup.antt =====
-- MigrateDatabaseUp: when it succeeds.
use poc_hydra_auth.Prelude.{String, ◌≡◌, refl, Bool, true, false, ◌&&◌, List, any}
use poc_hydra_auth.Exec.{Result, ok, err, ◌>>=◌, pure, raise, guard}
use poc_hydra_auth.Startup.Events.{Event, listening}
use poc_hydra_auth.Startup.Migrations.{
  UpResult, migrated, no_change, up_failed, MigrateCalls, up_result, migrate_database_up,
}

abbrev pub is_ok : {A : Type 0} → Result A → Bool
is_ok (ok a) = true
is_ok (err e) = false

abbrev pub is_listening : Event → Bool
is_listening (listening port) = true
is_listening _ = false

abbrev pub is_up : UpResult → Bool
is_up (up_failed some_run) = false
is_up _ = true

-- Every call that MigrateDatabaseUp makes returns without error.
abbrev pub all_succeed : MigrateCalls → Bool
all_succeed c =
    c.opens_source && (c.creates_schema && (c.opens_connection && (c.makes_instance && is_up c.up)))

-- A run of the migrations neither starts a server nor depends on what was done before it.
pub quiet_migrations :
    (name : String) (a b c d : Bool) (u : UpResult) (t : List Event)
    → any is_listening t ≡ false
    → let calls : MigrateCalls = record {
      opens_source = a;
      creates_schema = b;
      opens_connection = c;
      makes_instance = d;
      up = u;
    } in
      (is_ok (migrate_database_up name calls t).0 ≡ all_succeed calls)
      × (any is_listening (migrate_database_up name calls t).1 ≡ false)
unfolding migrate_database_up up_result ◌>>=◌ pure raise guard
quiet_migrations name false b c d u t h = (refl, h)
quiet_migrations name true false c d u t h = (refl, h)
quiet_migrations name true true false d u t h = (refl, h)
quiet_migrations name true true true false u t h = (refl, h)
quiet_migrations name true true true true migrated t h = (refl, h)
quiet_migrations name true true true true no_change t h = (refl, h)
quiet_migrations name true true true true (up_failed true) t h = (refl, h)
quiet_migrations name true true true true (up_failed false) t h = (refl, h)
