-- ===== src/Startup/Migrations.antt =====
-- MigrateDatabaseUp of backend/common/migrations.go. What the packages for migrations do is a
-- parameter: which of the calls fail. A failure to close is only logged, and the goroutine that
-- stops the migrations when the process is interrupted is not modelled.
use poc_hydra_auth.Prelude.{String, join, Bool, true, false}
use poc_hydra_auth.Errors.{service_error, wrapped}
use poc_hydra_auth.Exec.{◌>>◌, pure, raise, guard}
use poc_hydra_auth.Startup.Events.{
  Start, act, need, deferred, opened_db, opened_source, opened_connection, closed_db,
  closed_instance, created_schema, ran_migrations,
}

-- What m.Up returns: nil, migrate.ErrNoChange, or another error, which may come at a later migration
-- than the first.
pub data UpResult : Type 0 where
  migrated no_change : UpResult
  up_failed : (some_run : Bool) → UpResult

pub record MigrateCalls : Type 0 where
  pub opens_source : Bool
  pub creates_schema : Bool
  pub opens_connection : Bool
  pub makes_instance : Bool
  pub up : UpResult

unfoldable pub up_result : UpResult → Start (Unit {0})
up_result migrated = act ran_migrations
up_result no_change = pure tt
up_result (up_failed true) = do
  act ran_migrations
  raise (wrapped "migration up failed" service_error)
up_result (up_failed false) = raise (wrapped "migration up failed" service_error)

unfoldable pub migrate_database_up : String → MigrateCalls → Start (Unit {0})
unfolding up_result guard
migrate_database_up module_name calls = do
  act opened_db
  deferred closed_db (do
    need calls.opens_source (wrapped "could not create iofs driver" service_error)
    act opened_source
    need calls.creates_schema (wrapped (join "could not create schema " module_name) service_error)
    act (created_schema module_name)
    need calls.opens_connection
        (wrapped "could not connect to pgx migrations database" service_error)
    act opened_connection
    need calls.makes_instance (wrapped "could not create migrate instance" service_error)
    deferred closed_instance (up_result calls.up))
