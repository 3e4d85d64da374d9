-- ===== src/Startup/Service.antt =====
-- main of backend/cmd/auth/main.go, with BuildAuth, build and Run of backend/svc.go. What the
-- environment, PostgreSQL, Redis and the server do are parameters. os.Exit runs nothing that was
-- deferred. The graceful shutdown ends in http.ErrServerClosed, one of the outcomes of Start.
use poc_hydra_auth.Prelude.{String, str_eq, Bool, true, false, if◌then◌else◌, List, [], ◌∷◌}
use poc_hydra_auth.Exec.{Result, ok, err}
use poc_hydra_auth.Ratelimit.Settings.{resolve_hmac_secret}
use poc_hydra_auth.Startup.Events.{
  Event, opened_pool, opened_redis, closed_pool, closed_redis, warned_of_weak_secret, logged_error,
  listening,
}
use poc_hydra_auth.Startup.Migrations.{MigrateCalls, migrate_database_up}
use poc_hydra_auth.Startup.Key.{KeyLibrary, load_jwt_signing_key}

-- What e.Start returns once it listens: http.ErrServerClosed, or another error; or it cannot listen.
pub data StartResult : Type 0 where
  server_closed start_failed : StartResult

pub record Machine (Key : Type 0) : Type 0 where
  pub getenv : String → String
  -- NewPgxPool: pgxpool.New and Ping
  pub connects : String → Bool
  pub redis_answers : String → Bool
  pub keys : KeyLibrary Key
  pub calls : MigrateCalls
  pub start : String → StartResult

pub data Exit : Type 0 where
  returned exited_1 : Exit

-- A variable of the environment, with what stands for an empty one.
abbrev pub env_or : String → String → String
env_or value fallback = if str_eq value "" then fallback else value

-- logger.ErrorContext and os.Exit(1)
abbrev pub fatal : String → List Event → Exit × List Event
fatal message t = (exited_1, logged_error message ∷ t)

module _ {Key : Type 0} (m : Machine Key) where
  -- backend.Run, and the deferred calls when it returns without error.
  unfoldable pub run_server : String → StartResult → List Event → Exit × List Event
  run_server port server_closed t = (returned, closed_pool ∷ closed_redis ∷ listening port ∷ t)
  run_server port start_failed t = fatal "server stopped" (listening port ∷ t)

  -- From BuildAuth on: the module's Init is the run of the migrations.
  unfoldable pub after_build : Result (Unit {0}) → List Event → Exit × List Event
  unfolding run_server
  after_build (err e) t = fatal "failed to build service" t
  after_build (ok a) t =
      let port = env_or (m.getenv "AUTH_PORT") "8081" in run_server port (m.start port) t

  unfoldable pub with_key : Result Key → List Event → Exit × List Event
  unfolding after_build
  with_key (err e) t = fatal "failed to load JWT signing key" t
  with_key (ok key) t = let (r, t') = migrate_database_up "auth" m.calls t in after_build r t'

  abbrev pub warned : Bool → List Event → List Event
  warned true t = warned_of_weak_secret ∷ t
  warned false t = t

  -- From redis.NewClient on, whether it answers the ping.
  unfoldable pub with_redis_client : Bool → List Event → Exit × List Event
  unfolding with_key resolve_hmac_secret
  with_redis_client false t = fatal "failed to connect redis" t
  with_redis_client true t =
      let (secret, weak) = resolve_hmac_secret (m.getenv "RATELIMIT_HMAC_SECRET") in
      with_key (load_jwt_signing_key m.keys (m.getenv "JWT_PRIVATE_KEY_PATH")) (warned weak t)

  unfoldable pub with_pool : Bool → String → Exit × List Event
  unfolding with_redis_client
  with_pool false dsn = fatal "failed to connect database" []
  with_pool true dsn =
      let addr = env_or (m.getenv "REDIS_ADDR") "redis:6379" in
      with_redis_client (m.redis_answers addr) (opened_redis addr ∷ opened_pool dsn ∷ [])

  -- main
  unfoldable pub auth_main : Exit × List Event
  unfolding with_pool
  auth_main =
      let dsn = m.getenv "POSTGRES_URL" in
      if str_eq dsn "" then fatal "POSTGRES_URL is not set" [] else with_pool (m.connects dsn) dsn
