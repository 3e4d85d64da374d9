-- ===== src/Startup/Ready.antt =====
-- When the authentication service starts to serve (main of backend/cmd/auth/main.go).
use poc_hydra_auth.Prelude.{
  String, str_eq, ◌≡◌, refl, ap, ◌∙◌, Bool, true, false, not, ◌&&◌, List, any, inl, inr, Bool-cases,
}
use poc_hydra_auth.Exec.{Result, ok, err}
use poc_hydra_auth.Ratelimit.Settings.{resolve_hmac_secret}
use poc_hydra_auth.Startup.Events.{Event}
use poc_hydra_auth.Startup.Migrations.{migrate_database_up}
use poc_hydra_auth.Startup.Key.{load_jwt_signing_key}
use poc_hydra_auth.Startup.Service.{
  Machine, StartResult, server_closed, start_failed, Exit, returned, exited_1, env_or, run_server,
  after_build, with_key, with_redis_client, with_pool, auth_main, warned,
}
use poc_hydra_auth.Startup.Cleanup.{is_ok, is_listening, all_succeed, quiet_migrations}

abbrev pub is_returned : Exit → Bool
is_returned returned = true
is_returned exited_1 = false

abbrev pub is_closed : StartResult → Bool
is_closed server_closed = true
is_closed start_failed = false

module _ {Key : Type 0} (m : Machine Key) where
  abbrev port : String
  port = env_or (m.getenv "AUTH_PORT") "8081"

  -- The variables that must be set are, and everything that the service stands on works.
  abbrev pub ready : Bool
  ready =
      not (str_eq (m.getenv "POSTGRES_URL") "")
      && (m.connects (m.getenv "POSTGRES_URL")
          && (m.redis_answers (env_or (m.getenv "REDIS_ADDR") "redis:6379")
              && (is_ok (load_jwt_signing_key m.keys (m.getenv "JWT_PRIVATE_KEY_PATH"))
                  && all_succeed m.calls)))

  -- Whether a start calls Start, and whether it ends without os.Exit(1).
  record Starts (ready : Bool) (r : Exit × List Event) : Type 0 where
    serves : any is_listening r.1 ≡ ready
    ends_well : is_returned r.0 ≡ (ready && is_closed (m.start port))

  server_lem :
      (p : String) (s : StartResult) (t : List Event)
      → (any is_listening (run_server m p s t).1 ≡ true)
        × (is_returned (run_server m p s t).0 ≡ is_closed s)
  unfolding run_server
  server_lem p server_closed t = (refl, refl)
  server_lem p start_failed t = (refl, refl)

  build_lem :
      (r : Result (Unit {0})) (t : List Event)
      → any is_listening t ≡ false
      → Starts (is_ok r) (after_build m r t)
  unfolding after_build
  build_lem (err e) t h = record { serves = h; ends_well = refl }
  build_lem (ok a) t h =
      let (p, q) = server_lem port (m.start port) t in record { serves = p; ends_well = q }

  key_lem :
      (k : Result Key) (t : List Event)
      → any is_listening t ≡ false
      → Starts (is_ok k && all_succeed m.calls) (with_key m k t)
  unfolding with_key
  key_lem (err e) t h = record { serves = h; ends_well = refl }
  key_lem (ok key) t h =
      let c = m.calls in
      let (p, q) =
        quiet_migrations "auth" c.opens_source c.creates_schema c.opens_connection c.makes_instance
          c.up t h in
      let r = migrate_database_up "auth" c t in
      let b = build_lem r.0 r.1 q in
      record {
        serves = b.serves ∙ p;
        ends_well = b.ends_well ∙ ap (λ x. x && is_closed (m.start port)) p;
      }

  warned_lem :
      (weak : Bool) (t : List Event)
      → any is_listening t ≡ false
      → any is_listening (warned m weak t) ≡ false
  warned_lem true t h = h
  warned_lem false t h = h

  redis_lem :
      (answers : Bool) (t : List Event)
      → any is_listening t ≡ false
      → Starts
          (answers
            && (is_ok (load_jwt_signing_key m.keys (m.getenv "JWT_PRIVATE_KEY_PATH"))
                && all_succeed m.calls))
          (with_redis_client m answers t)
  unfolding with_redis_client
  redis_lem false t h = record { serves = h; ends_well = refl }
  redis_lem true t h =
      let weak = (resolve_hmac_secret (m.getenv "RATELIMIT_HMAC_SECRET")).1 in
      key_lem (load_jwt_signing_key m.keys (m.getenv "JWT_PRIVATE_KEY_PATH")) (warned m weak t)
        (warned_lem weak t h)

  pool_lem :
      (works : Bool) (dsn : String)
      → Starts
          (works
            && (m.redis_answers (env_or (m.getenv "REDIS_ADDR") "redis:6379")
                && (is_ok (load_jwt_signing_key m.keys (m.getenv "JWT_PRIVATE_KEY_PATH"))
                    && all_succeed m.calls)))
          (with_pool m works dsn)
  unfolding with_pool
  pool_lem false dsn = record { serves = refl; ends_well = refl }
  pool_lem true dsn =
      redis_lem (m.redis_answers (env_or (m.getenv "REDIS_ADDR") "redis:6379")) _ refl

  main_lem : Starts ready (auth_main m)
  unfolding auth_main
  main_lem = elim (Bool-cases (str_eq (m.getenv "POSTGRES_URL") "")) [
    | inl e ↦ rw e (record { serves = refl; ends_well = refl })
    | inr e ↦ rw e (pool_lem (m.connects (m.getenv "POSTGRES_URL")) (m.getenv "POSTGRES_URL"))
  ]

  -- The service calls Start exactly when POSTGRES_URL is set, the database and Redis answer, the
  -- signing key is read from JWT_PRIVATE_KEY_PATH and parsed, and the migrations succeed; and the
  -- process ends without the exit code 1 exactly when, besides, the server is closed by a shutdown.
  pub serves_exactly_when_ready :
      (any is_listening (auth_main m).1 ≡ ready)
      × (is_returned (auth_main m).0
          ≡ (ready && is_closed (m.start (env_or (m.getenv "AUTH_PORT") "8081"))))
  serves_exactly_when_ready = (main_lem.serves, main_lem.ends_well)
