-- ===== src/ProcessScenarios.antt =====
-- A start of the authentication service.
use poc_hydra_auth.Prelude.{ℕ, ◌≡◌, true, none, some, ◌&&◌, any, str_eq, if◌then◌else◌}
use poc_hydra_auth.Startup.Migrations.{MigrateCalls, no_change}
use poc_hydra_auth.Startup.Key.{KeyLibrary}
use poc_hydra_auth.Startup.Service.{Machine, server_closed, auth_main}
use poc_hydra_auth.Startup.Cleanup.{is_listening}
use poc_hydra_auth.Startup.Ready.{ready, is_returned, serves_exactly_when_ready}

abbrev calls : MigrateCalls
calls = record {
  opens_source = true;
  creates_schema = true;
  opens_connection = true;
  makes_instance = true;
  up = no_change;
}

abbrev keys : KeyLibrary ℕ
keys = record {
  read_file = λ path. some "pem";
  pem_decode = λ bytes. some "der";
  parse_pkcs1 = λ block. some 1;
  parse_pkcs8 = λ block. none;
}

abbrev machine : Machine ℕ
machine = record {
  getenv = λ name.
      if str_eq name "POSTGRES_URL"
      then "postgres://db"
      else if str_eq name "JWT_PRIVATE_KEY_PATH"
      then "/key.pem"
      else "";
  connects = λ dsn. true;
  redis_answers = λ addr. true;
  keys = keys;
  calls = calls;
  start = λ port. server_closed;
}

serves_exactly_when_ready_example :
    (any is_listening (auth_main machine).1 ≡ ready machine)
    × (is_returned (auth_main machine).0 ≡ (ready machine && true))
serves_exactly_when_ready_example = serves_exactly_when_ready machine
