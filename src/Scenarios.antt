-- ===== src/Scenarios.antt =====
-- A small service with concrete libraries, and the theorems on runs applied to it.
use poc_hydra_auth.Prelude.{
  ℕ, zero, suc, ◌+◌, refl, inl, true, false, none, some, List, [], ◌∷◌, str_eq, if◌then◌else◌,
}
use poc_hydra_auth.Errors.{service_error}
use poc_hydra_auth.Exec.{Result, ok, err}
use poc_hydra_auth.Domain.Library.{Library}
use poc_hydra_auth.Domain.Status.{inactive, role_super_admin, role_user}
use poc_hydra_auth.World.{World, M, Env, Try, final, transient}
use poc_hydra_auth.Db.{AuthUser, AuthRefreshToken, AuthToken, empty_db}
use poc_hydra_auth.Db.Tx.{update_in_tx}
use poc_hydra_auth.Db.Tx.Atomic.{IsRetry, AllOrNothing, update_in_tx_atomic}
use poc_hydra_auth.Db.Users.{insert_user_role}
use poc_hydra_auth.Service.{Request, registers, verifies, refreshes, disables, run}
use poc_hydra_auth.History.Grows.{Grows}
use poc_hydra_auth.History.Accounts.{Entered, Ages, accounts_history}
use poc_hydra_auth.History.Sessions.{HasCause, Wears, sessions_history}
use poc_hydra_auth.History.OneTime.{tokens_history}
use poc_hydra_auth.History.Spent.{GrowsTokens, GrowsInvitations}

abbrev pub K : Type 0
K = Unit {0}

step :
    {K : Type 0}
    → Try (Unit {0})
    → ℕ
    → (World K → Result (Unit {0}) × World K)
    → World K
    → Result (Unit {0}) × World K
step (final r) n again w = (r, w)
step (transient e) zero again w = (err e, w)
step (transient e) (suc n) again w = again w

-- Tries until a final one or until they run out.
unfoldable pub retry : {K : Type 0} → ℕ → (World K → Try (Unit {0}) × World K) → M K (Unit {0})
unfolding step
retry zero op w = (err service_error, w)
retry (suc n) op w = let (t, w') = op w in step t n (retry n op) w'

abbrev pub library : Library
library = record {
  parse_address = some;
  sha256_hex = λ s. s;
  base64_raw_url = λ b. "fresh";
  compare_hash_and_password = str_eq;
  uuid_parse = λ s. if str_eq s "one" then some 1 else if str_eq s "two" then some 2 else none;
  uuid_string = λ n. "one";
  sign_rs256 = λ c. some "jwt";
}

abbrev pub env : Env K
env = record {
  lib = library;
  db_fault = λ n. none;
  collates = λ s t. true;
  rand_read = λ n m. some [];
  uuid_new = λ n. n + 100;
  generate_from_password = λ n password cost. some password;
  delivers = λ n mail. true;
  allow = λ name key now k. (ok (record { allowed = true; retry_after = 0 }), k);
  check = λ key now k. (ok (false, 0), k);
  record_failure = λ key now k. (ok false, k);
  reset = λ key now k. (ok tt, k);
  retry = retry;
}

pub laws : IsRetry env
unfolding retry
laws = record {
  stops = λ n op w r h. rw h refl;
  last = λ op w e h. rw h refl;
  again = λ n op w e h. inl (rw h refl);
}

abbrev pub user : AuthUser
user = record {
  user_uuid = 1;
  email = "a@example.org";
  password_hash = "correct horse battery";
  status = inactive;
  created_at = 0;
  updated_at = 0;
  deleted_at = none;
}

abbrev pub session : AuthRefreshToken
session = record {
  token_id = 7;
  user_uuid = 1;
  family_id = 8;
  parent_token_id = none;
  token_hash = "plain";
  expires_at = 1000;
  used_at = none;
  revoked_at = none;
  revocation_reason = none;
  created_at = 0;
}

abbrev pub reset_link : AuthToken
reset_link = record {
  token_uuid = 9;
  user_uuid = 1;
  token_hash = "link";
  expires_at = 1000;
  used_at = none;
  created_at = 0;
}

abbrev pub world : World K
world = record {
  db = record empty_db {
    users = user ∷ [];
    user_roles = record { user_uuid = 1; role = role_user; granted_at = 0 } ∷ [];
    refresh_tokens = session ∷ [];
    password_reset_tokens = reset_link ∷ [];
  };
  services = tt;
  sent = [];
  draws = 0;
  now = 100;
}

abbrev requests : List (ℕ × K × Request)
requests =
    (110, tt, registers "b@example.org" "another long password")
    ∷ (120, tt, verifies "fresh" "10.0.0.1")
    ∷ (130, tt, refreshes "plain")
    ∷ (140, tt, refreshes "plain")
    ∷ (150, tt, disables "one" "two")
    ∷ []

update_in_tx_atomic_example :
    AllOrNothing env
      (insert_user_role env 1 role_super_admin)
      world
      (update_in_tx env (insert_user_role env 1 role_super_admin) world)
update_in_tx_atomic_example =
    update_in_tx_atomic env laws (insert_user_role env 1 role_super_admin) world

accounts_history_example : Grows Entered Ages world.db.users (run env requests world).db.users
accounts_history_example = accounts_history env laws requests world

sessions_history_example :
    Grows HasCause Wears world.db.refresh_tokens (run env requests world).db.refresh_tokens
sessions_history_example = sessions_history env laws requests world

tokens_history_example :
    GrowsTokens world.db.email_confirmation_tokens
      (run env requests world).db.email_confirmation_tokens
    × GrowsTokens world.db.password_reset_tokens (run env requests world).db.password_reset_tokens
    × GrowsInvitations world.db.invitation_tokens (run env requests world).db.invitation_tokens
tokens_history_example = tokens_history env laws requests world
