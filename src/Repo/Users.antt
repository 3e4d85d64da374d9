-- ===== src/Repo/Users.antt =====
-- users_repo.go
use poc_hydra_auth.Prelude.{ℕ, String, Bool, Option, none, some, List, ◌==◌, is_some}
use poc_hydra_auth.Errors.{other, sentinel, password_changed}
use poc_hydra_auth.Exec.{◌>>=◌, ◌>>◌, pure, guard}
use poc_hydra_auth.Domain.Status.{Status}
use poc_hydra_auth.Domain.Token.{NewToken}
use poc_hydra_auth.World.{M, Env}
use poc_hydra_auth.Db.{AuthUser}
use poc_hydra_auth.Db.Users.{
  get_user_by_email, get_user_by_uuid, get_user_roles, insert_user, insert_user_role,
  update_user_password,
}
use poc_hydra_auth.Db.Tokens.{insert_email_confirmation_token}
use poc_hydra_auth.Db.RefreshTokens.{
  RefreshTokenRecord, insert_refresh_token, revoke_refresh_tokens_by_user,
}
use poc_hydra_auth.Db.Tx.{update_in_tx}
use poc_hydra_auth.Repo.Rows.{if_found}

-- domain.Registration
pub record Registration : Type 0 where
  pub user_uuid : ℕ
  pub email : String
  pub password_hash : String
  pub status : Status
  pub role : String

-- command.LoginUser
pub record LoginUser : Type 0 where
  pub user_uuid : ℕ
  pub password_hash : String
  pub status : Status
  pub roles : List String

-- command.UserCredentials
pub record UserCredentials : Type 0 where
  pub password_hash : String
  pub status : Status

module _ {K : Type 0} (env : Env K) where
  -- The row of `GetUserByEmail` and the user's roles, for GetLoginUser.
  unfoldable pub with_roles : Option AuthUser → M K (Option LoginUser)
  with_roles none = pure none
  with_roles (some row) = do
    roles ← get_user_roles env row.user_uuid
    pure (
        some (record {
          user_uuid = row.user_uuid;
          password_hash = row.password_hash;
          status = row.status;
          roles = roles;
        }))

  -- EmailExists
  unfoldable pub email_exists : String → M K Bool
  email_exists email = do row ← if_found (get_user_by_email env email); pure (is_some row)

  abbrev uuid_and_status : Option AuthUser → Option (ℕ × Status)
  uuid_and_status none = none
  uuid_and_status (some row) = some (row.user_uuid, row.status)

  -- FindUserByEmail
  unfoldable pub find_user_by_email : String → M K (Option (ℕ × Status))
  find_user_by_email email = do
    row ← if_found (get_user_by_email env email)
    pure (uuid_and_status row)

  -- CreateUser
  unfoldable pub create_user : Registration → NewToken → M K (Unit {0}) → M K (Unit {0})
  create_user reg token after_insert = update_in_tx env (do
    insert_user env (record {
      user_uuid = reg.user_uuid;
      email = reg.email;
      password_hash = reg.password_hash;
      status = reg.status;
    })
    insert_user_role env reg.user_uuid reg.role
    insert_email_confirmation_token env reg.user_uuid token
    after_insert)

  -- GetLoginUser
  unfoldable pub get_login_user : String → M K (Option LoginUser)
  unfolding with_roles
  get_login_user email = do row ← if_found (get_user_by_email env email); with_roles row

  abbrev pub credentials : Option AuthUser → Option UserCredentials
  credentials none = none
  credentials (some row) = some (record { password_hash = row.password_hash; status = row.status })

  -- GetUserCredentials
  unfoldable pub get_user_credentials : ℕ → M K (Option UserCredentials)
  get_user_credentials user_uuid = do
    row ← if_found (get_user_by_uuid env user_uuid)
    pure (credentials row)

  -- ChangePassword of the repository
  unfoldable pub change_password_tx : ℕ → String → M K (Unit {0})
  change_password_tx user_uuid new_password_hash = update_in_tx env (do
    affected ← update_user_password env user_uuid new_password_hash
    guard (affected == 0) (sentinel (other "user not found for password update"))
    revoke_refresh_tokens_by_user env user_uuid (some password_changed))

  -- SaveRefreshToken
  unfoldable pub save_refresh_token : RefreshTokenRecord → M K (Unit {0})
  save_refresh_token rt = insert_refresh_token env rt
