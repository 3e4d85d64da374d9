-- ===== src/Respects/Reads.antt =====
-- The repository's reads, the tokens' making and the shared steps of the handlers respect every
-- preorder, since they leave the database alone.
use poc_hydra_auth.Prelude.{ℕ, String, Option, none, some, List}
use poc_hydra_auth.Domain.Issue.{
  new_email_confirmation_token, new_password_reset_token, new_invitation_token,
  generate_refresh_token, issue_access_token,
}
use poc_hydra_auth.World.{Env, MailKind, LimiterName}
use poc_hydra_auth.Db.{AuthUser}
use poc_hydra_auth.Db.Users.{get_user_by_email, get_user_by_uuid, get_user_roles}
use poc_hydra_auth.Db.Tokens.{
  get_email_confirmation_token_by_hash, get_password_reset_token_by_hash,
  get_invitation_token_by_hash,
}
use poc_hydra_auth.Db.RefreshTokens.{get_refresh_token_row_by_hash}
use poc_hydra_auth.Repo.Users.{
  with_roles, email_exists, find_user_by_email, get_login_user, get_user_credentials,
}
use poc_hydra_auth.Repo.EmailTokens.{find_email_confirmation_token}
use poc_hydra_auth.Repo.ResetTokens.{find_password_reset_token}
use poc_hydra_auth.Repo.Invitations.{roles_of, find_user_roles_by_email, find_invitation_token}
use poc_hydra_auth.Repo.RefreshTokens.{
  get_refresh_token_by_hash, refresh_user, get_user_for_refresh,
}
use poc_hydra_auth.Repo.AdminAccounts.{roles_and_status, find_admin_account}
use poc_hydra_auth.Command.Steps.{within_rate_limit, deliver}
use poc_hydra_auth.Respects.{Preorder, Respects, respects_rules}

module _ {K : Type 0} (env : Env K) {R : Preorder} where
  pub within_rate_limit-Respects :
      (name : LimiterName) (key : String) → Respects R (within_rate_limit env name key)
  unfolding within_rate_limit
  within_rate_limit-Respects name key = search respects_rules

  pub deliver-Respects : (kind : MailKind) (to t : String) → Respects R (deliver env kind to t)
  unfolding deliver
  deliver-Respects kind to t = search respects_rules

  pub new_email_confirmation_token-Respects : Respects R (new_email_confirmation_token env)
  unfolding new_email_confirmation_token
  new_email_confirmation_token-Respects = search respects_rules

  pub new_password_reset_token-Respects : Respects R (new_password_reset_token env)
  unfolding new_password_reset_token
  new_password_reset_token-Respects = search respects_rules

  pub new_invitation_token-Respects : Respects R (new_invitation_token env)
  unfolding new_invitation_token
  new_invitation_token-Respects = search respects_rules

  pub generate_refresh_token-Respects : Respects R (generate_refresh_token env)
  unfolding generate_refresh_token
  generate_refresh_token-Respects = search respects_rules

  pub issue_access_token-Respects :
      (user : String) (roles : List String) (ttl : ℕ)
      → Respects R (issue_access_token env user roles ttl)
  unfolding issue_access_token
  issue_access_token-Respects user roles ttl = search respects_rules

  pub email_exists-Respects : (email : String) → Respects R (email_exists env email)
  unfolding email_exists get_user_by_email
  email_exists-Respects email = search respects_rules

  pub find_user_by_email-Respects : (email : String) → Respects R (find_user_by_email env email)
  unfolding find_user_by_email get_user_by_email
  find_user_by_email-Respects email = search respects_rules

  with_roles-Respects : (row : Option AuthUser) → Respects R (with_roles env row)
  unfolding with_roles get_user_roles
  with_roles-Respects none = search respects_rules
  with_roles-Respects (some row) = search respects_rules

  pub get_login_user-Respects : (email : String) → Respects R (get_login_user env email)
  unfolding get_login_user get_user_by_email
  get_login_user-Respects email = search (respects_rules, with_roles-Respects)

  pub get_user_credentials-Respects : (user : ℕ) → Respects R (get_user_credentials env user)
  unfolding get_user_credentials get_user_by_uuid
  get_user_credentials-Respects user = search respects_rules

  pub find_email_confirmation_token-Respects :
      (hash : String) → Respects R (find_email_confirmation_token env hash)
  unfolding find_email_confirmation_token get_email_confirmation_token_by_hash
  find_email_confirmation_token-Respects hash = search respects_rules

  pub find_password_reset_token-Respects :
      (hash : String) → Respects R (find_password_reset_token env hash)
  unfolding find_password_reset_token get_password_reset_token_by_hash
  find_password_reset_token-Respects hash = search respects_rules

  pub find_invitation_token-Respects : (hash : String) → Respects R (find_invitation_token env hash)
  unfolding find_invitation_token get_invitation_token_by_hash
  find_invitation_token-Respects hash = search respects_rules

  roles_of-Respects : (row : Option AuthUser) → Respects R (roles_of env row)
  unfolding roles_of get_user_roles
  roles_of-Respects none = search respects_rules
  roles_of-Respects (some row) = search respects_rules

  pub find_user_roles_by_email-Respects :
      (email : String) → Respects R (find_user_roles_by_email env email)
  unfolding find_user_roles_by_email get_user_by_email
  find_user_roles_by_email-Respects email = search (respects_rules, roles_of-Respects)

  pub get_refresh_token_by_hash-Respects :
      (hash : String) → Respects R (get_refresh_token_by_hash env hash)
  unfolding get_refresh_token_by_hash get_refresh_token_row_by_hash
  get_refresh_token_by_hash-Respects hash = search respects_rules

  refresh_user-Respects : (row : Option AuthUser) (u : ℕ) → Respects R (refresh_user env row u)
  unfolding refresh_user get_user_roles
  refresh_user-Respects none u = search respects_rules
  refresh_user-Respects (some row) u = search respects_rules

  pub get_user_for_refresh-Respects : (user : ℕ) → Respects R (get_user_for_refresh env user)
  unfolding get_user_for_refresh get_user_by_uuid
  get_user_for_refresh-Respects user = search (respects_rules, refresh_user-Respects)

  roles_and_status-Respects :
      (row : Option AuthUser) (u : ℕ) → Respects R (roles_and_status env row u)
  unfolding roles_and_status get_user_roles
  roles_and_status-Respects none u = search respects_rules
  roles_and_status-Respects (some row) u = search respects_rules

  pub find_admin_account-Respects : (user : ℕ) → Respects R (find_admin_account env user)
  unfolding find_admin_account get_user_by_uuid
  find_admin_account-Respects user = search (respects_rules, roles_and_status-Respects)

pub ruleset read_rules = (
  respects_rules, within_rate_limit-Respects, deliver-Respects,
  new_email_confirmation_token-Respects, new_password_reset_token-Respects,
  new_invitation_token-Respects, generate_refresh_token-Respects, issue_access_token-Respects,
  email_exists-Respects, find_user_by_email-Respects, get_login_user-Respects,
  get_user_credentials-Respects, find_email_confirmation_token-Respects,
  find_password_reset_token-Respects, find_invitation_token-Respects,
  find_user_roles_by_email-Respects, get_refresh_token_by_hash-Respects,
  get_user_for_refresh-Respects, find_admin_account-Respects,
)
