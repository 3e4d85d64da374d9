-- ===== src/Command/RefreshToken.antt =====
-- refresh_token.go (UC-006)
use poc_hydra_auth.Prelude.{
  ℕ, ◌+◌, String, ◌||◌, Option, none, some, str_eq, ltb, is_some, if◌then◌else◌,
}
use poc_hydra_auth.Errors.{
  Err, Reason, is, sentinel, session_revoked_error, invalid_refresh_token, refresh_token_expired,
  refresh_token_already_used, token_reuse_detected, account_deleted, wrapped,
}
use poc_hydra_auth.Exec.{Result, ok, err, ◌>>=◌, ◌>>◌, pure, raise, guard, wrapping, attempt}
use poc_hydra_auth.Domain.Status.{status_eq, disabled}
use poc_hydra_auth.Domain.Token.{access_token_ttl, refresh_token_ttl, hash_token}
use poc_hydra_auth.Domain.Issue.{generate_refresh_token, issue_access_token}
use poc_hydra_auth.World.{M, Env, uuid_new, time_now}
use poc_hydra_auth.Repo.RefreshTokens.{
  StoredRefreshToken, RefreshUser, get_refresh_token_by_hash, get_user_for_refresh,
  rotate_refresh_token, revoke_refresh_token, revoke_refresh_token_family,
}
use poc_hydra_auth.Command.Login.{IssuedTokens}

module _ {K : Type 0} (env : Env K) where
  -- E3, E5 and E6: one token revoked, and the error for the caller.
  unfoldable pub revoke_and_fail : {A : Type 0} → String → ℕ → Option Reason → Err → M K A
  revoke_and_fail message token_id reason e = do
    wrapping message (revoke_refresh_token env token_id reason)
    raise e

  -- E4: the whole family revoked.
  unfoldable pub reuse_detected : {A : Type 0} → StoredRefreshToken → M K A
  reuse_detected stored = do
    wrapping "could not revoke token family"
        (revoke_refresh_token_family env stored.family_id token_reuse_detected)
    raise (session_revoked_error token_reuse_detected)

  -- The three ways out of RotateRefreshToken.
  unfoldable pub after_rotation : StoredRefreshToken → Result (Unit {0}) → M K (Unit {0})
  after_rotation stored (ok a) = pure a
  after_rotation stored (err e) =
      if is e refresh_token_already_used
      then reuse_detected stored
      else raise (wrapped "could not rotate refresh token" e)

  -- Steps 8 to 10.
  unfoldable pub rotate : StoredRefreshToken → RefreshUser → M K IssuedTokens
  unfolding after_rotation
  rotate stored user = do
    (plain_refresh, hash) ← wrapping "could not generate refresh token" (generate_refresh_token env)
    token_id ← uuid_new env
    now ← time_now env
    r ← attempt (
        rotate_refresh_token env stored.token_id (record {
          token_id = token_id;
          user_uuid = stored.user_uuid;
          family_id = stored.family_id;
          parent_token_id = some stored.token_id;
          token_hash = hash;
          expires_at = now + refresh_token_ttl;
        }))
    after_rotation stored r
    access_token ←
        wrapping "could not issue access token" (
          issue_access_token env (env.lib.uuid_string stored.user_uuid) user.roles access_token_ttl)
    pure (record { access_token = access_token; refresh_token = plain_refresh })

  -- Steps 6 and 7.
  unfoldable pub for_user : StoredRefreshToken → Option RefreshUser → M K IssuedTokens
  for_user stored none =
      revoke_and_fail "could not revoke token" stored.token_id (some account_deleted)
        (session_revoked_error account_deleted)
  for_user stored (some user) =
      if status_eq user.status disabled
      then revoke_and_fail "could not revoke token" stored.token_id (some Reason.account_disabled)
          (session_revoked_error Reason.account_disabled)
      else rotate stored user

  -- Steps 4 to 7: stored.ExpiresAt.Before(time.Now()), then the reuse test.
  unfoldable pub refresh_at : StoredRefreshToken → ℕ → M K IssuedTokens
  refresh_at stored now =
      if ltb stored.expires_at now
      then revoke_and_fail "could not revoke expired token" stored.token_id none
          (sentinel refresh_token_expired)
      else if is_some stored.used_at || is_some stored.revoked_at
      then reuse_detected stored
      else (do
        user ← wrapping "could not look up user" (get_user_for_refresh env stored.user_uuid)
        for_user stored user)

  unfoldable pub refresh_stored : Option StoredRefreshToken → M K IssuedTokens
  refresh_stored none = raise (sentinel invalid_refresh_token)
  refresh_stored (some stored) = do now ← time_now env; refresh_at stored now

  -- Handle
  unfoldable pub refresh : String → M K IssuedTokens
  refresh plain_token = do
    guard (str_eq plain_token "") (sentinel invalid_refresh_token)
    stored ←
        wrapping "could not look up refresh token"
          (get_refresh_token_by_hash env (hash_token env.lib plain_token))
    refresh_stored stored
