-- ===== src/Command/Logout.antt =====
-- logout.go (UC-007)
use poc_hydra_auth.Prelude.{ℕ, String, Option, none, some, str_eq, ◌==◌, if◌then◌else◌}
use poc_hydra_auth.Errors.{sentinel, refresh_token_format_invalid}
use poc_hydra_auth.Exec.{◌>>=◌, ◌>>◌, pure, guard, wrapping}
use poc_hydra_auth.Domain.Token.{hash_token}
use poc_hydra_auth.World.{M, Env}
use poc_hydra_auth.Repo.RefreshTokens.{
  StoredRefreshToken, get_refresh_token_by_hash, revoke_refresh_token,
}

module _ {K : Type 0} (env : Env K) where
  -- The ownership test, on the parsed subject.
  unfoldable pub revoke_own : StoredRefreshToken → Option ℕ → M K (Unit {0})
  revoke_own stored none = pure tt
  revoke_own stored (some auth_uuid) =
      if stored.user_uuid == auth_uuid
      then wrapping "could not revoke refresh token" (revoke_refresh_token env stored.token_id none)
      else pure tt

  unfoldable pub logout_stored : String → Option StoredRefreshToken → M K (Unit {0})
  logout_stored authenticated_user_id none = pure tt
  logout_stored authenticated_user_id (some stored) =
      revoke_own stored (env.lib.uuid_parse authenticated_user_id)

  -- Handle
  unfoldable pub logout : String → String → M K (Unit {0})
  logout plain_token authenticated_user_id = do
    guard (str_eq plain_token "") (sentinel refresh_token_format_invalid)
    stored ←
        wrapping "could not look up refresh token"
          (get_refresh_token_by_hash env (hash_token env.lib plain_token))
    logout_stored authenticated_user_id stored
