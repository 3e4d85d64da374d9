-- ===== src/Success/Reuse.antt =====
-- A refresh token that is presented again.
use poc_hydra_auth.Prelude.{
  suc, String, ◌≡◌, refl, ◌||◌, true, false, none, some, str_eq, ltb, find?, is_some, update_where,
}
use poc_hydra_auth.Errors.{session_revoked_error, token_reuse_detected}
use poc_hydra_auth.Exec.{err, ◌>>=◌, guard}
use poc_hydra_auth.Domain.Token.{hash_token}
use poc_hydra_auth.World.{World, Env, statement, select_one, time_now}
use poc_hydra_auth.Db.{AuthRefreshToken}
use poc_hydra_auth.Db.RefreshTokens.{
  is_unrevoked_in_family, revoke, revoke_where, revoke_refresh_token_family_rows,
  get_refresh_token_row_by_hash,
}
use poc_hydra_auth.Repo.Rows.{if_found, absent_or}
use poc_hydra_auth.Repo.RefreshTokens.{get_refresh_token_by_hash, revoke_refresh_token_family}
use poc_hydra_auth.Command.RefreshToken.{refresh, refresh_stored, refresh_at, reuse_detected}

module _ {K : Type 0} (env : Env K) where
  -- For a non-empty token with the hash of a stored one that is not expired but was used or revoked,
  -- when the two statements on the way meet no failure: refresh answers that the session is revoked
  -- for token_reuse_detected, and the database is the old one, but that every token of the stored
  -- one's family that was not revoked, and no other, is revoked with that reason.
  pub reuse_revokes_family :
      (plain : String) (row : AuthRefreshToken) (w : World K)
      → str_eq plain "" ≡ false
      → find? (λ t. str_eq t.token_hash (hash_token env.lib plain)) w.db.refresh_tokens ≡ some row
      → ltb row.expires_at w.now ≡ false
      → is_some row.used_at || is_some row.revoked_at ≡ true
      → env.db_fault w.draws ≡ none
      → env.db_fault (suc w.draws) ≡ none
      → ((refresh env plain w).0 ≡ err (session_revoked_error token_reuse_detected))
        × ((refresh env plain w).1.db ≡ record (w.db) {
          refresh_tokens =
              update_where
                (is_unrevoked_in_family row.family_id)
                (revoke w.now (some token_reuse_detected))
                w.db.refresh_tokens;
        })
  unfolding refresh get_refresh_token_by_hash get_refresh_token_row_by_hash if_found absent_or
      select_one statement ◌>>=◌ guard refresh_stored time_now refresh_at reuse_detected
      revoke_refresh_token_family revoke_refresh_token_family_rows revoke_where
  reuse_revokes_family plain row w h present in_time spent f g =
      rw (h, f, present, in_time, spent, g) (refl, refl)
