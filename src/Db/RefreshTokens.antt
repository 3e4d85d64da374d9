-- ===== src/Db/RefreshTokens.antt =====
-- dbmodels/refresh_tokens.sql.go: the statements on auth.refresh_tokens.
use poc_hydra_auth.Prelude.{
  ℕ, String, Bool, ◌&&◌, ◌||◌, Option, none, some, ◌∷◌, ◌==◌, str_eq, if◌then◌else◌, is_none, find?,
  any, count_where, update_where,
}
use poc_hydra_auth.Errors.{Reason, pg_error, unique_violation}
use poc_hydra_auth.Exec.{ok, err}
use poc_hydra_auth.Db.{AuthRefreshToken}
use poc_hydra_auth.World.{M, Env, statement, select_one}

-- InsertRefreshTokenParams, and command.RefreshTokenRecord, which has the same fields.
pub record RefreshTokenRecord : Type 0 where
  pub token_id : ℕ
  pub user_uuid : ℕ
  pub family_id : ℕ
  pub parent_token_id : Option ℕ
  pub token_hash : String
  pub expires_at : ℕ

-- WHERE token_id = $1 AND used_at IS NULL
abbrev pub is_unused : ℕ → AuthRefreshToken → Bool
is_unused token_id t = t.token_id == token_id && is_none t.used_at

-- WHERE token_id = $1 AND revoked_at IS NULL
abbrev pub is_unrevoked : ℕ → AuthRefreshToken → Bool
is_unrevoked token_id t = t.token_id == token_id && is_none t.revoked_at

-- WHERE family_id = $1 AND revoked_at IS NULL
abbrev pub is_unrevoked_in_family : ℕ → AuthRefreshToken → Bool
is_unrevoked_in_family family_id t = t.family_id == family_id && is_none t.revoked_at

-- WHERE user_uuid = $1 AND revoked_at IS NULL
abbrev pub is_unrevoked_of_user : ℕ → AuthRefreshToken → Bool
is_unrevoked_of_user user_uuid t = t.user_uuid == user_uuid && is_none t.revoked_at

abbrev pub mark_consumed : ℕ → AuthRefreshToken → AuthRefreshToken
mark_consumed now t = record t { used_at = some now }

-- SET revoked_at = now(), revocation_reason = $2
abbrev pub revoke : ℕ → Option Reason → AuthRefreshToken → AuthRefreshToken
revoke now reason t = record t { revoked_at = some now; revocation_reason = reason }

-- A row that breaks the primary key or the unique index on token_hash. No caller reads which of
-- the two it was, and the error names the table.
abbrev pub clashes_with : RefreshTokenRecord → AuthRefreshToken → Bool
clashes_with new t = t.token_id == new.token_id || str_eq t.token_hash new.token_hash

abbrev pub inserted : ℕ → RefreshTokenRecord → AuthRefreshToken
inserted now new = record {
  token_id = new.token_id;
  user_uuid = new.user_uuid;
  family_id = new.family_id;
  parent_token_id = new.parent_token_id;
  token_hash = new.token_hash;
  expires_at = new.expires_at;
  used_at = none;
  revoked_at = none;
  revocation_reason = none;
  created_at = now;
}

module _ {K : Type 0} (env : Env K) where
  unfoldable pub get_refresh_token_row_by_hash : String → M K AuthRefreshToken
  get_refresh_token_row_by_hash hash =
      select_one env (λ db. find? (λ t. str_eq t.token_hash hash) db.refresh_tokens)

  unfoldable pub insert_refresh_token : RefreshTokenRecord → M K (Unit {0})
  insert_refresh_token new = statement env λ now db.
      if any (clashes_with new) db.refresh_tokens
      then (err (pg_error (unique_violation "refresh_tokens")), db)
      else (ok tt, record db { refresh_tokens = inserted now new ∷ db.refresh_tokens })

  unfoldable pub mark_refresh_token_used : ℕ → M K ℕ
  mark_refresh_token_used token_id = statement env λ now db. (
    ok (count_where (is_unused token_id) db.refresh_tokens),
    record db {
      refresh_tokens = update_where (is_unused token_id) (mark_consumed now) db.refresh_tokens;
    },
  )

  -- An UPDATE of the rows that pass a test, as a statement whose count nobody reads.
  unfoldable pub revoke_where : (AuthRefreshToken → Bool) → Option Reason → M K (Unit {0})
  revoke_where p reason = statement env λ now db.
      (ok tt, record db { refresh_tokens = update_where p (revoke now reason) db.refresh_tokens })

  unfoldable pub revoke_refresh_token_row : ℕ → Option Reason → M K (Unit {0})
  unfolding revoke_where
  revoke_refresh_token_row token_id reason = revoke_where (is_unrevoked token_id) reason

  unfoldable pub revoke_refresh_token_family_rows : ℕ → Option Reason → M K (Unit {0})
  unfolding revoke_where
  revoke_refresh_token_family_rows family_id reason =
      revoke_where (is_unrevoked_in_family family_id) reason

  unfoldable pub revoke_refresh_tokens_by_user : ℕ → Option Reason → M K (Unit {0})
  unfolding revoke_where
  revoke_refresh_tokens_by_user user_uuid reason =
      revoke_where (is_unrevoked_of_user user_uuid) reason
