-- ===== src/Repo/Rows.antt =====
-- The idiom by which every read of the repository turns pgx.ErrNoRows into "not found", and the
-- conversions of rows.
use poc_hydra_auth.Prelude.{Option, none, some, if◌then◌else◌}
use poc_hydra_auth.Errors.{Sentinel, is, no_rows, sentinel}
use poc_hydra_auth.Exec.{Exec, Result, ok, err, ◌>>=◌, pure, raise, attempt, map_err}
use poc_hydra_auth.Domain.Token.{TokenRecord, InvitationTokenRecord}
use poc_hydra_auth.Db.{AuthToken, AuthInvitationToken}

module _ {S : Type 0} {A : Type 0} where
  -- if errors.Is(err, pgx.ErrNoRows) { found = false } else if err != nil { return err }
  unfoldable pub absent_or : Result A → Exec S (Option A)
  absent_or (ok a) = pure (some a)
  absent_or (err e) = if is e no_rows then pure none else raise e

  unfoldable pub if_found : Exec S A → Exec S (Option A)
  unfolding absent_or
  if_found m = do r ← attempt m; absent_or r

  -- if errors.Is(err, pgx.ErrNoRows) { return missing } else if err != nil { return err }
  unfoldable pub or_missing : Sentinel → Exec S A → Exec S A
  or_missing missing = map_err (λ e. if is e no_rows then sentinel missing else e)

abbrev pub token_record : AuthToken → TokenRecord
token_record row = record {
  token_uuid = row.token_uuid;
  user_uuid = row.user_uuid;
  token_hash = row.token_hash;
  expires_at = row.expires_at;
  used_at = row.used_at;
}

abbrev pub invitation_record : AuthInvitationToken → InvitationTokenRecord
invitation_record row = record {
  token_uuid = row.token_uuid;
  email = row.email;
  role = row.role;
  token_hash = row.token_hash;
  expires_at = row.expires_at;
  used_at = row.used_at;
}
