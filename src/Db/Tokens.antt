-- ===== src/Db/Tokens.antt =====
-- dbmodels/email_confirmation_tokens.sql.go, password_reset_tokens.sql.go and
-- invitation_tokens.sql.go. The first two have the same statements on tables of the same columns.
use poc_hydra_auth.Prelude.{
  ℕ, String, Bool, ◌&&◌, ◌||◌, none, some, ◌∷◌, ◌==◌, str_eq, if◌then◌else◌, is_none, find?, any,
  count_where, update_where,
}
use poc_hydra_auth.Errors.{pg_error, unique_violation}
use poc_hydra_auth.Exec.{ok, err}
use poc_hydra_auth.Domain.Token.{NewToken}
use poc_hydra_auth.Db.{AuthToken, AuthInvitationToken}
use poc_hydra_auth.World.{M, Env, statement, select_one}

-- WHERE token_uuid = $1 AND used_at IS NULL
abbrev pub is_unused_token : ℕ → AuthToken → Bool
is_unused_token token_uuid t = t.token_uuid == token_uuid && is_none t.used_at

-- WHERE user_uuid = $1 AND used_at IS NULL
abbrev pub is_active_of : ℕ → AuthToken → Bool
is_active_of user_uuid t = t.user_uuid == user_uuid && is_none t.used_at

abbrev pub mark_used : ℕ → AuthToken → AuthToken
mark_used now t = record t { used_at = some now }

-- A row that breaks the primary key or the unique index on token_hash. No caller reads which of
-- the two it was, and the error names the table.
abbrev pub clashes : NewToken → AuthToken → Bool
clashes new t = t.token_uuid == new.token_uuid || str_eq t.token_hash new.hash

abbrev pub inserted_token : ℕ → ℕ → NewToken → AuthToken
inserted_token now user_uuid new = record {
  token_uuid = new.token_uuid;
  user_uuid = user_uuid;
  token_hash = new.hash;
  expires_at = new.expires_at;
  used_at = none;
  created_at = now;
}

-- WHERE token_uuid = $1 AND used_at IS NULL
abbrev pub is_unused_invitation : ℕ → AuthInvitationToken → Bool
is_unused_invitation token_uuid t = t.token_uuid == token_uuid && is_none t.used_at

-- WHERE email = $1 AND used_at IS NULL
abbrev pub is_active_for : String → AuthInvitationToken → Bool
is_active_for email t = str_eq t.email email && is_none t.used_at

abbrev pub mark_invitation_used : ℕ → AuthInvitationToken → AuthInvitationToken
mark_invitation_used now t = record t { used_at = some now }

abbrev pub clashes_with_invitation : NewToken → AuthInvitationToken → Bool
clashes_with_invitation new t = t.token_uuid == new.token_uuid || str_eq t.token_hash new.hash

abbrev pub inserted_invitation : ℕ → String → String → NewToken → AuthInvitationToken
inserted_invitation now email role new = record {
  token_uuid = new.token_uuid;
  email = email;
  role = role;
  token_hash = new.hash;
  expires_at = new.expires_at;
  used_at = none;
  created_at = now;
}

module _ {K : Type 0} (env : Env K) where
  unfoldable pub get_email_confirmation_token_by_hash : String → M K AuthToken
  get_email_confirmation_token_by_hash hash =
      select_one env (λ db. find? (λ t. str_eq t.token_hash hash) db.email_confirmation_tokens)

  unfoldable pub insert_email_confirmation_token : ℕ → NewToken → M K (Unit {0})
  insert_email_confirmation_token user_uuid new = statement env λ now db.
      if any (clashes new) db.email_confirmation_tokens
      then (err (pg_error (unique_violation "email_confirmation_tokens")), db)
      else (
        ok tt,
        record db {
          email_confirmation_tokens =
              inserted_token now user_uuid new ∷ db.email_confirmation_tokens;
        },
      )

  unfoldable pub mark_email_confirmation_token_used : ℕ → M K ℕ
  mark_email_confirmation_token_used token_uuid = statement env λ now db. (
    ok (count_where (is_unused_token token_uuid) db.email_confirmation_tokens),
    record db {
      email_confirmation_tokens =
          update_where (is_unused_token token_uuid) (mark_used now) db.email_confirmation_tokens;
    },
  )

  unfoldable pub invalidate_active_email_confirmation_tokens_by_user : ℕ → M K ℕ
  invalidate_active_email_confirmation_tokens_by_user user_uuid = statement env λ now db. (
    ok (count_where (is_active_of user_uuid) db.email_confirmation_tokens),
    record db {
      email_confirmation_tokens =
          update_where (is_active_of user_uuid) (mark_used now) db.email_confirmation_tokens;
    },
  )

  unfoldable pub get_password_reset_token_by_hash : String → M K AuthToken
  get_password_reset_token_by_hash hash =
      select_one env (λ db. find? (λ t. str_eq t.token_hash hash) db.password_reset_tokens)

  unfoldable pub insert_password_reset_token : ℕ → NewToken → M K (Unit {0})
  insert_password_reset_token user_uuid new = statement env λ now db.
      if any (clashes new) db.password_reset_tokens
      then (err (pg_error (unique_violation "password_reset_tokens")), db)
      else (
        ok tt,
        record db {
          password_reset_tokens = inserted_token now user_uuid new ∷ db.password_reset_tokens;
        },
      )

  unfoldable pub mark_password_reset_token_used : ℕ → M K ℕ
  mark_password_reset_token_used token_uuid = statement env λ now db. (
    ok (count_where (is_unused_token token_uuid) db.password_reset_tokens),
    record db {
      password_reset_tokens =
          update_where (is_unused_token token_uuid) (mark_used now) db.password_reset_tokens;
    },
  )

  unfoldable pub invalidate_active_password_reset_tokens_by_user : ℕ → M K ℕ
  invalidate_active_password_reset_tokens_by_user user_uuid = statement env λ now db. (
    ok (count_where (is_active_of user_uuid) db.password_reset_tokens),
    record db {
      password_reset_tokens =
          update_where (is_active_of user_uuid) (mark_used now) db.password_reset_tokens;
    },
  )

  unfoldable pub get_invitation_token_by_hash : String → M K AuthInvitationToken
  get_invitation_token_by_hash hash =
      select_one env (λ db. find? (λ t. str_eq t.token_hash hash) db.invitation_tokens)

  unfoldable pub insert_invitation_token : String → String → NewToken → M K (Unit {0})
  insert_invitation_token email role new = statement env λ now db.
      if any (clashes_with_invitation new) db.invitation_tokens
      then (err (pg_error (unique_violation "invitation_tokens")), db)
      else (
        ok tt,
        record db {
          invitation_tokens = inserted_invitation now email role new ∷ db.invitation_tokens;
        },
      )

  unfoldable pub mark_invitation_token_used : ℕ → M K ℕ
  mark_invitation_token_used token_uuid = statement env λ now db. (
    ok (count_where (is_unused_invitation token_uuid) db.invitation_tokens),
    record db {
      invitation_tokens =
          update_where (is_unused_invitation token_uuid) (mark_invitation_used now)
            db.invitation_tokens;
    },
  )

  unfoldable pub invalidate_active_invitation_tokens_by_email : String → M K ℕ
  invalidate_active_invitation_tokens_by_email email = statement env λ now db. (
    ok (count_where (is_active_for email) db.invitation_tokens),
    record db {
      invitation_tokens =
          update_where (is_active_for email) (mark_invitation_used now) db.invitation_tokens;
    },
  )
