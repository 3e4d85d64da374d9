-- ===== src/Repo/Invitations.antt =====
-- invitation_tokens_repo.go
use poc_hydra_auth.Prelude.{ℕ, String, Option, none, some, List, ◌==◌, if◌then◌else◌}
use poc_hydra_auth.Errors.{
  sentinel, invitation_token_not_found, invitation_token_consume_conflict, email_already_registered,
  is_unique_violation,
}
use poc_hydra_auth.Exec.{◌>>=◌, ◌>>◌, pure, guard, map_err}
use poc_hydra_auth.Domain.Status.{inactive}
use poc_hydra_auth.Domain.Token.{NewToken, InvitationTokenRecord}
use poc_hydra_auth.World.{M, Env, uuid_new}
use poc_hydra_auth.Db.{AuthUser}
use poc_hydra_auth.Db.Users.{
  InsertUserParams, get_user_by_email, get_user_roles, insert_user, insert_user_role,
}
use poc_hydra_auth.Db.Tokens.{
  get_invitation_token_by_hash, insert_invitation_token, mark_invitation_token_used,
  invalidate_active_invitation_tokens_by_email,
}
use poc_hydra_auth.Db.Tx.{update_in_tx}
use poc_hydra_auth.Repo.Rows.{if_found, or_missing, invitation_record}

module _ {K : Type 0} (env : Env K) where
  unfoldable pub roles_of : Option AuthUser → M K (Option (List String))
  roles_of none = pure none
  roles_of (some row) = do roles ← get_user_roles env row.user_uuid; pure (some roles)

  -- FindUserRolesByEmail
  unfoldable pub find_user_roles_by_email : String → M K (Option (List String))
  unfolding roles_of
  find_user_roles_by_email email = do row ← if_found (get_user_by_email env email); roles_of row

  -- GetInvitationTokenByHash
  unfoldable pub find_invitation_token : String → M K InvitationTokenRecord
  find_invitation_token hash = do
    row ← or_missing invitation_token_not_found (get_invitation_token_by_hash env hash)
    pure (invitation_record row)

  -- IssueInvitationToken
  unfoldable pub issue_invitation_token :
      String → String → NewToken → M K (Unit {0}) → M K (Unit {0})
  issue_invitation_token email role token after_insert = update_in_tx env (do
    invalidate_active_invitation_tokens_by_email env email
    insert_invitation_token env email role token
    after_insert)

  -- if common.IsUniqueViolationError(err, "users_email_unique") { ... }
  unfoldable pub insert_new_user : InsertUserParams → M K (Unit {0})
  insert_new_user arg =
      map_err
        (λ e.
          if is_unique_violation e "users_email_unique"
          then sentinel email_already_registered
          else e)
        (insert_user env arg)

  -- AcceptInvitation of the repository
  unfoldable pub accept_invitation_tx : ℕ → String → String → String → M K ℕ
  accept_invitation_tx token_uuid email role password_hash = do
    user_uuid ← uuid_new env
    update_in_tx env (do
      rows ← mark_invitation_token_used env token_uuid
      guard (rows == 0) (sentinel invitation_token_consume_conflict)
      invalidate_active_invitation_tokens_by_email env email
      insert_new_user (record {
        user_uuid = user_uuid;
        email = email;
        password_hash = password_hash;
        status = inactive;
      })
      insert_user_role env user_uuid role)
    pure user_uuid
