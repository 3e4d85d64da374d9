-- ===== src/Command/AcceptInvitation.antt =====
-- accept_invitation.go (UC-012)
use poc_hydra_auth.Prelude.{String, ltb, is_some, if◌then◌else◌}
use poc_hydra_auth.Errors.{
  Err, is, sentinel, wrapped, invitation_token_not_found, invitation_token_consume_conflict,
  invalid_invitation_token, invitation_token_expired, email_already_registered,
}
use poc_hydra_auth.Exec.{◌>>=◌, ◌>>◌, pure, lift, guard, wrapping, map_err}
use poc_hydra_auth.Domain.Validation.{validate_password}
use poc_hydra_auth.Domain.Token.{hash_token, password_bcrypt_cost}
use poc_hydra_auth.World.{M, Env, generate_from_password, time_now}
use poc_hydra_auth.Repo.Invitations.{
  find_invitation_token, find_user_roles_by_email, accept_invitation_tx,
}

abbrev pub lookup_error : Err → Err
lookup_error e =
    if is e invitation_token_not_found
    then sentinel invalid_invitation_token
    else wrapped "could not look up invitation token" e

abbrev pub accept_error : Err → Err
accept_error e =
    if is e invitation_token_consume_conflict
    then sentinel invalid_invitation_token
    else if is e email_already_registered
    then sentinel email_already_registered
    else wrapped "invitation accept transaction failed" e

module _ {K : Type 0} (env : Env K) where
  -- Handle
  unfoldable pub accept_invitation : String → String → M K (Unit {0})
  accept_invitation plain_token password = do
    lift (validate_password password)
    rec ← map_err lookup_error (find_invitation_token env (hash_token env.lib plain_token))
    guard (is_some rec.used_at) (sentinel invalid_invitation_token)
    now ← time_now env
    guard (ltb rec.expires_at now) (sentinel invitation_token_expired)
    user ← wrapping "could not look up user" (find_user_roles_by_email env rec.email)
    guard (is_some user) (sentinel email_already_registered)
    hash ←
        wrapping "could not hash password"
          (generate_from_password env password password_bcrypt_cost)
    map_err accept_error (accept_invitation_tx env rec.token_uuid rec.email rec.role hash)
    pure tt
