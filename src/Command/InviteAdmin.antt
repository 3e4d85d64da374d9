-- ===== src/Command/InviteAdmin.antt =====
-- invite_admin.go (UC-011)
use poc_hydra_auth.Prelude.{String, Option, none, some, List, if◌then◌else◌}
use poc_hydra_auth.Errors.{sentinel, role_already_assigned, email_already_registered}
use poc_hydra_auth.Exec.{◌>>=◌, ◌>>◌, pure, raise, lift, wrapping, map_err}
use poc_hydra_auth.Domain.Status.{validate_admin_role}
use poc_hydra_auth.Domain.Validation.{validate_email}
use poc_hydra_auth.Domain.Issue.{new_invitation_token}
use poc_hydra_auth.World.{M, Env, invite_limiter, invitation}
use poc_hydra_auth.Repo.Invitations.{find_user_roles_by_email, issue_invitation_token}
use poc_hydra_auth.Command.Steps.{within_rate_limit, deliver, after_mail, has_admin_role}

module _ {K : Type 0} (env : Env K) where
  -- The loop over the roles of a user who exists, and the lines below it.
  unfoldable pub unless_registered : Option (List String) → M K (Unit {0})
  unless_registered none = pure tt
  unless_registered (some roles) =
      if has_admin_role roles
      then raise (sentinel role_already_assigned)
      else raise (sentinel email_already_registered)

  -- Handle
  unfoldable pub invite_admin : String → String → M K (Unit {0})
  invite_admin email role = do
    within_rate_limit env invite_limiter email
    lift (validate_email env.lib email)
    lift (validate_admin_role role)
    user ← wrapping "could not look up user" (find_user_roles_by_email env email)
    unless_registered user
    (plain_token, token) ← wrapping "could not generate invitation token" (new_invitation_token env)
    map_err (after_mail "could not issue invitation token")
        (issue_invitation_token env email role token (deliver env invitation email plain_token))
