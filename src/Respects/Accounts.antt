-- ===== src/Respects/Accounts.antt =====
-- The handlers about accounts respect a preorder that the repository's writes respect.
use poc_hydra_auth.Prelude.{ℕ, String, Option, none, some, List}
use poc_hydra_auth.Domain.Status.{Status}
use poc_hydra_auth.World.{Env}
use poc_hydra_auth.Repo.Users.{UserCredentials}
use poc_hydra_auth.Command.RegisterAccount.{register_new, register_account}
use poc_hydra_auth.Command.VerifyEmail.{verify_email}
use poc_hydra_auth.Command.ResendEmailVerification.{
  resend_to, if_unverified, resend_email_verification,
}
use poc_hydra_auth.Command.ChangePassword.{change_with, change_for, change_password}
use poc_hydra_auth.Command.RequestPasswordReset.{send_reset, if_inactive, request_password_reset}
use poc_hydra_auth.Command.ConfirmPasswordReset.{confirm_password_reset}
use poc_hydra_auth.Command.InviteAdmin.{unless_registered, invite_admin}
use poc_hydra_auth.Command.AcceptInvitation.{accept_invitation}
use poc_hydra_auth.Command.ReactivateAccount.{
  reactivate_found, reactivate_target, reactivate_account,
}
use poc_hydra_auth.Lifecycle.{registration}
use poc_hydra_auth.Respects.{Preorder, Respects}
use poc_hydra_auth.Respects.Reads.{read_rules}
use poc_hydra_auth.Respects.Writes.{RespectsWrites}

module _ {K : Type 0} (env : Env K) {R : Preorder} (writes : RespectsWrites env R) where
  register_new-Respects : (email password : String) → Respects R (register_new env email password)
  unfolding register_new
  register_new-Respects email password = search (read_rules, registration, writes.creates) depth 12

  pub register_account-Respects :
      (email password : String) → Respects R (register_account env email password)
  unfolding register_account
  register_account-Respects email password = search (read_rules, register_new-Respects) depth 12

  pub verify_email-Respects : (token ip : String) → Respects R (verify_email env token ip)
  unfolding verify_email
  verify_email-Respects token ip = search (read_rules, writes.consumes) depth 12

  resend_to-Respects : (email : String) (user : ℕ) → Respects R (resend_to env email user)
  unfolding resend_to
  resend_to-Respects email user = search (read_rules, writes.reissues) depth 12

  if_unverified-Respects :
      (email : String) (user : Option (ℕ × Status)) → Respects R (if_unverified env email user)
  unfolding if_unverified
  if_unverified-Respects email none = search read_rules
  if_unverified-Respects email (some (user, status)) = search (read_rules, resend_to-Respects)

  pub resend_email_verification-Respects :
      (email : String) → Respects R (resend_email_verification env email)
  unfolding resend_email_verification
  resend_email_verification-Respects email = search (read_rules, if_unverified-Respects) depth 12

  change_with-Respects :
      (user : ℕ) (old new : String) (creds : Option UserCredentials)
      → Respects R (change_with env user old new creds)
  unfolding change_with
  change_with-Respects user old new none = search read_rules
  change_with-Respects user old new (some creds) =
      search (read_rules, writes.changes_password) depth 12

  change_for-Respects :
      (old new : String) (user : Option ℕ) → Respects R (change_for env old new user)
  unfolding change_for
  change_for-Respects old new none = search read_rules
  change_for-Respects old new (some user) = search (read_rules, change_with-Respects)

  pub change_password-Respects :
      (user old new : String) → Respects R (change_password env user old new)
  unfolding change_password
  change_password-Respects user old new = search (read_rules, change_for-Respects)

  send_reset-Respects : (email : String) (user : ℕ) → Respects R (send_reset env email user)
  unfolding send_reset
  send_reset-Respects email user = search (read_rules, writes.issues_reset) depth 12

  if_inactive-Respects :
      (email : String) (user : Option (ℕ × Status)) → Respects R (if_inactive env email user)
  unfolding if_inactive
  if_inactive-Respects email none = search read_rules
  if_inactive-Respects email (some (user, status)) = search (read_rules, send_reset-Respects)

  pub request_password_reset-Respects :
      (email : String) → Respects R (request_password_reset env email)
  unfolding request_password_reset
  request_password_reset-Respects email = search (read_rules, if_inactive-Respects) depth 12

  pub confirm_password_reset-Respects :
      (token new : String) → Respects R (confirm_password_reset env token new)
  unfolding confirm_password_reset
  confirm_password_reset-Respects token new = search (read_rules, writes.confirms_reset) depth 14

  unless_registered-Respects :
      (roles : Option (List String)) → Respects R (unless_registered env roles)
  unfolding unless_registered
  unless_registered-Respects none = search read_rules
  unless_registered-Respects (some roles) = search read_rules

  pub invite_admin-Respects : (email role : String) → Respects R (invite_admin env email role)
  unfolding invite_admin
  invite_admin-Respects email role =
      search (read_rules, unless_registered-Respects, writes.issues_invitation) depth 14

  pub accept_invitation-Respects :
      (token password : String) → Respects R (accept_invitation env token password)
  unfolding accept_invitation
  accept_invitation-Respects token password = search (read_rules, writes.accepts) depth 16

  reactivate_found-Respects :
      (user : ℕ) (account : Option (List String × Status))
      → Respects R (reactivate_found env user account)
  unfolding reactivate_found
  reactivate_found-Respects user none = search read_rules
  reactivate_found-Respects user (some (roles, status)) =
      search (read_rules, writes.reactivates) depth 8

  reactivate_target-Respects : (user : Option ℕ) → Respects R (reactivate_target env user)
  unfolding reactivate_target
  reactivate_target-Respects none = search read_rules
  reactivate_target-Respects (some user) = search (read_rules, reactivate_found-Respects)

  pub reactivate_account-Respects :
      (operator target : String) → Respects R (reactivate_account env operator target)
  unfolding reactivate_account
  reactivate_account-Respects operator target = reactivate_target-Respects _
