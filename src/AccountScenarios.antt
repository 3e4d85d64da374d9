-- ===== src/AccountScenarios.antt =====
-- Registration, confirmation of an address and acceptance of an invitation at the small service of
-- Scenarios.
use poc_hydra_auth.Prelude.{◌≡◌, refl, none, [], ◌∷◌}
use poc_hydra_auth.Exec.{ok, ◌>>=◌, guard}
use poc_hydra_auth.Domain.Status.{mail_unverified, role_operator}
use poc_hydra_auth.Domain.Validation.{validate_email, validate_password}
use poc_hydra_auth.Domain.Token.{hash_token, used, expired}
use poc_hydra_auth.Domain.Issue.{new_email_confirmation_token}
use poc_hydra_auth.Db.{AuthToken, AuthInvitationToken}
use poc_hydra_auth.Db.Users.{
  insert_user, insert_user_role, transition_user_status, get_user_by_email,
}
use poc_hydra_auth.Db.Tokens.{
  insert_email_confirmation_token, get_email_confirmation_token_by_hash,
  mark_email_confirmation_token_used, get_invitation_token_by_hash, mark_invitation_token_used,
  invalidate_active_invitation_tokens_by_email,
}
use poc_hydra_auth.Db.Tx.{update_in_tx, try_tx, update_in_tx_once}
use poc_hydra_auth.Repo.Rows.{if_found, absent_or, or_missing}
use poc_hydra_auth.Repo.Users.{create_user, email_exists}
use poc_hydra_auth.Repo.EmailTokens.{
  find_email_confirmation_token, consume_email_confirmation_token,
}
use poc_hydra_auth.Repo.Invitations.{
  find_invitation_token, find_user_roles_by_email, roles_of, accept_invitation_tx, insert_new_user,
}
use poc_hydra_auth.World.{
  World, allow, send, select_one, statement, rand_read, uuid_new, time_now, generate_from_password,
}
use poc_hydra_auth.Command.Steps.{within_rate_limit, deliver}
use poc_hydra_auth.Command.RegisterAccount.{register_account, register_new}
use poc_hydra_auth.Command.VerifyEmail.{verify_email}
use poc_hydra_auth.Command.AcceptInvitation.{accept_invitation}
use poc_hydra_auth.Success.Registration.{RegistersOnce, register_account_effect}
use poc_hydra_auth.Success.Verification.{Verified, verify_email_effect}
use poc_hydra_auth.Success.Invitations.{Accepted, accept_invitation_effect}
use poc_hydra_auth.Scenarios.{K, env, laws, world, user, retry}

abbrev confirmation_link : AuthToken
confirmation_link = record {
  token_uuid = 20;
  user_uuid = 1;
  token_hash = "mail";
  expires_at = 1000;
  used_at = none;
  created_at = 0;
}

abbrev invitation_link : AuthInvitationToken
invitation_link = record {
  token_uuid = 21;
  email = "c@example.org";
  role = role_operator;
  token_hash = "invited";
  expires_at = 1000;
  used_at = none;
  created_at = 0;
}

abbrev waiting : World K
waiting = record world {
  db = record world.db {
    users = record user { status = mail_unverified } ∷ [];
    email_confirmation_tokens = confirmation_link ∷ [];
    invitation_tokens = invitation_link ∷ [];
  };
}

registers_new : (register_account env "b@example.org" "another long password" waiting).0 ≡ ok tt
unfolding register_account within_rate_limit allow validate_email validate_password email_exists
    if_found absent_or get_user_by_email select_one statement register_new generate_from_password
    uuid_new new_email_confirmation_token rand_read time_now create_user insert_user
    insert_user_role insert_email_confirmation_token deliver send update_in_tx try_tx
    update_in_tx_once retry hash_token ◌>>=◌ guard
registers_new = refl

register_account_effect_example :
    RegistersOnce env laws "b@example.org" "another long password" waiting.db
      (register_account env "b@example.org" "another long password" waiting).1.db
register_account_effect_example =
    register_account_effect env laws "b@example.org" "another long password" waiting registers_new

verifies_address : (verify_email env "mail" "10.0.0.1" waiting).0 ≡ ok tt
unfolding verify_email within_rate_limit allow find_email_confirmation_token or_missing
    get_email_confirmation_token_by_hash select_one statement used expired time_now hash_token
    consume_email_confirmation_token mark_email_confirmation_token_used transition_user_status
    update_in_tx try_tx update_in_tx_once retry ◌>>=◌ guard
verifies_address = refl

verify_email_effect_example :
    Verified env laws "mail" waiting.now waiting.db
      (verify_email env "mail" "10.0.0.1" waiting).1.db
verify_email_effect_example =
    verify_email_effect env laws "mail" "10.0.0.1" waiting verifies_address

accepts_invitation : (accept_invitation env "invited" "another long password" waiting).0 ≡ ok tt
unfolding accept_invitation validate_password find_invitation_token or_missing
    get_invitation_token_by_hash select_one statement time_now hash_token find_user_roles_by_email
    if_found absent_or get_user_by_email roles_of generate_from_password accept_invitation_tx
    uuid_new mark_invitation_token_used invalidate_active_invitation_tokens_by_email insert_new_user
    insert_user insert_user_role update_in_tx try_tx update_in_tx_once retry ◌>>=◌ guard
accepts_invitation = refl

accept_invitation_effect_example :
    Accepted env laws "invited" "another long password" waiting.now waiting.db
      (accept_invitation env "invited" "another long password" waiting).1.db
accept_invitation_effect_example =
    accept_invitation_effect env laws "invited" "another long password" waiting accepts_invitation
