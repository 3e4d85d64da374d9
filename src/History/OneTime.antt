-- ===== src/History/OneTime.antt =====
-- The one-time tokens of the e-mail links over time: a token that is used stays used.
use poc_hydra_auth.Prelude.{String, ℕ, ◌≡◌, refl, sym, subst, List, ◌∷◌, arith}
use poc_hydra_auth.Domain.Token.{NewToken}
use poc_hydra_auth.World.{World, Env}
use poc_hydra_auth.Db.{Db, AuthToken, AuthInvitationToken}
use poc_hydra_auth.Db.Tokens.{
  inserted_token, inserted_invitation, insert_email_confirmation_token,
  mark_email_confirmation_token_used, invalidate_active_email_confirmation_tokens_by_user,
  insert_password_reset_token, mark_password_reset_token_used,
  invalidate_active_password_reset_tokens_by_user, insert_invitation_token,
  mark_invitation_token_used, invalidate_active_invitation_tokens_by_email,
}
use poc_hydra_auth.Db.Tx.Atomic.{IsRetry}
use poc_hydra_auth.Service.{Request, run}
use poc_hydra_auth.Respects.Issues.{issue_reset-Respects, issue_invitation-Respects}
use poc_hydra_auth.Respects.{Respects, Preorder, Respects-statement, Respects-checked}
use poc_hydra_auth.Respects.Statements.{RespectsStatements, OnEmails, OnResets, OnInvitations}
use poc_hydra_auth.Respects.Disabling.{writes_and_disabling}
use poc_hydra_auth.Respects.Requests.{run_lem}
use poc_hydra_auth.Respects.Frames.{
  disable_frame, users_frame, emails_frame, resets_frame, invitations_frame, sessions_frame,
}
use poc_hydra_auth.History.Grows.{enters, Grows-refl, Grows-trans, Grows-update_where}
use poc_hydra_auth.History.Spent.{
  Spends-refl, Spends-trans, SpendsInvitation-refl, SpendsInvitation-trans, GrowsTokens,
  GrowsInvitations, tokens_enter, mark-Spends, mark-SpendsInvitation,
}

abbrev email_tokens : Preorder
email_tokens = record {
  rel = λ a b. GrowsTokens a.email_confirmation_tokens b.email_confirmation_tokens;
  rel_refl = λ d. Grows-refl Spends-refl d.email_confirmation_tokens;
  rel_trans = λ a b c g h. Grows-trans Spends-trans (λ x y n r. tt) h g;
}

abbrev reset_tokens : Preorder
reset_tokens = record {
  rel = λ a b. GrowsTokens a.password_reset_tokens b.password_reset_tokens;
  rel_refl = λ d. Grows-refl Spends-refl d.password_reset_tokens;
  rel_trans = λ a b c g h. Grows-trans Spends-trans (λ x y n r. tt) h g;
}

abbrev invitation_tokens : Preorder
invitation_tokens = record {
  rel = λ a b. GrowsInvitations a.invitation_tokens b.invitation_tokens;
  rel_refl = λ d. Grows-refl SpendsInvitation-refl d.invitation_tokens;
  rel_trans = λ a b c g h. Grows-trans SpendsInvitation-trans (λ x y n r. tt) h g;
}

module _ {K : Type 0} (env : Env K) where
  on_emails : OnEmails env email_tokens
  unfolding insert_email_confirmation_token mark_email_confirmation_token_used
      invalidate_active_email_confirmation_tokens_by_user
  on_emails = record {
    email_in = λ u new.
        Respects-checked env _ _ _
          (λ now db. record db {
            email_confirmation_tokens = inserted_token now u new ∷ db.email_confirmation_tokens;
          })
          (λ now db h. tokens_enter now u new db.email_confirmation_tokens);
    email_used = λ i. Respects-statement env _ λ now db.
        Grows-update_where _ _ Spends-refl (λ t h. mark-Spends now t (ground arith))
          db.email_confirmation_tokens;
    emails_used = λ i. Respects-statement env _ λ now db.
        Grows-update_where _ _ Spends-refl (λ t h. mark-Spends now t (ground arith))
          db.email_confirmation_tokens;
  }

  reset_in :
      (u : ℕ) (new : NewToken) → Respects reset_tokens (insert_password_reset_token env u new)
  unfolding insert_password_reset_token
  reset_in u new =
      Respects-checked env _ _ _
        (λ now db. record db {
          password_reset_tokens = inserted_token now u new ∷ db.password_reset_tokens;
        })
        (λ now db h. tokens_enter now u new db.password_reset_tokens)

  resets_used :
      (u : ℕ) → Respects reset_tokens (invalidate_active_password_reset_tokens_by_user env u)
  unfolding invalidate_active_password_reset_tokens_by_user
  resets_used u = Respects-statement env _ λ now db.
      Grows-update_where _ _ Spends-refl (λ t h. mark-Spends now t (ground arith))
        db.password_reset_tokens

  on_resets : IsRetry env → OnResets env reset_tokens
  unfolding mark_password_reset_token_used
  on_resets laws = record {
    reset_issued = issue_reset-Respects env laws resets_used reset_in;
    reset_used = λ i. Respects-statement env _ λ now db.
        Grows-update_where _ _ Spends-refl (λ t h. mark-Spends now t (ground arith))
          db.password_reset_tokens;
    resets_used = resets_used;
  }

  invitation_in :
      (email role : String) (new : NewToken)
      → Respects invitation_tokens (insert_invitation_token env email role new)
  unfolding insert_invitation_token
  invitation_in e r new =
      Respects-checked env _ _ _
        (λ now db. record db {
          invitation_tokens = inserted_invitation now e r new ∷ db.invitation_tokens;
        })
        (λ now db h. enters (inserted_invitation now e r new) tt (invitation_tokens.rel_refl db))

  invitations_used :
      (email : String)
      → Respects invitation_tokens (invalidate_active_invitation_tokens_by_email env email)
  unfolding invalidate_active_invitation_tokens_by_email
  invitations_used email = Respects-statement env _ λ now db.
      Grows-update_where _ _ SpendsInvitation-refl
        (λ t h. mark-SpendsInvitation now t (ground arith)) db.invitation_tokens

  on_invitations : IsRetry env → OnInvitations env invitation_tokens
  unfolding mark_invitation_token_used
  on_invitations laws = record {
    invitation_issued = issue_invitation-Respects env laws invitations_used invitation_in;
    invitation_used = λ i. Respects-statement env _ λ now db.
        Grows-update_where _ _ SpendsInvitation-refl
          (λ t h. mark-SpendsInvitation now t (ground arith)) db.invitation_tokens;
    invitations_used = invitations_used;
  }

  same_emails :
      (a b : Db) → b.email_confirmation_tokens ≡ a.email_confirmation_tokens → email_tokens.rel a b
  same_emails a b h =
      subst (GrowsTokens a.email_confirmation_tokens) (sym h) (email_tokens.rel_refl a)

  same_resets :
      (a b : Db) → b.password_reset_tokens ≡ a.password_reset_tokens → reset_tokens.rel a b
  same_resets a b h = subst (GrowsTokens a.password_reset_tokens) (sym h) (reset_tokens.rel_refl a)

  same_invitations :
      (a b : Db) → b.invitation_tokens ≡ a.invitation_tokens → invitation_tokens.rel a b
  same_invitations a b h =
      subst (GrowsInvitations a.invitation_tokens) (sym h) (invitation_tokens.rel_refl a)

  emails-statements : IsRetry env → RespectsStatements env email_tokens
  emails-statements laws =
      let t : Db → List AuthToken = (λ d. d.email_confirmation_tokens) in
      record {
        on_users = users_frame env t same_emails (λ db x. refl) (λ db x. refl);
        on_emails = on_emails;
        on_resets = resets_frame env t same_emails (λ db x. refl) laws;
        on_invitations = invitations_frame env t same_emails (λ db x. refl) laws;
        on_sessions = sessions_frame env t same_emails (λ db x. refl);
      }

  resets-statements : IsRetry env → RespectsStatements env reset_tokens
  resets-statements laws =
      let t : Db → List AuthToken = (λ d. d.password_reset_tokens) in
      record {
        on_users = users_frame env t same_resets (λ db x. refl) (λ db x. refl);
        on_emails = emails_frame env t same_resets (λ db x. refl);
        on_resets = on_resets laws;
        on_invitations = invitations_frame env t same_resets (λ db x. refl) laws;
        on_sessions = sessions_frame env t same_resets (λ db x. refl);
      }

  invitations-statements : IsRetry env → RespectsStatements env invitation_tokens
  invitations-statements laws =
      let t : Db → List AuthInvitationToken = (λ d. d.invitation_tokens) in
      record {
        on_users = users_frame env t same_invitations (λ db x. refl) (λ db x. refl);
        on_emails = emails_frame env t same_invitations (λ db x. refl);
        on_resets = resets_frame env t same_invitations (λ db x. refl) laws;
        on_invitations = on_invitations laws;
        on_sessions = sessions_frame env t same_invitations (λ db x. refl);
      }

  -- With backoff.Retry as documented, for every sequence of requests, every time and every answer
  -- of the services and of the database: each e-mail confirmation, password reset and invitation
  -- token of the starting database is still there with the same token_uuid, user (or e-mail and
  -- role), hash and expiry, and once its used_at is set it keeps its value.
  pub tokens_history :
      (laws : IsRetry env) (rs : List (ℕ × K × Request)) (w : World K)
      → GrowsTokens w.db.email_confirmation_tokens (run env rs w).db.email_confirmation_tokens
        × GrowsTokens w.db.password_reset_tokens (run env rs w).db.password_reset_tokens
        × GrowsInvitations w.db.invitation_tokens (run env rs w).db.invitation_tokens
  tokens_history laws rs w = (
    run_lem env
        (writes_and_disabling env laws
          (disable_frame env (λ d. d.email_confirmation_tokens) same_emails (λ db x. refl))
          (emails-statements laws))
        rs w,
    run_lem env
        (writes_and_disabling env laws
          (disable_frame env (λ d. d.password_reset_tokens) same_resets (λ db x. refl))
          (resets-statements laws))
        rs w,
    run_lem env
        (writes_and_disabling env laws
          (disable_frame env (λ d. d.invitation_tokens) same_invitations (λ db x. refl))
          (invitations-statements laws))
        rs w,
  )
