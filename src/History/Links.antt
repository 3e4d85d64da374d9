-- ===== src/History/Links.antt =====
-- The links of password resets and invitations over any run: issuing one uses up the others.
use poc_hydra_auth.Prelude.{
  ℕ, String, ◌≡◌, refl, sym, ap, subst, ◌∙◌, Bool, true, false, List, ◌∷◌, any, update_where,
  if◌then◌else◌, arith, inl, inr,
}
use poc_hydra_auth.Exec.{Result, ok}
use poc_hydra_auth.Domain.Token.{NewToken}
use poc_hydra_auth.World.{World, M, Env}
use poc_hydra_auth.Service.{Request, run}
use poc_hydra_auth.Db.{Db, AuthToken, AuthInvitationToken}
use poc_hydra_auth.Db.Tokens.{
  is_active_of, is_active_for, mark_used, mark_invitation_used, clashes, clashes_with_invitation,
  inserted_token, inserted_invitation, is_unused_token, is_unused_invitation,
  insert_password_reset_token, mark_password_reset_token_used,
  invalidate_active_password_reset_tokens_by_user, insert_invitation_token,
  mark_invitation_token_used, invalidate_active_invitation_tokens_by_email,
}
use poc_hydra_auth.Db.Tx.{update_in_tx}
use poc_hydra_auth.Db.Tx.Atomic.{IsRetry, update_in_tx_atomic}
use poc_hydra_auth.Repo.ResetTokens.{issue_password_reset_token}
use poc_hydra_auth.Repo.Invitations.{issue_invitation_token}
use poc_hydra_auth.Respects.{Preorder, Respects, Respects-statement}
use poc_hydra_auth.Respects.Statements.{RespectsStatements, OnResets, OnInvitations}
use poc_hydra_auth.Respects.Disabling.{writes_and_disabling}
use poc_hydra_auth.Respects.Requests.{run_lem}
use poc_hydra_auth.Respects.Frames.{
  disable_frame, users_frame, emails_frame, resets_frame, invitations_frame, sessions_frame,
}
use poc_hydra_auth.Success.{Returns, Returns-intro}
use poc_hydra_auth.Success.Steps.{after_statement}
use poc_hydra_auth.History.Keyed.{Keyed, row}
use poc_hydra_auth.History.Single.{both_unused, both_open, Keyed-spent, used_up}

abbrev single_resets : Preorder
single_resets = record {
  rel =
      λ a b. Keyed both_unused a.password_reset_tokens → Keyed both_unused b.password_reset_tokens;
  rel_refl = λ d h. h;
  rel_trans = λ a b c f g h. g (f h);
}

abbrev single_invitations : Preorder
single_invitations = record {
  rel = λ a b. Keyed both_open a.invitation_tokens → Keyed both_open b.invitation_tokens;
  rel_refl = λ d h. h;
  rel_trans = λ a b c f g h. g (f h);
}

spent_left : (now : ℕ) (t u : AuthToken) → both_unused (mark_used now t) u ≡ false
spent_left now t u = refl

spent_right : (now : ℕ) (t u : AuthToken) → both_unused t (mark_used now u) ≡ false
spent_right now t u = ground arith

closed_left :
    (now : ℕ) (t u : AuthInvitationToken) → both_open (mark_invitation_used now t) u ≡ false
closed_left now t u = refl

closed_right :
    (now : ℕ) (t u : AuthInvitationToken) → both_open t (mark_invitation_used now u) ≡ false
closed_right now t u = ground arith

new_reset :
    (now u : ℕ) (new : NewToken) (y : AuthToken)
    → is_active_of u y ≡ false
    → both_unused (inserted_token now u new) y ≡ false
new_reset now u new y h = ground arith

new_invitation :
    (now : ℕ) (email role : String) (new : NewToken) (y : AuthInvitationToken)
    → is_active_for email y ≡ false
    → both_open (inserted_invitation now email role new) y ≡ false
new_invitation now email role new y h = ground arith

-- What an INSERT under a constraint did when it returned.
inserted_ok :
    {A : Type 0} (b : Bool) (x : Result A × Db) (d : Db) (a : A) {u : Db}
    → ((e : A) → x.0 ≡ ok e → ⊥)
    → (if b then x else (ok a, d)).0 ≡ ok a
    → u ≡ (if b then x else (ok a, d)).1
    → u ≡ d
inserted_ok true x d a raises h k = absurd (raises a h)
inserted_ok false x d a raises h k = k

module _ {K : Type 0} (env : Env K) where
  tx-Respects :
      {R : Preorder} (laws : IsRetry env) (fn : M K (Unit {0}))
      → ((v u : World K) → Returns fn v tt u → R.rel v.db u.db)
      → Respects R (update_in_tx env fn)
  tx-Respects {R} laws fn h = record {
    at = λ w. elim (update_in_tx_atomic env laws fn w) [
      | inl (e, p, q) ↦ subst (R.rel w.db) (sym q) (R.rel_refl w.db)
      | inr (v, p, q, s, t) ↦
          subst (R.rel w.db) (sym t)
            (subst (λ d. R.rel d (fn v).1.db) p (h v (fn v).1 (Returns-intro fn v tt q)))
    ];
  }

  reset_issued :
      (laws : IsRetry env) (u : ℕ) (new : NewToken) (m : M K (Unit {0}))
      → Respects single_resets m
      → Respects single_resets (issue_password_reset_token env u new m)
  unfolding issue_password_reset_token invalidate_active_password_reset_tokens_by_user
      insert_password_reset_token
  reset_issued laws u new m km = tx-Respects laws _ λ v x r k.
      after_statement env _ _ r λ a y h1 d1 n1 r1. after_statement env _ _ r1 λ b z h2 d2 n2 r2.
        let d =
          inserted_ok (any (clashes new) y.db.password_reset_tokens) _ _ tt (λ e f. cc) h2 d2 in
        let old = update_where (is_active_of u) (mark_used v.now) v.db.password_reset_tokens in
        let e : z.db.password_reset_tokens ≡ inserted_token y.now u new ∷ old =
          ap (λ t. t.password_reset_tokens) d
          ∙ ap (λ t. inserted_token y.now u new ∷ t.password_reset_tokens) d1 in
        let keyed = subst (Keyed both_unused) (sym e) (
          row (inserted_token y.now u new)
            (used_up both_unused (is_active_of u) (mark_used v.now) (spent_left v.now)
              (spent_right v.now) (inserted_token y.now u new) (new_reset y.now u new)
              v.db.password_reset_tokens)
            (Keyed-spent both_unused (is_active_of u) (mark_used v.now) (spent_left v.now)
              (spent_right v.now) v.db.password_reset_tokens k)) in
        subst (λ t. Keyed both_unused t.1.db.password_reset_tokens) r2.returned (km.at z keyed)

  invitation_issued :
      (laws : IsRetry env) (email role : String) (new : NewToken) (m : M K (Unit {0}))
      → Respects single_invitations m
      → Respects single_invitations (issue_invitation_token env email role new m)
  unfolding issue_invitation_token invalidate_active_invitation_tokens_by_email
      insert_invitation_token
  invitation_issued laws email role new m km = tx-Respects laws _ λ v x r k.
      after_statement env _ _ r λ a y h1 d1 n1 r1. after_statement env _ _ r1 λ b z h2 d2 n2 r2.
        let d =
          inserted_ok (any (clashes_with_invitation new) y.db.invitation_tokens) _ _ tt (λ e f. cc)
            h2 d2 in
        let fresh = inserted_invitation y.now email role new in
        let close = mark_invitation_used v.now in
        let old = update_where (is_active_for email) close v.db.invitation_tokens in
        let e : z.db.invitation_tokens ≡ fresh ∷ old =
          ap (λ t. t.invitation_tokens) d ∙ ap (λ t. fresh ∷ t.invitation_tokens) d1 in
        let keyed = subst (Keyed both_open) (sym e) (
          row fresh
            (used_up both_open (is_active_for email) close (closed_left v.now) (closed_right v.now)
              fresh (new_invitation y.now email role new) v.db.invitation_tokens)
            (Keyed-spent both_open (is_active_for email) close (closed_left v.now)
              (closed_right v.now) v.db.invitation_tokens k)) in
        subst (λ t. Keyed both_open t.1.db.invitation_tokens) r2.returned (km.at z keyed)

  on_resets : IsRetry env → OnResets env single_resets
  unfolding mark_password_reset_token_used invalidate_active_password_reset_tokens_by_user
  on_resets laws = record {
    reset_issued = reset_issued laws;
    reset_used = λ t. Respects-statement env _ λ now db k.
        Keyed-spent both_unused (is_unused_token t) (mark_used now) (spent_left now)
          (spent_right now) db.password_reset_tokens k;
    resets_used = λ u. Respects-statement env _ λ now db k.
        Keyed-spent both_unused (is_active_of u) (mark_used now) (spent_left now) (spent_right now)
          db.password_reset_tokens k;
  }

  on_invitations : IsRetry env → OnInvitations env single_invitations
  unfolding mark_invitation_token_used invalidate_active_invitation_tokens_by_email
  on_invitations laws = record {
    invitation_issued = invitation_issued laws;
    invitation_used = λ t. Respects-statement env _ λ now db k.
        Keyed-spent both_open (is_unused_invitation t) (mark_invitation_used now) (closed_left now)
          (closed_right now) db.invitation_tokens k;
    invitations_used = λ email. Respects-statement env _ λ now db k.
        Keyed-spent both_open (is_active_for email) (mark_invitation_used now) (closed_left now)
          (closed_right now) db.invitation_tokens k;
  }

  same_resets :
      (a b : Db) → b.password_reset_tokens ≡ a.password_reset_tokens → single_resets.rel a b
  same_resets a b h k = subst (Keyed both_unused) (sym h) k

  same_invitations :
      (a b : Db) → b.invitation_tokens ≡ a.invitation_tokens → single_invitations.rel a b
  same_invitations a b h k = subst (Keyed both_open) (sym h) k

  resets-statements : IsRetry env → RespectsStatements env single_resets
  resets-statements laws =
      let t : Db → List AuthToken = λ d. d.password_reset_tokens in
      record {
        on_users = users_frame env t same_resets (λ db x. refl) (λ db x. refl);
        on_emails = emails_frame env t same_resets (λ db x. refl);
        on_resets = on_resets laws;
        on_invitations = invitations_frame env t same_resets (λ db x. refl) laws;
        on_sessions = sessions_frame env t same_resets (λ db x. refl);
      }

  invitations-statements : IsRetry env → RespectsStatements env single_invitations
  invitations-statements laws =
      let t : Db → List AuthInvitationToken = λ d. d.invitation_tokens in
      record {
        on_users = users_frame env t same_invitations (λ db x. refl) (λ db x. refl);
        on_emails = emails_frame env t same_invitations (λ db x. refl);
        on_resets = resets_frame env t same_invitations (λ db x. refl) laws;
        on_invitations = on_invitations laws;
        on_sessions = sessions_frame env t same_invitations (λ db x. refl);
      }

  -- With backoff.Retry as documented, for every sequence of requests, every time and every answer of
  -- the services and of the database: from a database in which no user has two unused password reset
  -- tokens, expired or not, and no address two unused invitations, the run leads to such a database.
  pub one_link_each :
      (laws : IsRetry env) (rs : List (ℕ × K × Request)) (w : World K)
      → Keyed both_unused w.db.password_reset_tokens
      → Keyed both_open w.db.invitation_tokens
      → Keyed both_unused (run env rs w).db.password_reset_tokens
        × Keyed both_open (run env rs w).db.invitation_tokens
  one_link_each laws rs w h k = (
    run_lem env
        (writes_and_disabling env laws
          (disable_frame env (λ d. d.password_reset_tokens) same_resets (λ db x. refl))
          (resets-statements laws))
        rs w h,
    run_lem env
        (writes_and_disabling env laws
          (disable_frame env (λ d. d.invitation_tokens) same_invitations (λ db x. refl))
          (invitations-statements laws))
        rs w k,
  )
