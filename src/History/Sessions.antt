-- ===== src/History/Sessions.antt =====
-- Refresh tokens over time: a token that is used or revoked stays so, at the time and for the reason
-- that were written first, and no token changes hands, family or expiry.
use poc_hydra_auth.Prelude.{
  ℕ, ◌≡◌, refl, sym, subst, ◌∙◌, Bool, true, Option, none, some, List, ◌∷◌, arith, is_none,
}
use poc_hydra_auth.Errors.{Reason}
use poc_hydra_auth.World.{World, Env}
use poc_hydra_auth.Db.{Db, AuthRefreshToken}
use poc_hydra_auth.Db.RefreshTokens.{
  RefreshTokenRecord, inserted, mark_consumed, revoke, is_unrevoked, is_unrevoked_in_family,
  is_unrevoked_of_user, insert_refresh_token, mark_refresh_token_used, revoke_refresh_token_row,
  revoke_where, revoke_refresh_token_family_rows, revoke_refresh_tokens_by_user,
}
use poc_hydra_auth.Db.Tx.Atomic.{IsRetry}
use poc_hydra_auth.Service.{Request, run}
use poc_hydra_auth.Respects.{Preorder, Respects, Respects-statement, Respects-checked}
use poc_hydra_auth.Respects.Statements.{RespectsStatements}
use poc_hydra_auth.Respects.Disabling.{writes_and_disabling}
use poc_hydra_auth.Respects.Requests.{run_lem}
use poc_hydra_auth.Respects.Frames.{
  disable_frame, users_frame, emails_frame, resets_frame, invitations_frame,
}
use poc_hydra_auth.History.Kept.{Kept, Kept-refl, Kept-trans, Kept-unset}
use poc_hydra_auth.History.Grows.{Grows, enters, Grows-refl, Grows-trans, Grows-update_where}

-- How a token's revocation may change: not at all once it is there.
pub record Settles (t u : AuthRefreshToken) : Type 0 where
  pub settled :
      (a : ℕ)
      → t.revoked_at ≡ some a
      → (u.revoked_at ≡ some a) × (u.revocation_reason ≡ t.revocation_reason)
  pub unsettled :
      u.revoked_at ≡ none → (t.revoked_at ≡ none) × (u.revocation_reason ≡ t.revocation_reason)

pub record Wears (t u : AuthRefreshToken) : Type 0 where
  pub same_id : u.token_id ≡ t.token_id
  pub same_user : u.user_uuid ≡ t.user_uuid
  pub same_family : u.family_id ≡ t.family_id
  pub same_parent : u.parent_token_id ≡ t.parent_token_id
  pub same_hash : u.token_hash ≡ t.token_hash
  pub same_expiry : u.expires_at ≡ t.expires_at
  pub used : Kept t.used_at u.used_at
  pub revoked : Settles t u

pub Wears-refl : (t : AuthRefreshToken) → Wears t t
Wears-refl t = record {
  same_id = refl;
  same_user = refl;
  same_family = refl;
  same_parent = refl;
  same_hash = refl;
  same_expiry = refl;
  used = Kept-refl t.used_at;
  revoked = record { settled = λ a h. (h, refl); unsettled = λ h. (h, refl) };
}

pub Wears-trans : (t u v : AuthRefreshToken) → Wears t u → Wears u v → Wears t v
Wears-trans t u v h k = record {
  same_id = k.same_id ∙ h.same_id;
  same_user = k.same_user ∙ h.same_user;
  same_family = k.same_family ∙ h.same_family;
  same_parent = k.same_parent ∙ h.same_parent;
  same_hash = k.same_hash ∙ h.same_hash;
  same_expiry = k.same_expiry ∙ h.same_expiry;
  used = Kept-trans t.used_at u.used_at v.used_at h.used k.used;
  revoked = record {
    settled =
        λ a p. let q = h.revoked.settled a p in let r = k.revoked.settled a q.0 in (r.0, r.1 ∙ q.1);
    unsettled =
        λ p. let q = k.revoked.unsettled p in let r = h.revoked.unsettled q.0 in (r.0, q.1 ∙ r.1);
  };
}

-- A reason is there only beside the time of a revocation.
abbrev pub HasCause : AuthRefreshToken → Type 0
HasCause t = t.revoked_at ≡ none → t.revocation_reason ≡ none

pub HasCause-Wears : (t u : AuthRefreshToken) → HasCause t → Wears t u → HasCause u
HasCause-Wears t u h k e = let (p, q) = k.revoked.unsettled e in q ∙ h p

abbrev pub sessions : Preorder
sessions = record {
  rel = λ a b. Grows HasCause Wears a.refresh_tokens b.refresh_tokens;
  rel_refl = λ d. Grows-refl Wears-refl d.refresh_tokens;
  rel_trans = λ a b c g h. Grows-trans Wears-trans HasCause-Wears h g;
}

mark-Wears :
    (now : ℕ) (t : AuthRefreshToken) → is_none t.used_at ≡ true → Wears t (mark_consumed now t)
mark-Wears now t h = record {
  same_id = refl;
  same_user = refl;
  same_family = refl;
  same_parent = refl;
  same_hash = refl;
  same_expiry = refl;
  used = Kept-unset t.used_at _ h;
  revoked = record { settled = λ a p. (p, refl); unsettled = λ p. (p, refl) };
}

revoke-Wears :
    (now : ℕ) (reason : Option Reason) (t : AuthRefreshToken)
    → is_none t.revoked_at ≡ true
    → Wears t (revoke now reason t)
revoke-Wears now reason t h = record {
  same_id = refl;
  same_user = refl;
  same_family = refl;
  same_parent = refl;
  same_hash = refl;
  same_expiry = refl;
  used = Kept-refl t.used_at;
  revoked = record { settled = λ a p. ground arith; unsettled = λ p. absurd cc };
}

module _ {K : Type 0} (env : Env K) where
  used-sessions : (id : ℕ) → Respects sessions (mark_refresh_token_used env id)
  unfolding mark_refresh_token_used
  used-sessions id = Respects-statement env _ λ now db.
      Grows-update_where _ _ Wears-refl (λ t h. mark-Wears now t (ground arith)) db.refresh_tokens

  revoke_where-sessions :
      (p : AuthRefreshToken → Bool) (reason : Option Reason)
      → ((t : AuthRefreshToken) → p t ≡ true → is_none t.revoked_at ≡ true)
      → Respects sessions (revoke_where env p reason)
  unfolding revoke_where
  revoke_where-sessions p reason k = Respects-statement env _ λ now db.
      Grows-update_where _ _ Wears-refl (λ t h. revoke-Wears now reason t (k t h)) db.refresh_tokens

  insert-sessions : (new : RefreshTokenRecord) → Respects sessions (insert_refresh_token env new)
  unfolding insert_refresh_token
  insert-sessions new =
      Respects-checked env _ _ _
        (λ now db. record db { refresh_tokens = inserted now new ∷ db.refresh_tokens })
        λ now db h. enters (inserted now new) (λ e. refl) (sessions.rel_refl db)

  same : (a b : Db) → b.refresh_tokens ≡ a.refresh_tokens → sessions.rel a b
  same a b h = subst (Grows HasCause Wears a.refresh_tokens) (sym h) (sessions.rel_refl a)

  sessions-statements : IsRetry env → RespectsStatements env sessions
  unfolding revoke_refresh_token_row revoke_refresh_token_family_rows revoke_refresh_tokens_by_user
  sessions-statements laws = record {
    on_users = users_frame env (λ d. d.refresh_tokens) same (λ db x. refl) (λ db x. refl);
    on_emails = emails_frame env (λ d. d.refresh_tokens) same (λ db x. refl);
    on_resets = resets_frame env (λ d. d.refresh_tokens) same (λ db x. refl) laws;
    on_invitations = invitations_frame env (λ d. d.refresh_tokens) same (λ db x. refl) laws;
    on_sessions = record {
      refresh_in = insert-sessions;
      refresh_used = used-sessions;
      revoked = λ t r. revoke_where-sessions (is_unrevoked t) r (λ u h. ground arith);
      family_revoked =
          λ f r. revoke_where-sessions (is_unrevoked_in_family f) r (λ u h. ground arith);
      user_revoked = λ i r. revoke_where-sessions (is_unrevoked_of_user i) r (λ u h. ground arith);
    };
  }

  -- With backoff.Retry as documented, for every sequence of requests, every time and every answer
  -- of the services and of the database: each refresh token of the starting database is still
  -- there with the same token_id, user, family, parent, hash and expiry; once used_at is set it
  -- keeps its value, and once revoked_at is set it and revocation_reason keep theirs, while a
  -- token that is not revoked keeps its reason; and no new token has a reason without being revoked.
  pub sessions_history :
      (laws : IsRetry env) (rs : List (ℕ × K × Request)) (w : World K)
      → Grows HasCause Wears w.db.refresh_tokens (run env rs w).db.refresh_tokens
  sessions_history laws = run_lem env (
      writes_and_disabling env laws (disable_frame env (λ d. d.refresh_tokens) same (λ db x. refl))
        (sessions-statements laws))
