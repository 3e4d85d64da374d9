-- ===== src/History/Replay.antt =====
-- Replay of a refresh token: the hash of a token that was exchanged is spent for good.
use poc_hydra_auth.Prelude.{
  ℕ, String, ◌≡◌, refl, sym, subst, ◌∙◌, Bool, true, false, ◌||◌, Option, List, ◌∷◌, str_eq, eq_iff,
  is_some, arith, ==_iff,
}
use poc_hydra_auth.Errors.{Reason}
use poc_hydra_auth.Exec.{ok}
use poc_hydra_auth.Domain.Token.{hash_token}
use poc_hydra_auth.World.{World, Env}
use poc_hydra_auth.Db.{Db, AuthRefreshToken}
use poc_hydra_auth.Db.RefreshTokens.{
  RefreshTokenRecord, inserted, mark_consumed, revoke, is_unused, clashes_with,
  insert_refresh_token, mark_refresh_token_used, revoke_refresh_token_row, revoke_where,
  revoke_refresh_token_family_rows, revoke_refresh_tokens_by_user,
}
use poc_hydra_auth.Db.Tx.Atomic.{IsRetry}
use poc_hydra_auth.Command.Login.{IssuedTokens}
use poc_hydra_auth.Command.RefreshToken.{refresh}
use poc_hydra_auth.Service.{Request, run}
use poc_hydra_auth.Respects.{Preorder, Respects, Respects-statement, Respects-checked}
use poc_hydra_auth.Respects.Statements.{RespectsStatements}
use poc_hydra_auth.Respects.Disabling.{writes_and_disabling}
use poc_hydra_auth.Respects.Requests.{run_lem}
use poc_hydra_auth.Respects.Frames.{
  disable_frame, users_frame, emails_frame, resets_frame, invitations_frame,
}
use poc_hydra_auth.Repo.RefreshTokens.{stored_token}
use poc_hydra_auth.Success.Rotation.{successor}
use poc_hydra_auth.Success.Refresh.{Refreshed, refresh_effect}
use poc_hydra_auth.History.First.{
  FirstIs, below, FirstIs-find?, FirstIs-update_where, lets_in, reached,
}

abbrev pub has_hash : String → AuthRefreshToken → Bool
has_hash hash t = str_eq t.token_hash hash

-- The test of RefreshTokenHandler.Handle for a token that was used or revoked before.
abbrev pub is_spent : AuthRefreshToken → Bool
is_spent t = is_some t.used_at || is_some t.revoked_at

-- The hash is that of a stored token, and the one that a SELECT finds is spent.
abbrev pub Spent : String → Db → Type 0
Spent hash db = FirstIs (has_hash hash) is_spent db.refresh_tokens

abbrev spending : String → Preorder
spending hash = record {
  rel = λ a b. Spent hash a → Spent hash b;
  rel_refl = λ d h. h;
  rel_trans = λ a b c f g h. g (f h);
}

clash :
    (hash : String) (now : ℕ) (new : RefreshTokenRecord) (t : AuthRefreshToken)
    → has_hash hash t ≡ true
    → has_hash hash (inserted now new) ≡ true
    → clashes_with new t ≡ true
clash hash now new t h k =
    let e =
      (eq_iff t.token_hash new.token_hash).1
        ((eq_iff t.token_hash hash).0 h ∙ sym ((eq_iff new.token_hash hash).0 k)) in
    ground arith

marked_spent : (now : ℕ) (t : AuthRefreshToken) → is_spent (mark_consumed now t) ≡ true
marked_spent now t = refl

pub revoked_spent :
    (now : ℕ) (r : Option Reason) (t : AuthRefreshToken) → is_spent (revoke now r t) ≡ true
revoked_spent now r t = ground arith

pub unspent : (t : AuthRefreshToken) → is_spent t ≡ false → is_unused t.token_id t ≡ true
unspent t h = let e = (==_iff t.token_id t.token_id).1 refl in ground arith

module _ {K : Type 0} (env : Env K) where
  module _ (hash : String) where
    insert-spending :
        (new : RefreshTokenRecord) → Respects (spending hash) (insert_refresh_token env new)
    unfolding insert_refresh_token
    insert-spending new =
        Respects-checked env _ _ _
          (λ now db. record db { refresh_tokens = inserted now new ∷ db.refresh_tokens })
          λ now db free h.
            below (inserted now new)
              (lets_in (clashes_with new) (inserted now new) (clash hash now new) db.refresh_tokens
                h free)
              h

    used-spending : (id : ℕ) → Respects (spending hash) (mark_refresh_token_used env id)
    unfolding mark_refresh_token_used
    used-spending id = Respects-statement env _ λ now db h.
        FirstIs-update_where (is_unused id) (mark_consumed now) (λ x. refl)
          (λ x _. marked_spent now x) db.refresh_tokens h

    revoke_where-spending :
        (p : AuthRefreshToken → Bool) (reason : Option Reason)
        → Respects (spending hash) (revoke_where env p reason)
    unfolding revoke_where
    revoke_where-spending p reason = Respects-statement env _ λ now db h.
        FirstIs-update_where p (revoke now reason) (λ x. refl) (λ x _. revoked_spent now reason x)
          db.refresh_tokens h

    same : (a b : Db) → b.refresh_tokens ≡ a.refresh_tokens → (spending hash).rel a b
    same a b h k = subst (FirstIs (has_hash hash) is_spent) (sym h) k

    spending-statements : IsRetry env → RespectsStatements env (spending hash)
    unfolding revoke_refresh_token_row revoke_refresh_token_family_rows
        revoke_refresh_tokens_by_user
    spending-statements laws =
        let t : Db → List AuthRefreshToken = λ d. d.refresh_tokens in
        record {
          on_users = users_frame env t same (λ db x. refl) (λ db x. refl);
          on_emails = emails_frame env t same (λ db x. refl);
          on_resets = resets_frame env t same (λ db x. refl) laws;
          on_invitations = invitations_frame env t same (λ db x. refl) laws;
          on_sessions = record {
            refresh_in = insert-spending;
            refresh_used = used-spending;
            revoked = λ t r. revoke_where-spending _ r;
            family_revoked = λ f r. revoke_where-spending _ r;
            user_revoked = λ i r. revoke_where-spending _ r;
          };
        }

    run-Spent :
        (laws : IsRetry env) (rs : List (ℕ × K × Request)) (w : World K)
        → Spent hash w.db
        → Spent hash (run env rs w).db
    run-Spent laws rs w =
        run_lem env
          (writes_and_disabling env laws
            (disable_frame env (λ d. d.refresh_tokens) same (λ db x. refl))
            (spending-statements laws))
          rs w

  exchanged-Spent :
      (laws : IsRetry env) (plain : String) (answer : IssuedTokens) (now : ℕ) (a b : Db)
      → Refreshed env laws plain answer now a b
      → Spent (hash_token env.lib plain) b
  exchanged-Spent laws plain answer now a b e =
      let new : RefreshTokenRecord =
        successor env laws (stored_token e.row) e.id now
          (hash_token env.lib answer.refresh_token) in
      let left =
        reached (is_unused e.row.token_id) (mark_consumed e.at) (λ x. refl) a.refresh_tokens e.row
          e.present (unspent e.row e.live) refl in
      let entered =
        lets_in (clashes_with new) (inserted e.at new) (clash (hash_token env.lib plain) e.at new) _
          left e.rotated.unclashed in
      subst (Spent (hash_token env.lib plain)) (sym e.rotated.effect)
        (below (inserted e.at new) entered left)

  -- A token whose hash is spent is not exchanged, whatever is served first.
  pub never_exchanged :
      (laws : IsRetry env) (plain : String) (w : World K)
      → Spent (hash_token env.lib plain) w.db
      → (rs : List (ℕ × K × Request)) (now : ℕ) (services : K) (answer : IssuedTokens)
      → ¬ (
          (refresh env plain (record (run env rs w) { now = now; services = services })).0
          ≡ ok answer)
  never_exchanged laws plain w h rs now services answer k =
      let e = refresh_effect env laws plain answer _ k in
      let spent = run-Spent (hash_token env.lib plain) laws rs w h in
      absurd (let z = sym (FirstIs-find? _ e.row spent e.present) ∙ e.live in cc)

  -- With backoff.Retry as documented, for every sequence of requests, every time and every answer of
  -- the services and of the database: once refresh has answered a refresh token with new tokens, it
  -- does not answer that refresh token with tokens again, whatever requests are served in between.
  pub exchanged_once :
      (laws : IsRetry env) (plain : String) (first : IssuedTokens) (w : World K)
      → (refresh env plain w).0 ≡ ok first
      → (rs : List (ℕ × K × Request)) (now : ℕ) (services : K) (again : IssuedTokens)
      → ¬ (
          (refresh env plain
            (record (run env rs (refresh env plain w).1) { now = now; services = services })).0
          ≡ ok again)
  exchanged_once laws plain first w h rs now services again =
      never_exchanged laws plain _
        (exchanged-Spent laws plain first w.now w.db _ (refresh_effect env laws plain first w h)) rs
        now services again
