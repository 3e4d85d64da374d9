-- ===== src/History/Ended.antt =====
-- Sessions that a password reset, the disabling of an account or the reuse of a token ends: their refresh tokens are spent
-- for good.
use poc_hydra_auth.Prelude.{
  suc, none, false, true, ◌||◌, Bool, ltb, is_none, is_some, ℕ, String, ◌≡◌, refl, sym, ap, subst,
  ◌∙◌, some, Option, List, find?, str_eq, arith, update_where, inl, inr, Bool-cases, ==_iff,
}
use poc_hydra_auth.Errors.{Reason, session_revoked_error, token_reuse_detected}
use poc_hydra_auth.Exec.{ok, err}
use poc_hydra_auth.Domain.Token.{hash_token}
use poc_hydra_auth.World.{World, Env}
use poc_hydra_auth.Db.{AuthToken, AuthRefreshToken}
use poc_hydra_auth.Db.RefreshTokens.{revoke, is_unrevoked_of_user, is_unrevoked_in_family}
use poc_hydra_auth.Db.Tx.Atomic.{IsRetry}
use poc_hydra_auth.Command.Login.{IssuedTokens}
use poc_hydra_auth.Command.RefreshToken.{refresh}
use poc_hydra_auth.Command.ConfirmPasswordReset.{confirm_password_reset}
use poc_hydra_auth.Command.DisableAccount.{disable_account}
use poc_hydra_auth.Service.{Request, run}
use poc_hydra_auth.Success.Resets.{confirm_password_reset_effect}
use poc_hydra_auth.Success.Reuse.{reuse_revokes_family}
use poc_hydra_auth.Success.Disabling.{disable_account_effect}
use poc_hydra_auth.History.First.{FirstIs, FirstIs-update_where, found, reached}
use poc_hydra_auth.History.Replay.{has_hash, is_spent, Spent, revoked_spent, never_exchanged}

-- An UPDATE that revokes a token, unless it was revoked before, leaves it spent.
revoked_row :
    (hash : String) (p : AuthRefreshToken → Bool) (at : ℕ) (r : Option Reason)
    (xs : List AuthRefreshToken) (t : AuthRefreshToken)
    → find? (has_hash hash) xs ≡ some t
    → (is_none t.revoked_at ≡ true → p t ≡ true)
    → FirstIs (has_hash hash) is_spent (update_where p (revoke at r) xs)
revoked_row hash p at r xs t e own = elim (Bool-cases (is_spent t)) [
  | inl k ↦
      FirstIs-update_where p (revoke at r) (λ x. refl) (λ x _. revoked_spent at r x) xs
        (found xs t e k)
  | inr k ↦ reached p (revoke at r) (λ x. refl) xs t e (own (ground arith)) (revoked_spent at r t)
]

-- Revoking the tokens of a user leaves none of them unspent.
revoked_all :
    (hash : String) (u at : ℕ) (r : Option Reason) (xs : List AuthRefreshToken)
    (t : AuthRefreshToken)
    → find? (has_hash hash) xs ≡ some t
    → t.user_uuid ≡ u
    → FirstIs (has_hash hash) is_spent (update_where (is_unrevoked_of_user u) (revoke at r) xs)
revoked_all hash u at r xs t e own =
    revoked_row hash (is_unrevoked_of_user u) at r xs t e
      λ k. let same = (==_iff t.user_uuid u).1 own in rw (same, k) refl

module _ {K : Type 0} (env : Env K) where
  -- With backoff.Retry as documented: when confirm_password_reset has answered without error for a
  -- link, no refresh token that the link's user had before is answered with new tokens afterwards,
  -- for every sequence of requests in between, every time and every answer of the services and of
  -- the database.
  pub reset_ends_sessions :
      (laws : IsRetry env) (plain new : String) (w : World K) (link : AuthToken)
      → (confirm_password_reset env plain new w).0 ≡ ok tt
      → find? (λ t. str_eq t.token_hash (hash_token env.lib plain)) w.db.password_reset_tokens
        ≡ some link
      → (token : String) (t : AuthRefreshToken)
      → find? (λ t. str_eq t.token_hash (hash_token env.lib token)) w.db.refresh_tokens ≡ some t
      → t.user_uuid ≡ link.user_uuid
      → (rs : List (ℕ × K × Request)) (now : ℕ) (services : K) (answer : IssuedTokens)
      → ¬ (
          (refresh env token (record (run env rs (confirm_password_reset env plain new w).1) {
            now = now;
            services = services;
          })).0
          ≡ ok answer)
  reset_ends_sessions laws plain new w link h p token t q own =
      let e = confirm_password_reset_effect env laws plain new w h in
      let same : e.row ≡ link = let z = sym e.present ∙ p in cc in
      never_exchanged env laws token _ (
        subst (Spent (hash_token env.lib token)) (sym e.effect) (
          revoked_all (hash_token env.lib token) e.row.user_uuid e.at _ w.db.refresh_tokens t q
            (own ∙ ap (λ x. x.user_uuid) (sym same))))

  -- With backoff.Retry as documented: when disable_account has answered without error, no refresh
  -- token that the account had before is answered with new tokens afterwards, also once the account
  -- is active again, for every sequence of requests in between, every time and every answer of the
  -- services and of the database.
  pub disabling_ends_sessions :
      (laws : IsRetry env) (operator target : String) (id : ℕ) (w : World K)
      → (disable_account env operator target w).0 ≡ ok tt
      → env.lib.uuid_parse target ≡ some id
      → (token : String) (t : AuthRefreshToken)
      → find? (λ t. str_eq t.token_hash (hash_token env.lib token)) w.db.refresh_tokens ≡ some t
      → t.user_uuid ≡ id
      → (rs : List (ℕ × K × Request)) (now : ℕ) (services : K) (answer : IssuedTokens)
      → ¬ (
          (refresh env token (record (run env rs (disable_account env operator target w).1) {
            now = now;
            services = services;
          })).0
          ≡ ok answer)
  disabling_ends_sessions laws operator target id w h p token t q own =
      let e = disable_account_effect env laws operator target w h in
      let same : e.id ≡ id = let z = sym e.named ∙ p in cc in
      never_exchanged env laws token _ (
        subst (Spent (hash_token env.lib token)) (sym e.effect) (
          revoked_all (hash_token env.lib token) e.id e.at _ w.db.refresh_tokens t q
            (own ∙ sym same)))

  -- With backoff.Retry as documented: when a stored refresh token that is not expired but was used or
  -- revoked is presented, and the two statements on the way meet no failure, refresh answers that the
  -- session is revoked for token_reuse_detected; and no token that the same family had then is
  -- answered with new tokens afterwards, for every sequence of requests in between, every time and
  -- every answer of the services and of the database.
  pub reuse_ends_family :
      (laws : IsRetry env) (plain : String) (row : AuthRefreshToken) (w : World K)
      → str_eq plain "" ≡ false
      → find? (λ t. str_eq t.token_hash (hash_token env.lib plain)) w.db.refresh_tokens ≡ some row
      → ltb row.expires_at w.now ≡ false
      → is_some row.used_at || is_some row.revoked_at ≡ true
      → env.db_fault w.draws ≡ none
      → env.db_fault (suc w.draws) ≡ none
      → (token : String) (t : AuthRefreshToken)
      → find? (λ t. str_eq t.token_hash (hash_token env.lib token)) w.db.refresh_tokens ≡ some t
      → t.family_id ≡ row.family_id
      → (rs : List (ℕ × K × Request)) (now : ℕ) (services : K) (answer : IssuedTokens)
      → ((refresh env plain w).0 ≡ err (session_revoked_error token_reuse_detected))
        × ¬ (
            (refresh env token
              (record (run env rs (refresh env plain w).1) { now = now; services = services })).0
            ≡ ok answer)
  reuse_ends_family laws plain row w n p in_time reused f g token t q own rs now services answer =
      let (refused, effect) = reuse_revokes_family env plain row w n p in_time reused f g in
      let hash = hash_token env.lib token in
      (
        refused,
        never_exchanged env laws token _
            (subst (Spent hash) (sym effect) (
              revoked_row hash (is_unrevoked_in_family row.family_id) w.now _ w.db.refresh_tokens t
                q λ k. let same = (==_iff t.family_id row.family_id).1 own in rw (same, k) refl))
            rs now services answer,
      )
