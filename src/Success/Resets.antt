-- ===== src/Success/Resets.antt =====
-- What a password reset has done when it returns.
use poc_hydra_auth.Prelude.{
  ℕ, String, ◌≡◌, refl, sym, ap, ◌∙◌, false, some, ◌==◌, str_eq, ltb, find?, is_some, update_where,
  count_where,
}
use poc_hydra_auth.Exec.{ok}
use poc_hydra_auth.Domain.Validation.{validate_password}
use poc_hydra_auth.Domain.Token.{hash_token, used, expired, password_bcrypt_cost}
use poc_hydra_auth.World.{World, Env}
use poc_hydra_auth.Db.{Db, AuthToken}
use poc_hydra_auth.Db.Users.{is_user, update_user_password}
use poc_hydra_auth.Db.Tokens.{
  is_unused_token, is_active_of, mark_used, mark_password_reset_token_used,
  invalidate_active_password_reset_tokens_by_user, get_password_reset_token_by_hash,
}
use poc_hydra_auth.Db.RefreshTokens.{revoke_where, revoke_refresh_tokens_by_user}
use poc_hydra_auth.Db.Tx.Atomic.{IsRetry}
use poc_hydra_auth.Repo.ResetTokens.{confirm_password_reset_tx, find_password_reset_token}
use poc_hydra_auth.Command.ConfirmPasswordReset.{confirm_password_reset}
use poc_hydra_auth.Success.{Returns, Returns-intro, map_err_ok, pure_ok, statement_ok}
use poc_hydra_auth.Success.Services.{generate_ok}
use poc_hydra_auth.Success.Steps.{
  after, after_wrapping, after_lift, after_guard, after_statement, after_found, after_now,
  on_commit,
}
use poc_hydra_auth.Success.Passwords.{changed_db}

-- The token is used, and so is every other one of the user that was not; then the password changes.
abbrev pub reset_db : ℕ → ℕ → String → ℕ → Db → Db
reset_db user token hash at a = changed_db user hash at (record a {
  password_reset_tokens =
      update_where (is_active_of user) (mark_used at)
        (update_where (is_unused_token token) (mark_used at) a.password_reset_tokens);
})

module _ {K : Type 0} (env : Env K) (laws : IsRetry env) where
  confirm_tx_ok :
      (id token : ℕ) (hash : String) {w v : World K}
      → Returns (confirm_password_reset_tx env id token hash) w tt v
      → (at : ℕ) × (v.db ≡ reset_db id token hash at w.db)
        × (count_where (is_user id) w.db.users == 0 ≡ false)
  unfolding confirm_password_reset_tx mark_password_reset_token_used
      invalidate_active_password_reset_tokens_by_user update_user_password
      revoke_refresh_tokens_by_user revoke_where
  confirm_tx_ok id token hash h = on_commit env laws _ h λ x y e k e'.
      after_statement env _ _ k λ n u _ d t k. after_guard (n == 0) _ _ k λ z k.
        after_statement env _ _ k λ m u' _ d' t' k. after_statement env _ _ k λ m' u'' c3 d'' t'' k.
          after_guard (m' == 0) _ _ k λ z' k.
            let (s, c, r) = statement_ok env _ k in
            (
              x.now,
              rw (e', c, d'', d', d, t'', t', t, e) refl,
              (let c : count_where (is_user id) u'.db.users ≡ m' = cc in
                  ap (λ a. count_where (is_user id) a.users == 0) (sym e)
                  ∙ ap (λ a. count_where (is_user id) a == 0)
                      (sym (ap (λ a. a.users) d' ∙ ap (λ a. a.users) d))
                  ∙ ap (λ n. n == 0) c
                  ∙ z'),
            )

  -- What confirm_password_reset has done: the link's token was there, unused and in time, the new
  -- password is valid, and its user, who is there, has it now.
  pub record Confirmed (plain new : String) (now : ℕ) (a b : Db) : Type 0 where
    pub row : AuthToken
    pub present :
        find? (λ t. str_eq t.token_hash (hash_token env.lib plain)) a.password_reset_tokens
        ≡ some row
    pub unused : is_some row.used_at ≡ false
    pub in_time : ltb row.expires_at now ≡ false
    pub valid : validate_password new ≡ ok tt
    pub hash : String
    pub hashed : (n : ℕ) × (env.generate_from_password n new password_bcrypt_cost ≡ some hash)
    pub updated : count_where (is_user row.user_uuid) a.users == 0 ≡ false
    pub at : ℕ
    pub effect : b ≡ reset_db row.user_uuid row.token_uuid hash at a

  -- With backoff.Retry as documented: whenever confirm_password_reset returns without error, a
  -- reset token with the hash of the given plain token was there, unused and not expired; the new
  -- password is valid; and the database is the old one, but that this token and every other unused
  -- reset token of its user are used, the user's row, which is there and not deleted, holds a bcrypt
  -- hash of the new password, and every refresh token of the user that was not revoked, and no other, is revoked with the reason
  -- password_changed.
  pub confirm_password_reset_effect :
      (plain new : String) (w : World K)
      → (confirm_password_reset env plain new w).0 ≡ ok tt
      → Confirmed plain new w.now w.db (confirm_password_reset env plain new w).1.db
  unfolding confirm_password_reset find_password_reset_token get_password_reset_token_by_hash used
      expired
  confirm_password_reset_effect plain new w h =
      after_lift _ (Returns-intro (confirm_password_reset env plain new) w tt h) λ _ valid k.
        after _ _ k λ rec u g k. after_found env _ _ _ (map_err_ok _ g) λ row x present d n g.
          let (r, e) = pure_ok g in
          after_guard (is_some rec.used_at) _ _ k λ unused k. after_now env _ k λ k.
            after_guard (ltb rec.expires_at u.now) _ _ k λ in_time k.
              after_wrapping _ _ _ k λ hash y g k.
                let (draw, made, d') = generate_ok env g in
                let (at, e', updated) =
                  confirm_tx_ok rec.user_uuid rec.token_uuid hash (map_err_ok _ k) in
                let same : y.db ≡ w.db = d' ∙ ap (λ z. z.db) (sym e) ∙ d in
                record {
                  row = row;
                  present = present;
                  unused = ap (λ z. is_some z.used_at) r ∙ unused;
                  in_time =
                      ap (λ z. ltb z.expires_at w.now) r
                      ∙ ap (ltb rec.expires_at) (sym n ∙ ap (λ z. z.now) e)
                      ∙ in_time;
                  valid = valid;
                  hash = hash;
                  hashed = (draw, made);
                  updated =
                      ap (λ z. count_where (is_user z.user_uuid) w.db.users == 0) r
                      ∙ ap (λ z. count_where (is_user rec.user_uuid) z.users == 0) (sym same)
                      ∙ updated;
                  at = at;
                  effect =
                      e'
                      ∙ ap (reset_db rec.user_uuid rec.token_uuid hash at) same
                      ∙ ap (λ z. reset_db z.user_uuid z.token_uuid hash at w.db) (sym r);
                }
