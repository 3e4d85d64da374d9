-- ===== src/Success/Verification.antt =====
-- What the confirmation of an e-mail address has done when it returns.
use poc_hydra_auth.Prelude.{
  ℕ, String, ◌≡◌, refl, sym, ap, ◌∙◌, false, some, ◌==◌, str_eq, ltb, find?, is_some, count_where,
  update_where,
}
use poc_hydra_auth.Exec.{ok}
use poc_hydra_auth.Domain.Status.{inactive, mail_unverified}
use poc_hydra_auth.Domain.Token.{hash_token, used, expired}
use poc_hydra_auth.World.{World, Env, verify_limiter}
use poc_hydra_auth.Db.{Db, AuthToken}
use poc_hydra_auth.Db.Users.{in_status, transition_user_status}
use poc_hydra_auth.Db.Tokens.{
  is_unused_token, mark_used, mark_email_confirmation_token_used,
  get_email_confirmation_token_by_hash,
}
use poc_hydra_auth.Db.Tx.Atomic.{IsRetry}
use poc_hydra_auth.Repo.EmailTokens.{
  consume_email_confirmation_token, find_email_confirmation_token,
}
use poc_hydra_auth.Command.VerifyEmail.{verify_email}
use poc_hydra_auth.Success.{Returns, Returns-intro, map_err_ok, pure_ok, guard_ok}
use poc_hydra_auth.Success.Services.{within_limit_ok}
use poc_hydra_auth.Success.Steps.{
  after, after_guard, after_statement, after_found, after_now, on_commit,
}

-- The token is used, and the user's status is the next one.
abbrev pub verified_db : ℕ → ℕ → ℕ → Db → Db
verified_db user token at a = record a {
  email_confirmation_tokens =
      update_where (is_unused_token token) (mark_used at) a.email_confirmation_tokens;
  users =
      update_where (in_status user mail_unverified)
        (λ u. record u { status = inactive; updated_at = at }) a.users;
}

module _ {K : Type 0} (env : Env K) (laws : IsRetry env) where
  consume_ok :
      (token id : ℕ) {w v : World K}
      → Returns (consume_email_confirmation_token env token id) w tt v
      → (at : ℕ) × (v.db ≡ verified_db id token at w.db)
        × (count_where (is_unused_token token) w.db.email_confirmation_tokens == 0 ≡ false)
        × (count_where (in_status id mail_unverified) w.db.users == 0 ≡ false)
  unfolding consume_email_confirmation_token mark_email_confirmation_token_used
      transition_user_status
  consume_ok token id h = on_commit env laws _ h λ x y e k e'.
      after_statement env _ _ k λ n u c d t k. after_guard (n == 0) _ _ k λ z k.
        after_statement env _ _ k λ m u' c' d' t' k.
          let (z', q) = guard_ok _ k in
          let p : count_where (is_unused_token token) x.db.email_confirmation_tokens ≡ n = cc in
          let p' : count_where (in_status id mail_unverified) u.db.users ≡ m = cc in
          (
            x.now,
            rw (e', ← q, d', d, t, e) refl,
            ap (λ d. count_where (is_unused_token token) d.email_confirmation_tokens == 0) (sym e)
                ∙ ap (λ i. i == 0) p
                ∙ z,
            ap (λ d. count_where (in_status id mail_unverified) d.users == 0) (sym e)
                ∙ ap (λ l. count_where (in_status id mail_unverified) l.users == 0) (sym d)
                ∙ ap (λ i. i == 0) p'
                ∙ z',
          )

  -- What verify_email has done: the link's token was there, unused and in time, and its user had not
  -- confirmed the address yet.
  pub record Verified (plain : String) (now : ℕ) (a b : Db) : Type 0 where
    pub row : AuthToken
    pub present :
        find? (λ t. str_eq t.token_hash (hash_token env.lib plain)) a.email_confirmation_tokens
        ≡ some row
    pub unused : is_some row.used_at ≡ false
    pub in_time : ltb row.expires_at now ≡ false
    pub unverified : count_where (in_status row.user_uuid mail_unverified) a.users == 0 ≡ false
    pub at : ℕ
    pub effect : b ≡ verified_db row.user_uuid row.token_uuid at a

  -- With backoff.Retry as documented: whenever verify_email returns without error, a confirmation
  -- token with the hash of the given plain token was there, unused and not expired; its user was
  -- there with the status of an unconfirmed address; and the database is the old one, but that the
  -- token is used and that user, and no other, has the status of an active account.
  pub verify_email_effect :
      (plain ip : String) (w : World K)
      → (verify_email env plain ip w).0 ≡ ok tt
      → Verified plain w.now w.db (verify_email env plain ip w).1.db
  unfolding verify_email find_email_confirmation_token get_email_confirmation_token_by_hash used
      expired
  verify_email_effect plain ip w h =
      after _ _ (Returns-intro (verify_email env plain ip) w tt h) λ _ w1 g k.
        let (d1, n1) = within_limit_ok env verify_limiter ip g in
        after _ _ k λ rec u g k. after_found env _ _ _ (map_err_ok _ g) λ row x present d n g.
          let (r, e) = pure_ok g in
          after_guard (is_some rec.used_at) _ _ k λ unused k. after_now env _ k λ k.
            after_guard (ltb rec.expires_at u.now) _ _ k λ in_time k.
              let (at, e', c, m) = consume_ok rec.token_uuid rec.user_uuid (map_err_ok _ k) in
              let base : u.db ≡ w.db = ap (λ z. z.db) (sym e) ∙ d ∙ d1 in
              record {
                row = row;
                present =
                    ap
                      (λ a.
                        find? (λ t. str_eq t.token_hash (hash_token env.lib plain))
                          a.email_confirmation_tokens)
                      (sym d1)
                    ∙ present;
                unused = ap (λ z. is_some z.used_at) r ∙ unused;
                in_time =
                    ap (λ z. ltb z.expires_at w.now) r
                    ∙ ap (ltb rec.expires_at) (sym (ap (λ z. z.now) (sym e) ∙ n ∙ n1))
                    ∙ in_time;
                unverified =
                    ap (λ z. count_where (in_status z.user_uuid mail_unverified) w.db.users == 0) r
                    ∙ ap (λ a. count_where (in_status rec.user_uuid mail_unverified) a.users == 0)
                        (sym base)
                    ∙ m;
                at = at;
                effect =
                    e'
                    ∙ ap (verified_db rec.user_uuid rec.token_uuid at) base
                    ∙ ap (λ z. verified_db z.user_uuid z.token_uuid at w.db) (sym r);
              }
