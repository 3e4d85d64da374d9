-- ===== src/Success/Passwords.antt =====
-- What a request for a new password has done when it returns.
use poc_hydra_auth.Prelude.{
  ℕ, String, ◌≡◌, refl, sym, ap, subst, not_false_lem, ◌∙◌, true, false, not, Option, none, some,
  ◌==◌, find?, update_where,
}
use poc_hydra_auth.Errors.{password_changed, sentinel, other}
use poc_hydra_auth.Exec.{ok, guard, ◌>>=◌}
use poc_hydra_auth.Domain.Status.{status_eq, disabled}
use poc_hydra_auth.Domain.Validation.{validate_password}
use poc_hydra_auth.Domain.Token.{verify_password, password_bcrypt_cost}
use poc_hydra_auth.World.{World, Env}
use poc_hydra_auth.Db.{Db, AuthUser}
use poc_hydra_auth.Db.Users.{is_user, update_user_password, get_user_by_uuid}
use poc_hydra_auth.Db.RefreshTokens.{
  is_unrevoked_of_user, revoke, revoke_where, revoke_refresh_tokens_by_user,
}
use poc_hydra_auth.Db.Tx.Atomic.{IsRetry}
use poc_hydra_auth.Repo.Users.{credentials, get_user_credentials, change_password_tx}
use poc_hydra_auth.Command.ChangePassword.{change_password, change_for, change_with}
use poc_hydra_auth.Success.Steps.{
  after_wrapping, after_lift, after_guard, after_statement, after_lookup, on_commit,
}
use poc_hydra_auth.Success.{Returns, Returns-intro, wrapping_ok, raise_ok, pure_ok, statement_ok}
use poc_hydra_auth.Success.Services.{generate_ok}

abbrev pub with_password : ℕ → String → AuthUser → AuthUser
with_password at hash u = record u { password_hash = hash; updated_at = at }

-- The user's row holds the new hash, and the user's sessions are revoked.
abbrev pub changed_db : ℕ → String → ℕ → Db → Db
changed_db id hash at a = record a {
  users = update_where (is_user id) (with_password at hash) a.users;
  refresh_tokens =
      update_where (is_unrevoked_of_user id) (revoke at (some password_changed)) a.refresh_tokens;
}

module _ {K : Type 0} (env : Env K) where
  tx_body :
      (id : ℕ) (hash : String) {w v : World K}
      → Returns
          ((update_user_password env id hash) >>= λ affected.
            guard (affected == 0) (sentinel (other "user not found for password update")) >>= λ _.
            revoke_refresh_tokens_by_user env id (some password_changed))
          w
          tt
          v
      → v.db ≡ changed_db id hash w.now w.db
  unfolding update_user_password revoke_refresh_tokens_by_user revoke_where
  tx_body id hash {w = w} {v = v} h = after_statement env _ _ h λ n u _ d t k.
      after_guard (n == 0) _ _ k
        λ z k'. let (s, d', t') = statement_ok env _ k' in rw (d', d, t) refl

  change_password_tx_ok :
      (id : ℕ) (hash : String) {w v : World K}
      → IsRetry env
      → Returns (change_password_tx env id hash) w tt v
      → (at : ℕ) × (v.db ≡ changed_db id hash at w.db)
  unfolding change_password_tx
  change_password_tx_ok id hash {w = w} {v = v} laws h =
      on_commit env laws _ h λ x y e k e'. (x.now, rw (e', tx_body id hash k, e) refl)

  -- What change_password has done: `user` names a user with the old password, who is not disabled,
  -- the user's row holds the new hash, and of the sessions exactly those of the user that were not
  -- revoked are revoked now.
  pub record Changed (user old new : String) (a b : Db) : Type 0 where
    pub id : ℕ
    pub named : env.lib.uuid_parse user ≡ some id
    pub row : AuthUser
    pub present : find? (is_user id) a.users ≡ some row
    pub not_disabled : status_eq row.status disabled ≡ false
    pub verified : verify_password env.lib row.password_hash old ≡ true
    pub valid : validate_password new ≡ ok tt
    pub hash : String
    pub hashed : (n : ℕ) × (env.generate_from_password n new password_bcrypt_cost ≡ some hash)
    pub at : ℕ
    pub effect : b ≡ changed_db id hash at a

  change_with_ok :
      (laws : IsRetry env) (user old new : String) (id : ℕ) (o : Option AuthUser) {w v : World K}
      → env.lib.uuid_parse user ≡ some id
      → validate_password new ≡ ok tt
      → find? (is_user id) w.db.users ≡ o
      → Returns (change_with env id old new (credentials env o)) w tt v
      → Changed user old new w.db v.db
  unfolding change_with
  change_with_ok laws user old new id none p q r h = absurd (raise_ok _ h)
  change_with_ok laws user old new id (some row) {w = w} {v = v} p q r h =
      after_guard (status_eq row.status disabled) _ _ h λ d k.
        after_guard (not (verify_password env.lib row.password_hash old)) _ _ k λ n k'.
          after_wrapping _ _ _ k' λ hash u g k''.
            let (at, e) = change_password_tx_ok id hash laws (wrapping_ok _ k'') in
            let (draw, made, d') = generate_ok env g in
            record {
              id = id;
              named = p;
              row = row;
              present = r;
              not_disabled = d;
              verified = not_false_lem _ n;
              valid = q;
              hash = hash;
              hashed = (draw, made);
              at = at;
              effect = e ∙ ap (changed_db id hash at) d';
            }

  change_for_ok :
      (laws : IsRetry env) (user old new : String) (o : Option ℕ) {w v : World K}
      → env.lib.uuid_parse user ≡ o
      → validate_password new ≡ ok tt
      → Returns (change_for env old new o) w tt v
      → Changed user old new w.db v.db
  unfolding change_for get_user_credentials get_user_by_uuid
  change_for_ok laws user old new none p q h = absurd (raise_ok _ h)
  change_for_ok laws user old new (some id) {w = w} {v = v} p q h =
      after_wrapping _ _ _ h λ c u g k.
        after_lookup env (λ db. find? (is_user id) db.users) _ g
          λ x e _ g'.
            let (f, f') = pure_ok g' in
            let same : u.db ≡ w.db = ap (λ z. z.db) (sym f') ∙ e in
            subst (λ d. Changed user old new d v.db) same
              (change_with_ok laws user old new id (find? (is_user id) u.db.users) p q refl (
                subst (λ z. Returns (change_with env id old new z) u tt v)
                  (sym f ∙ ap (λ d. credentials env (find? (is_user id) d.users)) (sym same)) k))

  -- With backoff.Retry as documented: whenever change_password returns without error, the
  -- subject names a user that was there, not deleted and not disabled, and whose hash the old
  -- password fits; the new password is valid; and the database is the old one, but that the user's
  -- row holds a bcrypt hash of the new password and that every refresh token of this user that
  -- was not revoked, and no other, is revoked with the reason password_changed.
  pub change_password_effect :
      (laws : IsRetry env) (user old new : String) (w : World K)
      → (change_password env user old new w).0 ≡ ok tt
      → Changed user old new w.db (change_password env user old new w).1.db
  unfolding change_password
  change_password_effect laws user old new w h =
      after_lift _ (Returns-intro (change_password env user old new) w tt h)
        λ _ q k. change_for_ok laws user old new (env.lib.uuid_parse user) refl q k
