-- ===== src/Success/Registration.antt =====
-- What a registration has done when it returns.
use poc_hydra_auth.Prelude.{
  ℕ, ◌+◌, String, ◌≡◌, refl, sym, ap, subst, ◌∙◌, ◌⊎◌, inl, inr, true, false, some, ◌==◌, find?,
  any, is_some, ◌∷◌,
}
use poc_hydra_auth.Exec.{ok, pure}
use poc_hydra_auth.Domain.Status.{mail_unverified, role_user}
use poc_hydra_auth.Domain.Validation.{validate_email, validate_password}
use poc_hydra_auth.Domain.Token.{
  NewToken, hash_token, password_bcrypt_cost, email_confirmation_token_ttl,
}
use poc_hydra_auth.Domain.Issue.{new_email_confirmation_token}
use poc_hydra_auth.World.{World, Env, confirmation, limiter}
use poc_hydra_auth.Db.{Db}
use poc_hydra_auth.Db.Users.{
  InsertUserParams, insert_user, insert_user_role, inserted_user, has_email, get_user_by_email,
}
use poc_hydra_auth.Db.Tokens.{inserted_token, insert_email_confirmation_token}
use poc_hydra_auth.Db.Tx.Atomic.{IsRetry}
use poc_hydra_auth.Repo.Users.{create_user, email_exists}
use poc_hydra_auth.Command.Steps.{deliver}
use poc_hydra_auth.Command.RegisterAccount.{register_account, register_new}
use poc_hydra_auth.Success.{Returns, Returns-intro, map_err_ok, pure_ok, if_ok}
use poc_hydra_auth.Success.Inserts.{inserted_ok, inserted_twice_ok}
use poc_hydra_auth.Success.Services.{generate_ok, uuid_ok, rand_ok, within_limit_ok, deliver_ok}
use poc_hydra_auth.Success.Steps.{
  after, after_wrapping, after_lift, after_statement, after_lookup, after_now, on_commit,
}

-- The account that a registration makes.
abbrev pub registered : ℕ → String → String → InsertUserParams
registered id email hash = record {
  user_uuid = id;
  email = email;
  password_hash = hash;
  status = mail_unverified;
}

-- The new user with the role of users and an unused confirmation token.
abbrev pub registered_db : InsertUserParams → NewToken → ℕ → Db → Db
registered_db user token at a = record a {
  users = inserted_user at user ∷ a.users;
  user_roles =
      record { user_uuid = user.user_uuid; role = role_user; granted_at = at } ∷ a.user_roles;
  email_confirmation_tokens = inserted_token at user.user_uuid token ∷ a.email_confirmation_tokens;
}

module _ {K : Type 0} (env : Env K) (laws : IsRetry env) where
  new_token_ok :
      {w : World K} {a : String × NewToken} {v : World K}
      → Returns (new_email_confirmation_token env) w a v
      → (a.1.hash ≡ hash_token env.lib a.0)
        × (a.1.expires_at ≡ w.now + email_confirmation_token_ttl)
        × (v.db ≡ w.db)
  unfolding new_email_confirmation_token
  new_token_ok {w = w} h = after _ _ h λ b u g k. after _ _ k λ id u' g' k. after_now env _ k λ k.
      let (d, n) = rand_ok env _ g in
      let (d', n') = uuid_ok env g' in
      let (e, e') = pure_ok k in
      (
        sym (ap (λ x. x.1.hash) e) ∙ ap (λ x. hash_token env.lib x.0) e,
        sym (ap (λ x. x.1.expires_at) e) ∙ ap (λ t. t + email_confirmation_token_ttl) (n' ∙ n),
        ap (λ z. z.db) (sym e') ∙ d' ∙ d,
      )

  create_ok :
      (id : ℕ) (email hash plain : String) (token : NewToken) {w v : World K}
      → Returns
          (create_user env
            (record {
              user_uuid = id;
              email = email;
              password_hash = hash;
              status = mail_unverified;
              role = role_user;
            })
            token
            (deliver env confirmation email plain))
          w
          tt
          v
      → (at : ℕ) × (v.db ≡ registered_db (registered id email hash) token at w.db)
        × (any (λ u. u.user_uuid == id) w.db.users ≡ false)
        × (any (has_email email) w.db.users ≡ false)
        × ((n : ℕ) × (env.delivers n
                (record { kind = confirmation; to = email; plain_token = plain })
              ≡ true))
  unfolding create_user insert_user insert_user_role insert_email_confirmation_token
  create_ok id email hash plain token h = on_commit env laws _ h λ x y e k e'.
      after_statement env _ _ k λ _ u c d t k. after_statement env _ _ k λ _ u' c' d' t' k.
        after_statement env _ _ k λ _ u'' c'' d'' t'' k.
          let (free, no_email, p) = inserted_twice_ok _ _ _ _ _ _ tt c d in
          let (_, p') = inserted_ok _ _ _ _ tt c' d' in
          let (_, p'') = inserted_ok _ _ _ _ tt c'' d'' in
          let (n, sent, q) = deliver_ok env confirmation email plain k in
          (
            x.now,
            rw (e', q, p'', p', p, t', t, e) refl,
            ap (λ a. any (λ u. u.user_uuid == id) a.users) (sym e) ∙ free,
            ap (λ a. any (has_email email) a.users) (sym e) ∙ no_email,
            (n, sent),
          )

  -- A new account, and the mail with its token.
  pub record Created (email password : String) (a b : Db) : Type 0 where
    pub hash : String
    pub hashed : (n : ℕ) × (env.generate_from_password n password password_bcrypt_cost ≡ some hash)
    pub id : ℕ
    pub new_id : any (λ u. u.user_uuid == id) a.users ≡ false
    pub new_email : any (has_email email) a.users ≡ false
    pub plain : String
    pub token : NewToken
    pub token_hash : token.hash ≡ hash_token env.lib plain
    pub delivered :
        (n : ℕ) × (env.delivers n (record { kind = confirmation; to = email; plain_token = plain })
          ≡ true)
    pub at : ℕ
    pub effect : b ≡ registered_db (registered id email hash) token at a

  -- What register_account has done.
  pub record RegistersOnce (email password : String) (a b : Db) : Type 0 where
    pub email_valid : validate_email env.lib email ≡ ok tt
    pub password_valid : validate_password password ≡ ok tt
    pub outcome :
        ((is_some (find? (has_email email) a.users) ≡ true) × (b ≡ a)) ⊎ Created email password a b

  register_new_ok :
      (email password : String) {w v : World K}
      → Returns (register_new env email password) w tt v
      → Created email password w.db v.db
  unfolding register_new
  register_new_ok email password h = after_wrapping _ _ _ h λ hash u g k. after _ _ k λ id u' g' k.
      after_wrapping _ _ _ k λ (plain, token) u'' g'' k.
        let (draw, made, d) = generate_ok env g in
        let (d', n') = uuid_ok env g' in
        let (hashed, expires, d'') = new_token_ok g'' in
        let (at, e, free, no_email, sent) = create_ok id email hash plain token (map_err_ok _ k) in
        let base = d'' ∙ d' ∙ d in
        record {
          hash = hash;
          hashed = (draw, made);
          id = id;
          new_id = ap (λ a. any (λ u. u.user_uuid == id) a.users) (sym base) ∙ free;
          new_email = ap (λ a. any (has_email email) a.users) (sym base) ∙ no_email;
          plain = plain;
          token = token;
          token_hash = hashed;
          delivered = sent;
          at = at;
          effect = e ∙ ap (registered_db (registered id email hash) token at) base;
        }

  -- With backoff.Retry as documented: whenever register_account returns without error, the address
  -- and the password are valid; and either a user who is not deleted had the address already and the
  -- database is the old one, or nobody had it, a mail with a plain token went to the address, and
  -- the database is the old one, but that there is one more user, new and unconfirmed, with the
  -- address and a bcrypt hash of the password, who has the role of users, and one more unused
  -- confirmation token, which is that user's and has the hash of the token in the mail.
  pub register_account_effect :
      (email password : String) (w : World K)
      → (register_account env email password w).0 ≡ ok tt
      → RegistersOnce email password w.db (register_account env email password w).1.db
  unfolding register_account email_exists get_user_by_email
  register_account_effect email password w h =
      after _ _ (Returns-intro (register_account env email password) w tt h) λ _ w1 g k.
        let (d1, n1) = within_limit_ok env limiter email g in
        after_lift _ k λ _ email_valid k. after_lift _ k λ _ password_valid k.
          after_wrapping _ _ _ k λ exists u g k. after_lookup env _ _ g λ u' d n g.
            let (r, e) = pure_ok g in
            let base : u.db ≡ w.db = ap (λ z. z.db) (sym e) ∙ d ∙ d1 in
            record {
              email_valid = email_valid;
              password_valid = password_valid;
              outcome =
                  elim (if_ok {b = exists} {m = pure tt} {n = register_new env email password} k) [
                    | inl (t, q) ↦ inl (
                      ap (λ a. is_some (find? (has_email email) a.users)) (sym d1) ∙ r ∙ t,
                      ap (λ z. z.db) (sym (pure_ok q).1) ∙ base,
                    )
                    | inr (t, q) ↦ inr (
                        subst
                          (λ a.
                            Created email password a (register_account env email password w).1.db)
                          base (register_new_ok email password q))
                  ];
            }
