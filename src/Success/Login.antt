-- ===== src/Success/Login.antt =====
-- What a login has done when it returns.
use poc_hydra_auth.Prelude.{
  ℕ, inl, inr, String, ◌≡◌, refl, sym, ap, subst, ◌∙◌, true, false, Option, none, some, find?,
}
use poc_hydra_auth.Exec.{ok}
use poc_hydra_auth.Domain.Status.{
  Status, mail_unverified, inactive, disabled, deleted, check_loginable_status,
}
use poc_hydra_auth.Domain.Validation.{validate_email}
use poc_hydra_auth.Domain.Token.{verify_password}
use poc_hydra_auth.World.{World, Env, select_many}
use poc_hydra_auth.Db.{Db, AuthUser}
use poc_hydra_auth.Db.Users.{has_email, get_user_by_email, get_user_roles}
use poc_hydra_auth.Repo.Users.{LoginUser, get_login_user, with_roles}
use poc_hydra_auth.Command.Login.{IssuedTokens, login, authenticate, admit, refuse_login}
use poc_hydra_auth.Success.{Returns, Returns-intro, if_ok, raise_ok, pure_ok}
use poc_hydra_auth.Success.Steps.{
  after_wrapping, after_lift, after_guard, after_statement, after_lookup,
}
use poc_hydra_auth.Success.Issuing.{Begun, check_ok, reset_ok, issue_tokens_ok}

module _ {K : Type 0} (env : Env K) where
  loginable_lem : (s : Status) → check_loginable_status s ≡ ok tt → s ≡ inactive
  unfolding check_loginable_status
  loginable_lem inactive h = refl
  loginable_lem disabled h = cc
  loginable_lem mail_unverified h = cc
  loginable_lem deleted h = cc

  refuse-raises :
      (email : String) {a : IssuedTokens} {w v : World K}
      → Returns (refuse_login env email) w a v
      → ⊥
  unfolding refuse_login
  refuse-raises email h = after_wrapping _ _ _ h λ _ u _ k. raise_ok _ k

  -- What login has done: the address has a user with this password, who is active and not locked
  -- out, and the user has a new session.
  pub record LoggedIn (email password : String) (answer : IssuedTokens) (w : World K) (b : Db)
      : Type 0 where
    pub retry_after : ℕ
    pub unlocked : (env.check email w.now w.services).0 ≡ ok (false, retry_after)
    pub valid : validate_email env.lib email ≡ ok tt
    pub user : AuthUser
    pub present : find? (has_email email) w.db.users ≡ some user
    pub verified : verify_password env.lib user.password_hash password ≡ true
    pub active : user.status ≡ inactive
    pub begun : Begun env user.user_uuid answer w.now w.db b

  Begun-before :
      (user : ℕ) (answer : IssuedTokens) (w u v : World K)
      → u.db ≡ w.db
      → u.now ≡ w.now
      → Begun env user answer u.now u.db v.db
      → Begun env user answer w.now w.db v.db
  Begun-before user answer w u v d n b =
      subst (λ m. Begun env user answer m w.db v.db) n
        (subst (λ a. Begun env user answer u.now a v.db) d b)

  admit_ok :
      (email : String) (user : LoginUser) {answer : IssuedTokens} {w v : World K}
      → Returns (admit env email user) w answer v
      → (user.status ≡ inactive) × Begun env user.user_uuid answer w.now w.db v.db
  unfolding admit
  admit_ok email user {answer = answer} {w = w} {v = v} h = after_lift _ h λ _ s k.
      after_wrapping _ _ _ k λ _ u g k.
        let (d, n) = reset_ok env email g in
        (
          loginable_lem user.status s,
          Begun-before user.user_uuid answer w u v d n (issue_tokens_ok env user k),
        )

  authenticate_ok :
      (email password : String) (o : Option LoginUser) {answer : IssuedTokens} {w v : World K}
      → Returns (authenticate env email password o) w answer v
      → (user : LoginUser) × (o ≡ some user)
        × (verify_password env.lib user.password_hash password ≡ true)
        × (user.status ≡ inactive)
        × Begun env user.user_uuid answer w.now w.db v.db
  unfolding authenticate
  authenticate_ok email password none h = absurd (refuse-raises email h)
  authenticate_ok email password (some user) h =
      elim (if_ok {b = verify_password env.lib user.password_hash password}
        {m = admit env email user} {n = refuse_login env email} h) [
          | inl (t, k) ↦ let (s, b) = admit_ok email user k in (user, refl, t, s, b)
          | inr (f, k) ↦ absurd (refuse-raises email k)
        ]

  with_roles_ok :
      (o : Option AuthUser) {w v : World K} {r : Option LoginUser}
      → Returns (with_roles env o) w r v
      → (v.db ≡ w.db)
        × (v.now ≡ w.now)
        × ((x : LoginUser)
            → r ≡ some x
            → (user : AuthUser) × (o ≡ some user)
              × (x.user_uuid ≡ user.user_uuid)
              × (x.password_hash ≡ user.password_hash)
              × (x.status ≡ user.status))
  unfolding with_roles get_user_roles select_many
  with_roles_ok none h =
      let (p, q) = pure_ok h in
      (ap (λ z. z.db) (sym q), ap (λ z. z.now) (sym q), (λ x e. absurd cc))
  with_roles_ok (some row) h = after_statement env _ _ h λ rs u _ d n k.
      let (p, q) = pure_ok k in
      (ap (λ z. z.db) (sym q) ∙ d, ap (λ z. z.now) (sym q) ∙ n, (λ x e. (row, refl, cc, cc, cc)))

  -- Whenever login answers with two tokens: the address is valid and, at that instant, not locked
  -- out; a user that is not deleted has it, whose hash the password fits and whose status is
  -- inactive; and the database is the old one with one more refresh token, of this user, whose
  -- identifier and family are the answers of two calls of uuid.New, one right after the other, with
  -- the hash of the refresh token that was answered and 30 days to live.
  pub login_effect :
      (email password : String) (answer : IssuedTokens) (w : World K)
      → (login env email password w).0 ≡ ok answer
      → LoggedIn email password answer w (login env email password w).1.db
  unfolding login get_login_user get_user_by_email
  login_effect email password answer w h =
      after_lift _ (Returns-intro (login env email password) w answer h) λ _ valid k.
        after_wrapping _ _ _ k λ (locked, retry_after) x g k.
          let (c, d, n) = check_ok env email g in
          after_guard locked _ _ k λ f k. after_wrapping _ _ _ k λ o u g k.
            after_lookup env (λ db. find? (has_email email) db.users) _ g
              λ y d' n' g.
                let (d'', n'', rows) = with_roles_ok (find? (has_email email) x.db.users) g in
                let (r, q, t, s, b) = authenticate_ok email password o k in
                let (user, p, i, hash, st) = rows r q in
                let v : World K = (login env email password w).1 in
                let before =
                  Begun-before r.user_uuid answer w u v (d'' ∙ d' ∙ d) (n'' ∙ n' ∙ n) b in
                record {
                  retry_after = retry_after;
                  unlocked = c ∙ ap (λ z. ok (z, retry_after)) f;
                  valid = valid;
                  user = user;
                  present = ap (λ z. find? (has_email email) z.users) (sym d) ∙ p;
                  verified = ap (λ z. verify_password env.lib z password) (sym hash) ∙ t;
                  active = sym st ∙ s;
                  begun = subst (λ z. Begun env z answer w.now w.db v.db) i before;
                }
