-- ===== src/Success/Issuing.antt =====
-- What the issue of a session's tokens has done when it returns.
use poc_hydra_auth.Prelude.{ℕ, suc, ◌+◌, String, ◌≡◌, sym, ap, ◌∙◌, Bool, none, ◌∷◌, List}
use poc_hydra_auth.Exec.{ok}
use poc_hydra_auth.Domain.Token.{hash_token, refresh_token_ttl}
use poc_hydra_auth.Domain.Issue.{issue_access_token}
use poc_hydra_auth.World.{World, Env, check, reset}
use poc_hydra_auth.Db.{Db}
use poc_hydra_auth.Db.RefreshTokens.{RefreshTokenRecord, inserted}
use poc_hydra_auth.Repo.Users.{LoginUser, save_refresh_token}
use poc_hydra_auth.Command.Login.{IssuedTokens, issue_tokens}
use poc_hydra_auth.Success.{Returns, wrapping_ok, lift_ok, pure_ok}
use poc_hydra_auth.Success.Services.{refresh_token_ok, uuid_ok, drawn_ok}
use poc_hydra_auth.Success.Steps.{after, after_wrapping, after_now}
use poc_hydra_auth.Success.Rotation.{insert_ok}

-- The session that a login begins.
abbrev pub first_token : ℕ → ℕ → ℕ → ℕ → String → RefreshTokenRecord
first_token id user family now hash = record {
  token_id = id;
  user_uuid = user;
  family_id = family;
  parent_token_id = none;
  token_hash = hash;
  expires_at = now + refresh_token_ttl;
}

abbrev pub with_token : RefreshTokenRecord → ℕ → Db → Db
with_token new now a = record a { refresh_tokens = inserted now new ∷ a.refresh_tokens }

module _ {K : Type 0} (env : Env K) where
  pub check_ok :
      (key : String) {w v : World K} {r : Bool × ℕ}
      → Returns (check env key) w r v
      → ((env.check key w.now w.services).0 ≡ ok r) × (v.db ≡ w.db) × (v.now ≡ w.now)
  unfolding check
  check_ok key h = (
    ap (λ x. x.0) h.returned,
    ap (λ x. x.1.db) (sym h.returned),
    ap (λ x. x.1.now) (sym h.returned),
  )

  pub reset_ok :
      (key : String) {w v : World K} {r : Unit {0}}
      → Returns (reset env key) w r v
      → (v.db ≡ w.db) × (v.now ≡ w.now)
  unfolding reset
  reset_ok key h = (ap (λ x. x.1.db) (sym h.returned), ap (λ x. x.1.now) (sym h.returned))

  access_token_ok :
      (user : String) (roles : List String) (ttl : ℕ) {w v : World K} {t : String}
      → Returns (issue_access_token env user roles ttl) w t v
      → (v.db ≡ w.db) × (v.now ≡ w.now)
  unfolding issue_access_token
  access_token_ok user roles ttl h = after_now env _ h λ k.
      let (e, e') = lift_ok (wrapping_ok _ k) in (ap (λ z. z.db) (sym e'), ap (λ z. z.now) (sym e'))

  -- A session that begins: a token and a family that uuid.New drew, one right after the other.
  pub record Begun (user : ℕ) (answer : IssuedTokens) (now : ℕ) (a b : Db) : Type 0 where
    pub draw : ℕ
    pub effect :
        b
        ≡ with_token
            (first_token
              (env.uuid_new draw)
              user
              (env.uuid_new (suc draw))
              now
              (hash_token env.lib answer.refresh_token))
            now
            a

  pub issue_tokens_ok :
      (user : LoginUser) {answer : IssuedTokens} {w v : World K}
      → Returns (issue_tokens env user) w answer v
      → Begun user.user_uuid answer w.now w.db v.db
  unfolding issue_tokens save_refresh_token
  issue_tokens_ok user {answer = answer} {w = w} {v = v} h = after_wrapping _ _ _ h λ access u g k.
      let (d, n) = access_token_ok _ _ _ g in
      after_wrapping _ _ _ k λ (plain, hash) x g k.
        let (e, d', n') = refresh_token_ok env g in
        after _ _ k λ id y g1 k.
          let (d'', n'') = uuid_ok env g1 in
          after _ _ k λ family z g k.
            let (d3, n3) = uuid_ok env g in
            let (made_id, next) = drawn_ok env g1 in
            let (made_family, _) = drawn_ok env g in
            after_now env _ k λ k. after_wrapping _ _ _ k λ _ s g k.
              let c = insert_ok env _ g in
              let (f, f') = pure_ok k in
              record {
                draw = x.draws;
                effect =
                    ap (λ t. t.db) (sym f')
                    ∙ c
                    ∙ ap (with_token (first_token id user.user_uuid family z.now hash) z.now)
                        (d3 ∙ d'' ∙ d' ∙ d)
                    ∙ ap (λ m. with_token (first_token id user.user_uuid family m hash) m w.db)
                        (n3 ∙ n'' ∙ n' ∙ n)
                    ∙ ap (λ t. with_token (first_token id user.user_uuid family w.now t) w.now w.db)
                        (e ∙ ap (λ t. hash_token env.lib t.refresh_token) f)
                    ∙ ap
                        (λ t.
                          with_token
                            (first_token t user.user_uuid family w.now
                              (hash_token env.lib answer.refresh_token))
                            w.now w.db)
                        (sym made_id)
                    ∙ ap
                        (λ t.
                          with_token
                            (first_token (env.uuid_new x.draws) user.user_uuid t w.now
                              (hash_token env.lib answer.refresh_token))
                            w.now w.db)
                        (sym made_family ∙ ap env.uuid_new next);
              }
