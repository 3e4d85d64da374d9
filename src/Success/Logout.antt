-- ===== src/Success/Logout.antt =====
-- What a logout has done when it returns.
use poc_hydra_auth.Prelude.{
  ℕ, String, ◌≡◌, refl, sym, ap, subst, ◌∙◌, ◌⊎◌, inl, inr, true, false, Option, none, some, ◌==◌,
  str_eq, find?, update_where,
}
use poc_hydra_auth.Exec.{ok}
use poc_hydra_auth.Domain.Token.{hash_token}
use poc_hydra_auth.World.{World, Env}
use poc_hydra_auth.Db.{Db, AuthRefreshToken}
use poc_hydra_auth.Db.RefreshTokens.{
  is_unrevoked, revoke, revoke_where, revoke_refresh_token_row, get_refresh_token_row_by_hash,
}
use poc_hydra_auth.Repo.RefreshTokens.{
  stored, stored_token, get_refresh_token_by_hash, revoke_refresh_token,
}
use poc_hydra_auth.Command.Logout.{logout, logout_stored, revoke_own}
use poc_hydra_auth.Success.{Returns, Returns-intro, if_ok, wrapping_ok, pure_ok, statement_ok}
use poc_hydra_auth.Success.Steps.{after_wrapping, after_guard, after_lookup}

module _ {K : Type 0} (env : Env K) where
  abbrev pub by_hash : String → Db → Option AuthRefreshToken
  by_hash plain a = find? (λ t. str_eq t.token_hash (hash_token env.lib plain)) a.refresh_tokens

  -- The caller's own token with this hash is revoked, unless it was before.
  pub record RevokesOwn (plain user : String) (now : ℕ) (a b : Db) : Type 0 where
    pub row : AuthRefreshToken
    pub present : by_hash plain a ≡ some row
    pub own : (id : ℕ) × (env.lib.uuid_parse user ≡ some id) × (row.user_uuid == id ≡ true)
    pub effect : b ≡ record a {
      refresh_tokens = update_where (is_unrevoked row.token_id) (revoke now none) a.refresh_tokens;
    }

  -- The token is unknown, or another user's.
  pub record Foreign (plain user : String) (a b : Db) : Type 0 where
    pub unchanged : b ≡ a
    pub foreign :
        (row : AuthRefreshToken) (id : ℕ)
        → by_hash plain a ≡ some row
        → env.lib.uuid_parse user ≡ some id
        → row.user_uuid == id ≡ false

  revoke_own_ok :
      (plain user : String) (row : AuthRefreshToken) (o : Option ℕ) {w v : World K}
      → by_hash plain w.db ≡ some row
      → env.lib.uuid_parse user ≡ o
      → Returns (revoke_own env (stored_token row) o) w tt v
      → RevokesOwn plain user w.now w.db v.db ⊎ Foreign plain user w.db v.db
  unfolding revoke_own revoke_refresh_token revoke_refresh_token_row revoke_where
  revoke_own_ok plain user row none p q h =
      let (e, e') = pure_ok h in
      inr (record { unchanged = ap (λ z. z.db) (sym e'); foreign = λ r id x y. cc })
  revoke_own_ok plain user row (some id) p q h =
      elim (if_ok {b = row.user_uuid == id} {m = _} {n = _} h) [
        | inl (t, k) ↦
            let (s, d, n) = statement_ok env _ (wrapping_ok _ k) in
            inl (record { row = row; present = p; own = (id, q, t); effect = d })
        | inr (f, k) ↦
            let (e, e') = pure_ok k in
            inr (record {
              unchanged = ap (λ z. z.db) (sym e');
              foreign = λ r i x y.
                  let a : r ≡ row = cc in
                  let b : i ≡ id = cc in
                  ap (λ z. z.user_uuid == i) a ∙ ap (λ z. row.user_uuid == z) b ∙ f;
            })
      ]

  logout_stored_ok :
      (plain user : String) (o : Option AuthRefreshToken) {w v : World K}
      → by_hash plain w.db ≡ o
      → Returns (logout_stored env user (stored o)) w tt v
      → RevokesOwn plain user w.now w.db v.db ⊎ Foreign plain user w.db v.db
  unfolding logout_stored
  logout_stored_ok plain user none p h =
      let (e, e') = pure_ok h in
      inr (record { unchanged = ap (λ z. z.db) (sym e'); foreign = λ r i x y. absurd cc })
  logout_stored_ok plain user (some row) p h =
      revoke_own_ok plain user row (env.lib.uuid_parse user) p refl h

  -- Whenever logout returns without error, either the given token's hash is that of a stored token
  -- of the authenticated user, and the database is the old one but that this one token is revoked,
  -- unless it was before; or there is no such token of this user, and the database is the old one.
  pub logout_effect :
      (plain user : String) (w : World K)
      → (logout env plain user w).0 ≡ ok tt
      → RevokesOwn plain user w.now w.db (logout env plain user w).1.db
        ⊎ Foreign plain user w.db (logout env plain user w).1.db
  unfolding logout get_refresh_token_by_hash get_refresh_token_row_by_hash
  logout_effect plain user w h =
      after_guard (str_eq plain "") _ _ (Returns-intro (logout env plain user) w tt h) λ _ k.
        after_wrapping _ _ _ k λ o u g k. after_lookup env _ _ g λ x d n g.
          let (e, e') = pure_ok g in
          let same : u.db ≡ w.db = ap (λ z. z.db) (sym e') ∙ d in
          let at_once : u.now ≡ w.now = ap (λ z. z.now) (sym e') ∙ n in
          let v : World K = (logout env plain user w).1 in
          subst (λ b. RevokesOwn plain user w.now b v.db ⊎ Foreign plain user b v.db) same
            (subst (λ m. RevokesOwn plain user m u.db v.db ⊎ Foreign plain user u.db v.db) at_once
              (logout_stored_ok plain user (by_hash plain u.db) refl (
                subst (λ z. Returns (logout_stored env user z) u tt v)
                  (sym e ∙ ap (λ b. stored (by_hash plain b)) (sym same)) k)))
