-- ===== src/Success/Refresh.antt =====
-- What a refresh has done when it returns.
use poc_hydra_auth.Prelude.{
  ℕ, String, ◌≡◌, refl, sym, ap, subst, ◌∙◌, false, ◌||◌, Option, none, some, str_eq, ltb, find?,
  is_some,
}
use poc_hydra_auth.Exec.{ok}
use poc_hydra_auth.Domain.Status.{status_eq, disabled}
use poc_hydra_auth.Domain.Token.{hash_token}
use poc_hydra_auth.World.{World, Env, select_many}
use poc_hydra_auth.Db.{Db, AuthUser, AuthRefreshToken}
use poc_hydra_auth.Db.Users.{is_user, get_user_roles, get_user_by_uuid}
use poc_hydra_auth.Db.RefreshTokens.{get_refresh_token_row_by_hash}
use poc_hydra_auth.Db.Tx.Atomic.{IsRetry}
use poc_hydra_auth.Repo.RefreshTokens.{
  StoredRefreshToken, RefreshUser, stored, stored_token, refresh_user, get_user_for_refresh,
  get_refresh_token_by_hash,
}
use poc_hydra_auth.Command.Login.{IssuedTokens}
use poc_hydra_auth.Command.RefreshToken.{refresh, refresh_stored, refresh_at, for_user}
use poc_hydra_auth.Success.{Returns, Returns-intro, raise_ok, pure_ok}
use poc_hydra_auth.Success.Steps.{
  after_wrapping, after_guard, after_statement, after_lookup, after_now, unless,
}
use poc_hydra_auth.Success.Rotation.{IsRotated, successor, reuse-raises, revoke-raises, rotate_ok}

module _ {K : Type 0} (env : Env K) (laws : IsRetry env) where
  -- The stored token of a plain one.
  abbrev pub by_hash : String → Db → Option AuthRefreshToken
  by_hash plain a = find? (λ t. str_eq t.token_hash (hash_token env.lib plain)) a.refresh_tokens

  -- What refresh has done: the token that it was given is the stored one of that hash, in time,
  -- neither used nor revoked; its user is there and not disabled; and the stored token has been
  -- replaced.
  pub record Refreshed (plain : String) (answer : IssuedTokens) (now : ℕ) (a b : Db) : Type 0 where
    pub row : AuthRefreshToken
    pub present : by_hash plain a ≡ some row
    pub in_time : ltb row.expires_at now ≡ false
    pub live : is_some row.used_at || is_some row.revoked_at ≡ false
    pub user : AuthUser
    pub owner : find? (is_user row.user_uuid) a.users ≡ some user
    pub not_disabled : status_eq user.status disabled ≡ false
    pub id : ℕ
    pub at : ℕ
    pub rotated :
        IsRotated row.token_id
          (successor env laws (stored_token row) id now (hash_token env.lib answer.refresh_token))
          at
          a
          b

  -- The user that a refresh found, if it found one.
  FoundFor : ℕ → Db → Option RefreshUser → Type 0
  FoundFor id a o =
      (r : RefreshUser)
      → o ≡ some r
      → (user : AuthUser) × (find? (is_user id) a.users ≡ some user) × (r.status ≡ user.status)

  refresh_user_ok :
      (o : Option AuthUser) (id : ℕ) {w v : World K} {r : Option RefreshUser}
      → Returns (refresh_user env o id) w r v
      → (v.db ≡ w.db)
        × (v.now ≡ w.now)
        × ((x : RefreshUser)
            → r ≡ some x
            → (user : AuthUser) × (o ≡ some user) × (x.status ≡ user.status))
  unfolding refresh_user get_user_roles select_many
  refresh_user_ok none id h =
      let (p, q) = pure_ok h in
      (ap (λ z. z.db) (sym q), ap (λ z. z.now) (sym q), (λ x e. absurd cc))
  refresh_user_ok (some row) id h = after_statement env _ _ h λ rs u _ d n k.
      let (p, q) = pure_ok k in
      (ap (λ z. z.db) (sym q) ∙ d, ap (λ z. z.now) (sym q) ∙ n, (λ x e. (row, refl, cc)))

  found_user_ok :
      (id : ℕ) {w v : World K} {r : Option RefreshUser}
      → Returns (get_user_for_refresh env id) w r v
      → (v.db ≡ w.db) × (v.now ≡ w.now) × FoundFor id w.db r
  unfolding get_user_for_refresh get_user_by_uuid FoundFor
  found_user_ok id {w = w} h =
      after_lookup env (λ db. find? (is_user id) db.users) _ h
        λ u d n k.
          let (d', n', o) = refresh_user_ok (find? (is_user id) w.db.users) id k in
          (d' ∙ d, n' ∙ n, o)

  for_user_ok :
      (t : StoredRefreshToken) (r : Option RefreshUser) {answer : IssuedTokens} {w v : World K}
      → Returns (for_user env t r) w answer v
      → FoundFor t.user_uuid w.db r
      → (user : AuthUser) × (find? (is_user t.user_uuid) w.db.users ≡ some user)
        × (status_eq user.status disabled ≡ false)
        × ((id at : ℕ) × IsRotated t.token_id
              (successor env laws t id w.now (hash_token env.lib answer.refresh_token))
              at
              w.db
              v.db)
  unfolding for_user FoundFor
  for_user_ok t none h o = absurd (revoke-raises env laws _ _ _ _ h)
  for_user_ok t (some r) h o =
      unless (status_eq r.status disabled) _ _ h (λ k. revoke-raises env laws _ _ _ _ k)
        λ f k.
          let (user, present, same) = o r refl in
          (user, present, ap (λ s. status_eq s disabled) (sym same) ∙ f, rotate_ok env laws t r k)

  refresh_at_ok :
      (plain : String) (row : AuthRefreshToken) {answer : IssuedTokens} {w v : World K}
      → by_hash plain w.db ≡ some row
      → Returns (refresh_at env (stored_token row) w.now) w answer v
      → Refreshed plain answer w.now w.db v.db
  unfolding refresh_at
  refresh_at_ok plain row {answer = answer} {w = w} {v = v} present h =
      unless (ltb row.expires_at w.now) _ _ h (λ k. revoke-raises env laws _ _ _ _ k)
        λ in_time k.
          unless (is_some row.used_at || is_some row.revoked_at) _ _ k
            (λ k. reuse-raises env laws _ k)
            λ live k. after_wrapping _ _ _ k λ r u g k.
              let (d, n, o) = found_user_ok row.user_uuid g in
              let (user, p, q, (id, at, e)) =
                for_user_ok (stored_token row) r k
                  (subst (λ z. FoundFor row.user_uuid z r) (sym d) o) in
              record {
                row = row;
                present = present;
                in_time = in_time;
                live = live;
                user = user;
                owner = subst (λ z. find? (is_user row.user_uuid) z.users ≡ some user) d p;
                not_disabled = q;
                id = id;
                at = at;
                rotated =
                    subst
                      (λ m.
                        IsRotated row.token_id
                          (successor env laws (stored_token row) id m
                            (hash_token env.lib answer.refresh_token))
                          at w.db v.db)
                      n
                      (subst
                        (λ a.
                          IsRotated row.token_id
                            (successor env laws (stored_token row) id u.now
                              (hash_token env.lib answer.refresh_token))
                            at a v.db)
                        d e);
              }

  refresh_stored_ok :
      (plain : String) (o : Option AuthRefreshToken) {answer : IssuedTokens} {w v : World K}
      → by_hash plain w.db ≡ o
      → Returns (refresh_stored env (stored o)) w answer v
      → Refreshed plain answer w.now w.db v.db
  unfolding refresh_stored
  refresh_stored_ok plain none p h = absurd (raise_ok _ h)
  refresh_stored_ok plain (some row) p h = after_now env _ h λ k. refresh_at_ok plain row p k

  -- With backoff.Retry as documented: whenever refresh answers with two tokens, the given token's
  -- hash is that of a stored refresh token that is not expired, not used and not revoked, whose
  -- user is there, not deleted and not disabled; and the database is the old one, but that this
  -- token is used and that one new token is there: of the same user and family, with the old one
  -- as its parent, the hash of the refresh token that was answered, and 30 days to live; its
  -- identifier and its hash were those of no other token.
  pub refresh_effect :
      (plain : String) (answer : IssuedTokens) (w : World K)
      → (refresh env plain w).0 ≡ ok answer
      → Refreshed plain answer w.now w.db (refresh env plain w).1.db
  unfolding refresh get_refresh_token_by_hash get_refresh_token_row_by_hash
  refresh_effect plain answer w h =
      after_guard (str_eq plain "") _ _ (Returns-intro (refresh env plain) w answer h) λ _ k.
        after_wrapping _ _ _ k λ o u g k. after_lookup env _ _ g λ x d n g.
          let (e, e') = pure_ok g in
          let same : u.db ≡ w.db = ap (λ z. z.db) (sym e') ∙ d in
          let at_once : u.now ≡ w.now = ap (λ z. z.now) (sym e') ∙ n in
          let v : World K = (refresh env plain w).1 in
          subst (λ b. Refreshed plain answer w.now b v.db) same
            (subst (λ m. Refreshed plain answer m u.db v.db) at_once
              (refresh_stored_ok plain (by_hash plain u.db) refl (
                subst (λ z. Returns (refresh_stored env z) u answer v)
                  (sym e ∙ ap (λ b. stored (by_hash plain b)) (sym same)) k)))
