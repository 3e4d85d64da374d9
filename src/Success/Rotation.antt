-- ===== src/Success/Rotation.antt =====
-- What the rotation of a refresh token has done when it returns.
use poc_hydra_auth.Prelude.{
  ℕ, inl, inr, ◌+◌, Bool, any, if◌then◌else◌, String, ◌≡◌, refl, sym, ap, subst, ◌∙◌, true, false,
  Option, some, ◌∷◌, ◌==◌, update_where,
}
use poc_hydra_auth.Errors.{Err, is, refresh_token_already_used, Reason}
use poc_hydra_auth.Exec.{Result, ok, err, raise}
use poc_hydra_auth.Domain.Token.{hash_token, refresh_token_ttl}
use poc_hydra_auth.World.{World, Env}
use poc_hydra_auth.Db.{Db}
use poc_hydra_auth.Db.RefreshTokens.{
  RefreshTokenRecord, inserted, is_unused, mark_consumed, mark_refresh_token_used,
  insert_refresh_token, clashes_with,
}
use poc_hydra_auth.Db.Tx.Atomic.{IsRetry}
use poc_hydra_auth.Repo.RefreshTokens.{StoredRefreshToken, RefreshUser, rotate_refresh_token}
use poc_hydra_auth.Command.Login.{IssuedTokens}
use poc_hydra_auth.Command.RefreshToken.{rotate, after_rotation, revoke_and_fail, reuse_detected}
use poc_hydra_auth.Success.{Returns, Returns-parts, if_ok, raise_ok, pure_ok, statement_ok}
use poc_hydra_auth.Success.Inserts.{inserted_ok}
use poc_hydra_auth.Success.Lookups.{attempt_ok}
use poc_hydra_auth.Success.Services.{refresh_token_ok, uuid_ok, quiet_ok}
use poc_hydra_auth.Success.Steps.{
  after, after_wrapping, after_guard, after_statement, after_now, on_commit,
}
use poc_hydra_auth.Respects.Reads.{read_rules}

-- The old token is used and the new one is there.
abbrev pub rotated_db : ℕ → RefreshTokenRecord → ℕ → Db → Db
rotated_db old new at a = record a {
  refresh_tokens =
      inserted at new ∷ update_where (is_unused old) (mark_consumed at) a.refresh_tokens;
}

-- A rotation: the new token's identifier and hash were no other token's.
pub record IsRotated (old : ℕ) (new : RefreshTokenRecord) (at : ℕ) (a b : Db) : Type 0 where
  pub effect : b ≡ rotated_db old new at a
  pub unclashed :
      any (clashes_with new) (update_where (is_unused old) (mark_consumed at) a.refresh_tokens)
      ≡ false

checked_ok :
    (b : Bool) (e : Err) (x y : Db) (r : Result (Unit {0}) × Db)
    → r ≡ (if b then (err e, x) else (ok tt, y))
    → r.0 ≡ ok tt
    → r.1 ≡ y
checked_ok true e x y r k h = absurd (let z = ap (λ p. p.0) k in cc)
checked_ok false e x y r k h = ap (λ p. p.1) k

module _ {K : Type 0} (env : Env K) where
  pub insert_ok :
      (new : RefreshTokenRecord) {w v : World K}
      → Returns (insert_refresh_token env new) w tt v
      → v.db ≡ record (w.db) { refresh_tokens = inserted w.now new ∷ w.db.refresh_tokens }
  unfolding insert_refresh_token
  insert_ok new {w = w} {v = v} h =
      let (p, d, n) = statement_ok env _ h in
      d ∙ checked_ok (any (clashes_with new) w.db.refresh_tokens) _ _ _ _ refl p

  unclashed_ok :
      (new : RefreshTokenRecord) {w v : World K}
      → Returns (insert_refresh_token env new) w tt v
      → any (clashes_with new) w.db.refresh_tokens ≡ false
  unfolding insert_refresh_token
  unclashed_ok new {w = w} h =
      let (p, d, n) = statement_ok env _ h in
      (inserted_ok (any (clashes_with new) w.db.refresh_tokens) _ _ _ tt p d).0

  module _ (laws : IsRetry env) where
    rotate_tx_ok :
        (old : ℕ) (new : RefreshTokenRecord) {w v : World K}
        → Returns (rotate_refresh_token env old new) w tt v
        → (at : ℕ) × IsRotated old new at w.db v.db
    unfolding rotate_refresh_token mark_refresh_token_used
    rotate_tx_ok old new h = on_commit env laws _ h λ x y e k e'.
        after_statement env _ _ k λ n u _ d t k. after_guard (n == 0) _ _ k λ z k. (
          x.now,
          record {
            effect = rw (e', insert_ok new k, d, t, e) refl;
            unclashed =
                ap
                  (λ a.
                    any (clashes_with new)
                      (update_where (is_unused old) (mark_consumed x.now) a.refresh_tokens))
                  (sym e)
                ∙ ap (λ a. any (clashes_with new) a.refresh_tokens) (sym d)
                ∙ unclashed_ok new k;
          },
        )

    pub reuse-raises :
        {A : Type 0} (t : StoredRefreshToken) {a : A} {w v : World K}
        → Returns (reuse_detected env t) w a v
        → ⊥
    unfolding reuse_detected
    reuse-raises t h = after_wrapping _ _ _ h λ _ u _ k. raise_ok _ k

    pub revoke-raises :
        {A : Type 0} (s : String) (t : ℕ) (r : Option Reason) (e : Err) {a : A} {w v : World K}
        → Returns (revoke_and_fail env s t r e) w a v
        → ⊥
    unfolding revoke_and_fail
    revoke-raises s t r e h = after_wrapping _ _ _ h λ _ u _ k. raise_ok _ k

    after_rotation_ok :
        (t : StoredRefreshToken) (r : Result (Unit {0})) {w v : World K}
        → Returns (after_rotation env t r) w tt v
        → (r ≡ ok tt) × (v ≡ w)
    unfolding after_rotation
    after_rotation_ok t (ok a) h = (refl, sym (pure_ok h).1)
    after_rotation_ok t (err e) h =
        elim (if_ok {b = is e refresh_token_already_used} {m = reuse_detected env t} {n = raise _}
          h) [ inl (_, k) ↦ absurd (reuse-raises t k) | inr (_, k) ↦ absurd (raise_ok _ k) ]

    -- The row that a rotation puts in, for the token that it answers with.
    abbrev pub successor : StoredRefreshToken → ℕ → ℕ → String → RefreshTokenRecord
    successor t id now hash = record {
      token_id = id;
      user_uuid = t.user_uuid;
      family_id = t.family_id;
      parent_token_id = some t.token_id;
      token_hash = hash;
      expires_at = now + refresh_token_ttl;
    }

    pub rotate_ok :
        (t : StoredRefreshToken) (user : RefreshUser) {answer : IssuedTokens} {w v : World K}
        → Returns (rotate env t user) w answer v
        → (id at : ℕ) × IsRotated t.token_id
            (successor t id w.now (hash_token env.lib answer.refresh_token))
            at
            w.db
            v.db
    unfolding rotate
    rotate_ok t user {answer = answer} {w = w} {v = v} h =
        after_wrapping _ _ _ h λ (plain, hash) u g k.
          let (e, d, n) = refresh_token_ok env g in
          after _ _ k λ id x g k.
            let (d', n') = uuid_ok env g in
            after_now env _ k λ k. after _ _ k λ r y g k.
              let (p, p') = attempt_ok env _ g in
              after _ _ k λ _ z g k.
                let (q, q') = after_rotation_ok t r g in
                let tx : Returns (rotate_refresh_token env t.token_id (successor t id x.now hash)) x
                    tt y =
                  Returns-parts _ _ _ _ (p ∙ q) p' in
                let (at, c) = rotate_tx_ok _ _ tx in
                after_wrapping _ _ _ k λ _ z' g k.
                  let d'' = quiet_ok (search read_rules) g in
                  let (f, f') = pure_ok k in
                  (
                    id,
                    at,
                    subst
                        (λ b.
                          IsRotated t.token_id
                            (successor t id w.now (hash_token env.lib answer.refresh_token)) at w.db
                            b)
                        (sym (ap (λ s. s.db) (sym f') ∙ d'' ∙ ap (λ s. s.db) q'))
                        (subst (λ s. IsRotated t.token_id (successor t id w.now s) at w.db y.db)
                          (e ∙ ap (λ s. hash_token env.lib s.refresh_token) f)
                          (subst (λ m. IsRotated t.token_id (successor t id m hash) at w.db y.db)
                            (n' ∙ n)
                            (subst (λ a. IsRotated t.token_id (successor t id x.now hash) at a y.db)
                              (d' ∙ d) c))),
                  )
