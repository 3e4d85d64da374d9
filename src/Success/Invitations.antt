-- ===== src/Success/Invitations.antt =====
-- What the acceptance of an invitation has done when it returns.
use poc_hydra_auth.Prelude.{
  ℕ, String, ◌≡◌, refl, sym, ap, ◌∙◌, false, some, ◌==◌, str_eq, ltb, find?, any, is_some, ◌∷◌,
  update_where,
}
use poc_hydra_auth.Exec.{ok}
use poc_hydra_auth.Domain.Status.{inactive}
use poc_hydra_auth.Domain.Validation.{validate_password}
use poc_hydra_auth.Domain.Token.{hash_token, password_bcrypt_cost}
use poc_hydra_auth.World.{World, Env}
use poc_hydra_auth.Db.{Db, AuthInvitationToken}
use poc_hydra_auth.Db.Users.{
  InsertUserParams, insert_user, insert_user_role, inserted_user, has_email,
}
use poc_hydra_auth.Db.Tokens.{
  is_unused_invitation, is_active_for, mark_invitation_used, mark_invitation_token_used,
  invalidate_active_invitation_tokens_by_email, get_invitation_token_by_hash,
}
use poc_hydra_auth.Db.Tx.Atomic.{IsRetry}
use poc_hydra_auth.Repo.Invitations.{accept_invitation_tx, insert_new_user, find_invitation_token}
use poc_hydra_auth.Command.AcceptInvitation.{accept_invitation}
use poc_hydra_auth.Success.{Returns, Returns-intro, map_err_ok, pure_ok, statement_ok}
use poc_hydra_auth.Success.Inserts.{inserted_ok, inserted_twice_ok}
use poc_hydra_auth.Success.Services.{generate_ok, uuid_ok, quiet_ok}
use poc_hydra_auth.Respects.Reads.{read_rules}
use poc_hydra_auth.Success.Steps.{
  after, after_wrapping, after_lift, after_guard, after_statement, after_found, after_now,
  on_commit,
}

-- The invitation is used, and so is every other one of the address; the user is there with the role.
abbrev pub accepted_db : ℕ → InsertUserParams → String → ℕ → Db → Db
accepted_db token user role at a = record a {
  invitation_tokens =
      update_where (is_active_for user.email) (mark_invitation_used at)
        (update_where (is_unused_invitation token) (mark_invitation_used at) a.invitation_tokens);
  users = inserted_user at user ∷ a.users;
  user_roles = record { user_uuid = user.user_uuid; role = role; granted_at = at } ∷ a.user_roles;
}

-- The account that an invitation makes.
abbrev pub invited : ℕ → String → String → InsertUserParams
invited id email hash = record {
  user_uuid = id;
  email = email;
  password_hash = hash;
  status = inactive;
}

module _ {K : Type 0} (env : Env K) (laws : IsRetry env) where
  accept_tx_ok :
      (token : ℕ) (email role hash : String) {w v : World K} {id : ℕ}
      → Returns (accept_invitation_tx env token email role hash) w id v
      → (at : ℕ) × (v.db ≡ accepted_db token (invited id email hash) role at w.db)
        × (any (λ u. u.user_uuid == id) w.db.users ≡ false)
        × (any (has_email email) w.db.users ≡ false)
  unfolding accept_invitation_tx mark_invitation_token_used
      invalidate_active_invitation_tokens_by_email insert_new_user insert_user insert_user_role
  accept_tx_ok token email role hash {w = w} {v = v} {id = id} h = after _ _ h λ id' u g k.
      after _ _ k λ _ u' g' k.
        let (f, f') = pure_ok k in
        let (d0, n0) = uuid_ok env g in
        on_commit env laws _ g' λ x y e k e'. after_statement env _ _ k λ n u1 _ d t k.
          after_guard (n == 0) _ _ k λ z k. after_statement env _ _ k λ m u2 _ d' t' k.
            after _ _ k λ _ u3 g'' k.
              let (c, q, t'') = statement_ok env _ (map_err_ok _ g'') in
              let (free, no_email, q') = inserted_twice_ok _ _ _ _ _ _ tt c q in
              let (c', r, t3) = statement_ok env _ k in
              let (_, r') = inserted_ok _ _ _ _ tt c' r in
              let at = x.now in
              let start : x.db ≡ w.db = e ∙ d0 in
              let users : u2.db.users ≡ w.db.users =
                ap (λ a. a.users) d' ∙ ap (λ a. a.users) d ∙ ap (λ a. a.users) start in
              (
                at,
                ap (λ z. z.db) (sym f') ∙ e' ∙ rw (r', q', d', d, t'', t', t, start, f) refl,
                ap (any (λ u. u.user_uuid == id)) (sym users)
                    ∙ ap (λ i. any (λ u. u.user_uuid == i) u2.db.users) (sym f)
                    ∙ free,
                ap (any (has_email email)) (sym users) ∙ no_email,
              )

  -- What accept_invitation has done: the invitation was there, unused and in time, and nobody had
  -- the address.
  pub record Accepted (plain password : String) (now : ℕ) (a b : Db) : Type 0 where
    pub row : AuthInvitationToken
    pub present :
        find? (λ t. str_eq t.token_hash (hash_token env.lib plain)) a.invitation_tokens ≡ some row
    pub unused : is_some row.used_at ≡ false
    pub in_time : ltb row.expires_at now ≡ false
    pub valid : validate_password password ≡ ok tt
    pub hash : String
    pub hashed : (n : ℕ) × (env.generate_from_password n password password_bcrypt_cost ≡ some hash)
    pub id : ℕ
    pub new_id : any (λ u. u.user_uuid == id) a.users ≡ false
    pub new_email : any (has_email row.email) a.users ≡ false
    pub at : ℕ
    pub effect : b ≡ accepted_db row.token_uuid (invited id row.email hash) row.role at a

  -- With backoff.Retry as documented: whenever accept_invitation returns without error, an
  -- invitation with the hash of the given plain token was there, unused and not expired; the
  -- password is valid; no user that is not deleted had the invitation's address; and the database
  -- is the old one, but that this invitation and every other unused one of the address are used,
  -- and that there is one more user, new, active, with the address and a bcrypt hash of the
  -- password, who has the role of the invitation.
  pub accept_invitation_effect :
      (plain password : String) (w : World K)
      → (accept_invitation env plain password w).0 ≡ ok tt
      → Accepted plain password w.now w.db (accept_invitation env plain password w).1.db
  unfolding accept_invitation find_invitation_token get_invitation_token_by_hash
  accept_invitation_effect plain password w h =
      after_lift _ (Returns-intro (accept_invitation env plain password) w tt h) λ _ valid k.
        after _ _ k λ rec u g k. after_found env _ _ _ (map_err_ok _ g) λ row x present d n g.
          let (r, e) = pure_ok g in
          after_guard (is_some rec.used_at) _ _ k λ unused k. after_now env _ k λ k.
            after_guard (ltb rec.expires_at u.now) _ _ k λ in_time k.
              after_wrapping _ _ _ k λ user y g k. after_guard (is_some user) _ _ k λ _ k.
                after_wrapping _ _ _ k λ hash z g' k. after _ _ k λ id z' g'' k.
                  let (draw, made, d2) = generate_ok env g' in
                  let d1 : y.db ≡ u.db = quiet_ok (search read_rules) g in
                  let (f, f') = pure_ok k in
                  let (at, e', free, no_email) =
                    accept_tx_ok rec.token_uuid rec.email rec.role hash (map_err_ok _ g'') in
                  let base : z.db ≡ w.db = d2 ∙ d1 ∙ ap (λ s. s.db) (sym e) ∙ d in
                  record {
                    row = row;
                    present = present;
                    unused = ap (λ t. is_some t.used_at) r ∙ unused;
                    in_time =
                        ap (λ t. ltb t.expires_at w.now) r
                        ∙ ap (ltb rec.expires_at) (sym n ∙ ap (λ s. s.now) e)
                        ∙ in_time;
                    valid = valid;
                    hash = hash;
                    hashed = (draw, made);
                    id = id;
                    new_id = ap (λ a. any (λ v. v.user_uuid == id) a.users) (sym base) ∙ free;
                    new_email =
                        ap (λ t. any (has_email t.email) w.db.users) r
                        ∙ ap (λ a. any (has_email rec.email) a.users) (sym base)
                        ∙ no_email;
                    at = at;
                    effect =
                        ap (λ s. s.db) (sym f')
                        ∙ e'
                        ∙ ap (accepted_db rec.token_uuid (invited id rec.email hash) rec.role at)
                            base
                        ∙ ap
                            (λ t. accepted_db t.token_uuid (invited id t.email hash) t.role at w.db)
                            (sym r);
                  }
