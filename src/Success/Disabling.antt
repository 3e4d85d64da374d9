-- ===== src/Success/Disabling.antt =====
-- What the disabling of an account has done when it returns.
use poc_hydra_auth.Prelude.{
  sort_by, length-sort_by, ℕ, String, ◌≡◌, refl, sym, ap, subst, ◌∙◌, true, false, Bool, not,
  not_false_lem, Option, none, some, List, ◌==◌, leb, length, find?, count_where, update_where,
}
use poc_hydra_auth.Errors.{Reason, sentinel, already_disabled}
use poc_hydra_auth.Exec.{ok, guard, ◌>>=◌}
use poc_hydra_auth.Domain.Status.{Status, status_eq, inactive, disabled}
use poc_hydra_auth.World.{World, Env}
use poc_hydra_auth.Db.{Db, AuthUser}
use poc_hydra_auth.Db.Users.{
  is_user, in_status, user_role_names, active_super_admins, get_user_by_uuid, get_user_roles,
  lock_active_super_admins, transition_user_status,
}
use poc_hydra_auth.Db.RefreshTokens.{
  is_unrevoked_of_user, revoke, revoke_where, revoke_refresh_tokens_by_user,
}
use poc_hydra_auth.Db.Tx.Atomic.{IsRetry}
use poc_hydra_auth.Repo.AdminAccounts.{
  find_admin_account, roles_and_status, guard_last_super_admin, disable_account_tx,
}
use poc_hydra_auth.Command.Steps.{has_admin_role}
use poc_hydra_auth.Command.DisableAccount.{
  disable_account, disable_target, disable_found, has_super_admin_role,
}
use poc_hydra_auth.Success.{
  Returns, Returns-intro, raise_ok, map_err_ok, pure_ok, guard_ok, select_many_ok, statement_ok,
}
use poc_hydra_auth.Success.Roles.{has_admin_role-sort_by, has_super_admin_role-sort_by}
use poc_hydra_auth.Success.Steps.{
  after, after_wrapping, after_guard, after_statement, after_lookup, on_commit,
}

-- The account is disabled, and its user's sessions are revoked.
abbrev pub disabled_db : ℕ → ℕ → Db → Db
disabled_db id at a = record a {
  users =
      update_where (in_status id inactive) (λ u. record u { status = disabled; updated_at = at })
        a.users;
  refresh_tokens =
      update_where (is_unrevoked_of_user id) (revoke at (some Reason.account_disabled))
        a.refresh_tokens;
}

module _ {K : Type 0} (env : Env K) (laws : IsRetry env) where
  -- At least two active super administrators, if the target is one.
  abbrev pub Spared : Bool → Db → Type 0
  Spared b a = b ≡ true → leb (length (active_super_admins a.users a.user_roles)) 1 ≡ false

  guard_last_ok :
      (b : Bool) {w v : World K} {a : Unit {0}}
      → Returns (guard_last_super_admin env b) w a v
      → (v.db ≡ w.db) × Spared b w.db
  unfolding guard_last_super_admin lock_active_super_admins
  guard_last_ok true {w = w} h = after _ _ h λ active u g k.
      let (p, d) = select_many_ok env _ g in
      let (f, e) = guard_ok _ k in
      (
        ap (λ z. z.db) (sym e) ∙ d,
        (λ t.
            ap (λ z. leb z 1)
              (sym (length-sort_by leb (active_super_admins w.db.users w.db.user_roles)))
            ∙ ap (λ z. leb (length z) 1) p
            ∙ f),
      )
  guard_last_ok false h = let (p, q) = pure_ok h in (ap (λ z. z.db) (sym q), (λ t. cc))

  -- What the transaction's function has done when it returns.
  abbrev pub Disabling : ℕ → Bool → Db → Db → Type 0
  Disabling id b a c =
      (at : ℕ) × (c ≡ disabled_db id at a)
      × Spared b a
      × (count_where (in_status id inactive) a.users == 0 ≡ false)

  pub disable_body_ok :
      (id : ℕ) (b : Bool) {x y : World K}
      → Returns
          (guard_last_super_admin env b >>= λ _.
            transition_user_status env id disabled inactive >>= λ affected.
            guard (affected == 0) (sentinel already_disabled) >>= λ _.
            revoke_refresh_tokens_by_user env id (some Reason.account_disabled))
          x
          tt
          y
      → Disabling id b x.db y.db
  unfolding transition_user_status revoke_refresh_tokens_by_user revoke_where
  disable_body_ok id b k = after _ _ k λ _ u g k.
      let (d, s) = guard_last_ok b g in
      after_statement env _ _ k λ n z c d' t k. after_guard (n == 0) _ _ k λ f k.
        let (r, d'', t') = statement_ok env _ k in
        let m : count_where (in_status id inactive) u.db.users ≡ n = cc in
        (
          u.now,
          rw (d'', d', d, t) refl,
          s,
          ap (λ z. count_where (in_status id inactive) z.users == 0) (sym d)
              ∙ ap (λ z. z == 0) m
              ∙ f,
        )

  disable_tx_ok :
      (id : ℕ) (b : Bool) {w v : World K}
      → Returns (disable_account_tx env id b) w tt v
      → Disabling id b w.db v.db
  unfolding disable_account_tx
  disable_tx_ok id b {w = w} {v = v} h = on_commit env laws _ h λ x y e k e'.
      subst (λ c. Disabling id b w.db c) (sym e')
        (subst (λ a. Disabling id b a y.db) e (disable_body_ok id b k))

  -- What disable_account has done: the target is an administrator that was there and inactive, and
  -- if it is a super administrator, the table had at least two active ones.
  pub record Disables (target : String) (a b : Db) : Type 0 where
    pub id : ℕ
    pub named : env.lib.uuid_parse target ≡ some id
    pub user : AuthUser
    pub present : find? (is_user id) a.users ≡ some user
    pub not_disabled : status_eq user.status disabled ≡ false
    pub admin : has_admin_role (user_role_names id a.user_roles) ≡ true
    pub spared : Spared (has_super_admin_role (user_role_names id a.user_roles)) a
    pub moved : count_where (in_status id inactive) a.users == 0 ≡ false
    pub at : ℕ
    pub effect : b ≡ disabled_db id at a

  -- What the read of the target found.
  abbrev pub TargetOf : ℕ → Db → List String → Status → Type 0
  TargetOf id a roles status =
      (user : AuthUser) × (find? (is_user id) a.users ≡ some user)
      × (status ≡ user.status)
      × (roles ≡ sort_by env.collates (user_role_names id a.user_roles))

  pub target_row :
      (o : Option AuthUser) (id : ℕ) {w v : World K} {r : Option (List String × Status)}
      → find? (is_user id) w.db.users ≡ o
      → Returns (roles_and_status env o id) w r v
      → (v.db ≡ w.db) × ((x : List String × Status) → r ≡ some x → TargetOf id w.db x.0 x.1)
  unfolding roles_and_status get_user_roles
  target_row none id p h = let (e, q) = pure_ok h in (ap (λ z. z.db) (sym q), (λ x y. absurd cc))
  target_row (some row) id p h = after _ _ h λ roles u g k.
      let (e, d) = select_many_ok env _ g in
      let (f, q) = pure_ok k in
      (
        ap (λ z. z.db) (sym q) ∙ d,
        (λ x y.
            let same : x ≡ (roles, row.status) = cc in
            (row, p, ap (λ z. z.1) same, ap (λ z. z.0) same ∙ sym e)),
      )

  disable_found_ok :
      (target : String) (id : ℕ) (o : Option (List String × Status)) {w v : World K}
      → env.lib.uuid_parse target ≡ some id
      → ((x : List String × Status) → o ≡ some x → TargetOf id w.db x.0 x.1)
      → Returns (disable_found env id o) w tt v
      → Disables target w.db v.db
  unfolding disable_found
  disable_found_ok target id none p q h = absurd (raise_ok _ h)
  disable_found_ok target id (some (roles, status)) {w = w} p q h =
      after_guard (not (has_admin_role roles)) _ _ h λ a k.
        after_guard (status_eq status disabled) _ _ k λ s k.
          let (at, e, spared, moved) =
            disable_tx_ok id (has_super_admin_role roles) (map_err_ok _ k) in
          let (user, present, same, held) = q (roles, status) refl in
          record {
            id = id;
            named = p;
            user = user;
            present = present;
            not_disabled = ap (λ z. status_eq z disabled) (sym same) ∙ s;
            admin =
                sym (has_admin_role-sort_by env.collates (user_role_names id w.db.user_roles))
                ∙ ap has_admin_role (sym held)
                ∙ not_false_lem _ a;
            spared =
                subst (λ b. Spared b w.db)
                  (ap has_super_admin_role held
                    ∙ has_super_admin_role-sort_by env.collates
                        (user_role_names id w.db.user_roles))
                  spared;
            moved = moved;
            at = at;
            effect = e;
          }

  disable_target_ok :
      (target : String) (o : Option ℕ) {w v : World K}
      → env.lib.uuid_parse target ≡ o
      → Returns (disable_target env o) w tt v
      → Disables target w.db v.db
  unfolding disable_target find_admin_account get_user_by_uuid
  disable_target_ok target none p h = absurd (raise_ok _ h)
  disable_target_ok target (some id) {w = w} {v = v} p h = after_wrapping _ _ _ h λ o u g k.
      after_lookup env (λ db. find? (is_user id) db.users) _ g
        λ x d n g.
          let (d', q) =
            target_row (find? (is_user id) w.db.users) id (ap (λ z. find? (is_user id) z.users) d)
              g in
          subst (λ a. Disables target a v.db) (d' ∙ d)
            (disable_found_ok target id o p
              (λ y e. subst (λ a. TargetOf id a y.0 y.1) (sym d') (q y e)) k)

  -- With backoff.Retry as documented: whenever disable_account returns without error, the target
  -- names a user that was there, not deleted, not disabled and with an administrator's role, and
  -- its status was inactive; if it has the role super_admin, the join of the users and roles tables
  -- had at least two rows of active super administrators; and the database is the old one, but that
  -- the user is disabled and that every refresh token of the user that was not revoked, and no
  -- other, is revoked with the reason account_disabled.
  pub disable_account_effect :
      (operator target : String) (w : World K)
      → (disable_account env operator target w).0 ≡ ok tt
      → Disables target w.db (disable_account env operator target w).1.db
  unfolding disable_account
  disable_account_effect operator target w h =
      disable_target_ok target (env.lib.uuid_parse target) refl
        (Returns-intro (disable_account env operator target) w tt h)
