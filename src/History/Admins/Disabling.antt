-- ===== src/History/Admins/Disabling.antt =====
-- What a request to disable an account does to the database, whatever it answers.
use poc_hydra_auth.Prelude.{
  sort_by, ℕ, String, ◌≡◌, refl, sym, ap, subst, ◌∙◌, ◌⊎◌, inl, inr, Bool, true, false, not, Option,
  none, some, List, find?,
}
use poc_hydra_auth.Errors.{Err}
use poc_hydra_auth.Exec.{Result, ok, err, ◌>>=◌, raise, pure, guard, lift, wrapping, map_err}
use poc_hydra_auth.Domain.Status.{Status, status_eq, disabled}
use poc_hydra_auth.World.{World, M, Env}
use poc_hydra_auth.Db.{Db}
use poc_hydra_auth.Db.Users.{is_user, user_role_names, get_user_by_uuid}
use poc_hydra_auth.Db.Tx.Atomic.{IsRetry, AllOrNothing, update_in_tx_atomic}
use poc_hydra_auth.Repo.AdminAccounts.{disable_account_tx, find_admin_account}
use poc_hydra_auth.Command.Steps.{has_admin_role}
use poc_hydra_auth.Command.DisableAccount.{
  disable_account, disable_target, disable_found, has_super_admin_role,
}
use poc_hydra_auth.Respects.{Preorder, Respects-wrapping}
use poc_hydra_auth.Respects.Reads.{find_admin_account-Respects}
use poc_hydra_auth.Success.{Returns, Returns-intro, wrapping_ok}
use poc_hydra_auth.Success.Roles.{has_super_admin_role-sort_by}
use poc_hydra_auth.Success.Steps.{after_lookup}
use poc_hydra_auth.Success.Disabling.{
  disabled_db, Spared, Disabling, disable_body_ok, TargetOf, target_row,
}

abbrev still : Preorder
still = record { rel = λ a b. b ≡ a; rel_refl = λ d. refl; rel_trans = λ a b c h k. k ∙ h }

module _ {K A B : Type 0} (P : Db → Type 0) where
  lifted :
      (v : World K) (r : Result A) (f : A → M K B)
      → P v.db
      → ((a : A) → r ≡ ok a → P (f a v).1.db)
      → P ((lift r >>= f) v).1.db
  unfolding ◌>>=◌
  lifted v (ok a) f h k = k a refl
  lifted v (err e) f h k = h

  chained :
      (m : M K A) (f : A → M K B) (w : World K)
      → P (m w).1.db
      → ((a : A) → (m w).0 ≡ ok a → P (f a (m w).1).1.db)
      → P ((m >>= f) w).1.db
  unfolding ◌>>=◌
  chained m f w h k = lifted (m w).1 (m w).0 f h k

module _ {K B : Type 0} (P : Db → Type 0) where
  guarded :
      (b : Bool) (e : Err) (f : Unit {0} → M K B) (w : World K)
      → P w.db
      → P (f tt w).1.db
      → P ((guard b e >>= f) w).1.db
  unfolding ◌>>=◌ guard raise pure
  guarded true e f w h k = h
  guarded false e f w h k = k

module _ {K : Type 0} (env : Env K) (laws : IsRetry env) where
  -- Nothing has changed, or one account is disabled that may be.
  abbrev pub DisabledOrSame : Db → Db → Type 0
  DisabledOrSame a b =
      (b ≡ a)
      ⊎ ((id at : ℕ) × (b ≡ disabled_db id at a)
          × Spared env laws (has_super_admin_role (user_role_names id a.user_roles)) a)

  atomic_lem :
      (id : ℕ) (b : Bool) (fn : M K (Unit {0})) (w : World K) (r : Result (Unit {0}) × World K)
      → ((x y : World K) → Returns fn x tt y → Disabling env laws id b x.db y.db)
      → AllOrNothing env fn w r
      → (r.1.db ≡ w.db) ⊎ Disabling env laws id b w.db r.1.db
  atomic_lem id b fn w r h (inl (e, p, q)) = inl q
  atomic_lem id b fn w r h (inr (v, p, q, s, t)) = inr (
      subst (λ c. Disabling env laws id b w.db c) (sym t)
        (subst (λ a. Disabling env laws id b a (fn v).1.db) p
          (h v (fn v).1 (Returns-intro fn v tt q))))

  tx_lem :
      (id : ℕ) (roles : List String) (w : World K)
      → roles ≡ sort_by env.collates (user_role_names id w.db.user_roles)
      → DisabledOrSame w.db (disable_account_tx env id (has_super_admin_role roles) w).1.db
  unfolding disable_account_tx
  tx_lem id roles w held =
      elim (atomic_lem id (has_super_admin_role roles) _ w
        (disable_account_tx env id (has_super_admin_role roles) w)
        (λ x y h. disable_body_ok env laws id (has_super_admin_role roles) h)
        (update_in_tx_atomic env laws _ w)) [
          | inl q ↦ inl q
          | inr (at, e, spared, moved) ↦ inr (
            id,
            at,
            e,
            subst (λ z. Spared env laws z w.db)
                (ap has_super_admin_role held
                  ∙ has_super_admin_role-sort_by env.collates (user_role_names id w.db.user_roles))
                spared,
          )
        ]

  found_lem :
      (id : ℕ) (o : Option (List String × Status)) (w : World K)
      → ((x : List String × Status) → o ≡ some x → TargetOf env laws id w.db x.0 x.1)
      → DisabledOrSame w.db (disable_found env id o w).1.db
  unfolding disable_found map_err raise
  found_lem id none w h = inl refl
  found_lem id (some (roles, status)) w h =
      let (user, present, same, held) = h (roles, status) refl in
      guarded (DisabledOrSame w.db) (not (has_admin_role roles)) _ _ w (inl refl) (
        guarded (DisabledOrSame w.db) (status_eq status disabled) _ _ w (inl refl)
          (tx_lem id roles w held))

  read_lem :
      (id : ℕ) (w v : World K) (o : Option (List String × Status))
      → Returns (find_admin_account env id) w o v
      → (v.db ≡ w.db)
        × ((x : List String × Status) → o ≡ some x → TargetOf env laws id w.db x.0 x.1)
  unfolding find_admin_account get_user_by_uuid
  read_lem id w v o h =
      after_lookup env (λ db. find? (is_user id) db.users) _ h
        λ x d n g.
          let (d', q) =
            target_row env laws (find? (is_user id) w.db.users) id
              (ap (λ z. find? (is_user id) z.users) d) g in
          (d' ∙ d, (λ y e. subst (λ a. TargetOf env laws id a y.0 y.1) d (q y e)))

  target_lem : (o : Option ℕ) (w : World K) → DisabledOrSame w.db (disable_target env o w).1.db
  unfolding disable_target raise
  target_lem none w = inl refl
  target_lem (some id) w =
      let find = wrapping "could not look up account" (find_admin_account env id) in
      chained (DisabledOrSame w.db) find _ w
        (inl ((Respects-wrapping {R = still} _ _ (find_admin_account-Respects env id)).at w))
        λ o p.
          let (d, q) = read_lem id w _ o (wrapping_ok _ (Returns-intro _ w o p)) in
          subst (λ a. DisabledOrSame a (disable_found env id o (find w).1).1.db) d
            (found_lem id o (find w).1
              (λ x e. subst (λ a. TargetOf env laws id a x.0 x.1) (sym d) (q x e)))

  pub disabled_or_same :
      (operator target : String) (w : World K)
      → DisabledOrSame w.db (disable_account env operator target w).1.db
  unfolding disable_account
  disabled_or_same operator target w = target_lem (env.lib.uuid_parse target) w
