-- ===== src/History/Admins.antt =====
-- How many rows of active super administrators a change of the tables takes away.
pub mod Disabling
pub mod Kept
use poc_hydra_auth.Prelude.{
  ℕ, ◌+◌, ◌≤◌, ◌==◌, ==_iff, String, str_eq, ◌≡◌, refl, sym, ap, subst, ◌∙◌, inl, inr, Bool, true,
  false, ◌&&◌, ◌||◌, eq_iff, List, [], ◌∷◌, ◌++◌, length, length-append, any, count_where,
  update_where, if◌then◌else◌, arith, Bool-cases,
}
use poc_hydra_auth.Domain.Status.{role_super_admin}
use poc_hydra_auth.Db.{AuthUser, AuthUserRole}
use poc_hydra_auth.Db.Users.{
  is_active, grants_super_admin, copies, joined_rows, active_super_admins, user_role_names,
}
use poc_hydra_auth.Command.DisableAccount.{has_super_admin_role}
use poc_hydra_auth.History.Keyed.{Keyed, row, no_rows}

abbrev pub same_user : AuthUser → AuthUser → Bool
same_user u v = v.user_uuid == u.user_uuid

abbrev pub same_role : AuthUserRole → AuthUserRole → Bool
same_role r s = s.user_uuid == r.user_uuid && str_eq s.role r.role

-- The rows that a user brings into the join.
abbrev pub share : AuthUser → List AuthUserRole → ℕ
share u roles = if is_active u then length (joined_rows u.user_uuid roles) else 0

abbrev pub admins : List AuthUser → List AuthUserRole → ℕ
admins users roles = length (active_super_admins users roles)

admins_step :
    (u : AuthUser) (us : List AuthUser) (roles : List AuthUserRole)
    → admins (u ∷ us) roles ≡ share u roles + admins us roles
admins_step u us roles = elim (Bool-cases (is_active u)) [
  | inl e ↦ rw e (length-append (joined_rows u.user_uuid roles) (active_super_admins us roles))
  | inr e ↦ rw e (omega arith)
]

-- A change that takes no share away.
pub admins-update_where :
    (p : AuthUser → Bool) (f : AuthUser → AuthUser) (roles : List AuthUserRole)
    → ((u : AuthUser) → p u ≡ true → share u roles ≤ share (f u) roles)
    → (us : List AuthUser) → admins us roles ≤ admins (update_where p f us) roles
admins-update_where p f roles h [] = omega arith
admins-update_where p f roles h (u ∷ us) =
    let ih = admins-update_where p f roles h us in
    elim (Bool-cases (p u)) [
      | inl e ↦ rw e (
          omega (
            arith,
            admins_step u us roles,
            admins_step (f u) (update_where p f us) roles,
            ih,
            h u e,
          ))
      | inr e ↦
          rw e
            (omega (arith, admins_step u us roles, admins_step u (update_where p f us) roles, ih))
    ]

pub share_bound :
    (id m : ℕ) (u : AuthUser) (roles : List AuthUserRole)
    → u.user_uuid ≡ id
    → length (joined_rows id roles) ≤ m
    → share u roles ≤ m
share_bound id m u roles e k = elim (Bool-cases (is_active u)) [
  | inl f ↦ rw f (subst (λ i. length (joined_rows i roles) ≤ m) (sym e) k)
  | inr f ↦ rw f (omega arith)
]

-- A change of one user's rows, where the user has one row in the join at most.
pub admins_loss :
    (id : ℕ) (p : AuthUser → Bool) (f : AuthUser → AuthUser) (roles : List AuthUserRole)
    → ((u : AuthUser) → p u ≡ true → u.user_uuid == id ≡ true)
    → length (joined_rows id roles) ≤ 1
    → (us : List AuthUser)
    → admins us roles ≤ admins (update_where p f us) roles + count_where (λ u. u.user_uuid == id) us
admins_loss id p f roles h k [] = omega arith
admins_loss id p f roles h k (u ∷ us) =
    let ih = admins_loss id p f roles h k us in
    elim (Bool-cases (p u)) [
      | inl e ↦
          rw (e, h u e)
            (omega (
              arith,
              admins_step u us roles,
              admins_step (f u) (update_where p f us) roles,
              ih,
              share_bound id 1 u roles ((==_iff u.user_uuid id).0 (h u e)) k,
            ))
      | inr e ↦
          rw e
            (omega (arith, admins_step u us roles, admins_step u (update_where p f us) roles, ih))
    ]

either_lem : (b c : Bool) → (if b then true else c) ≡ false → (b ≡ false) × (c ≡ false)
either_lem true c h = cc h
either_lem false c h = (refl, h)

or_lem : (b c : Bool) → (b || c) ≡ false → (b ≡ false) × (c ≡ false)
or_lem true c h = cc h
or_lem false c h = (refl, h)

pub and_lem : (b c : Bool) → (b && c) ≡ true → (b ≡ true) × (c ≡ true)
and_lem true c h = (refl, h)
and_lem false c h = cc h

none_counted : {A : Type 0} (p : A → Bool) (xs : List A) → any p xs ≡ false → count_where p xs ≡ 0
none_counted p [] h = refl
none_counted p (x ∷ xs) h =
    let (e, f) = either_lem (p x) (any p xs) h in rw (e, none_counted p xs f) (omega arith)

-- A key is there once.
pub count_once :
    (id : ℕ) (us : List AuthUser) → Keyed same_user us → count_where (λ u. u.user_uuid == id) us ≤ 1
count_once id [] k = omega arith
count_once id (u ∷ us) (row _ n t) = elim (Bool-cases (u.user_uuid == id)) [
  | inl e ↦
      let p = (==_iff u.user_uuid id).0 e in
      let zero =
        subst (λ i. count_where (λ v. v.user_uuid == i) us ≡ 0) p
          (none_counted (same_user u) us n) in
      rw e (omega (arith, zero))
  | inr e ↦ rw e (omega (arith, count_once id us t))
]

pub no_share :
    (id : ℕ) (roles : List AuthUserRole)
    → has_super_admin_role (user_role_names id roles) ≡ false
    → length (joined_rows id roles) ≡ 0
no_share id [] h = refl
no_share id (r ∷ rs) h = elim (Bool-cases (r.user_uuid == id)) [
  | inl e ↦
      let h' : (str_eq r.role role_super_admin || has_super_admin_role (user_role_names id rs))
          ≡ false =
        subst
          (λ c.
            has_super_admin_role
              (if c then r.role ∷ user_role_names id rs else user_role_names id rs)
            ≡ false)
          e h in
      let (f, g) =
        or_lem (str_eq r.role role_super_admin) (has_super_admin_role (user_role_names id rs)) h' in
      rw (e, f) (no_share id rs g)
  | inr e ↦ rw e (
      no_share id rs (
        subst
          (λ c.
            has_super_admin_role
              (if c then r.role ∷ user_role_names id rs else user_role_names id rs)
            ≡ false)
          e h))
]

others_lem :
    (id : ℕ) (r : AuthUserRole) (rs : List AuthUserRole)
    → r.user_uuid ≡ id
    → r.role ≡ role_super_admin
    → any (same_role r) rs ≡ false
    → length (joined_rows id rs) ≡ 0
others_lem id r [] p q h = refl
others_lem id r (s ∷ ss) p q h =
    let (e, f) = either_lem (same_role r s) (any (same_role r) ss) h in
    let g =
      subst (λ i. (s.user_uuid == i && str_eq s.role role_super_admin) ≡ false) p
        (subst (λ x. (s.user_uuid == r.user_uuid && str_eq s.role x) ≡ false) q e) in
    rw g (others_lem id r ss p q f)

pub one_share :
    (id : ℕ) (roles : List AuthUserRole) → Keyed same_role roles → length (joined_rows id roles) ≤ 1
one_share id [] k = omega arith
one_share id (r ∷ rs) (row _ n t) = elim (Bool-cases (grants_super_admin id r)) [
  | inl e ↦
      let (p, q) = and_lem (r.user_uuid == id) (str_eq r.role role_super_admin) e in
      let zero =
        others_lem id r rs ((==_iff r.user_uuid id).0 p) ((eq_iff r.role role_super_admin).0 q) n in
      rw e (omega (arith, zero))
  | inr e ↦ rw e (one_share id rs t)
]

share_role :
    (r : AuthUserRole) (roles : List AuthUserRole) (u : AuthUser)
    → share u roles ≤ share u (r ∷ roles)
share_role r roles u = elim (Bool-cases (is_active u)) [
  | inl e ↦ elim (Bool-cases (grants_super_admin u.user_uuid r)) [
    | inl f ↦ rw (e, f) (omega arith)
    | inr f ↦ rw (e, f) (omega arith)
  ]
  | inr e ↦ rw e (omega arith)
]

pub admins_role :
    (r : AuthUserRole) (roles : List AuthUserRole) (us : List AuthUser)
    → admins us roles ≤ admins us (r ∷ roles)
admins_role r roles [] = omega arith
admins_role r roles (u ∷ us) = omega (
  arith,
  admins_step u us roles,
  admins_step u us (r ∷ roles),
  share_role r roles u,
  admins_role r roles us,
)

pub admins_user :
    (u : AuthUser) (us : List AuthUser) (roles : List AuthUserRole)
    → admins us roles ≤ admins (u ∷ us) roles
admins_user u us roles = omega (arith, admins_step u us roles)
