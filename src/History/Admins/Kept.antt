-- ===== src/History/Admins/Kept.antt =====
-- The last active super administrator: no run of requests takes that role's last active holder away.
use poc_hydra_auth.Prelude.{
  ℕ, ◌≤◌, ◌==◌, ==_iff, String, str_eq, ◌≡◌, refl, sym, ap, subst, inl, inr, Bool, true, false,
  ◌&&◌, List, ◌∷◌, length, any, leb, is_none, arith, Bool-cases,
}
use poc_hydra_auth.Domain.Status.{Status, status_eq, mail_unverified, inactive, disabled}
use poc_hydra_auth.Lifecycle.{Initial}
use poc_hydra_auth.World.{World, Env}
use poc_hydra_auth.Db.{Db, AuthUser, AuthUserRole}
use poc_hydra_auth.Db.Users.{
  InsertUserParams, insert_user, insert_user_role, transition_user_status, update_user_password,
  inserted_user, has_email, in_status, is_user, active_super_admins, user_role_names,
}
use poc_hydra_auth.Db.Tx.Atomic.{IsRetry}
use poc_hydra_auth.Command.DisableAccount.{disable_account, has_super_admin_role}
use poc_hydra_auth.Service.{Request, run}
use poc_hydra_auth.Respects.Statements.{RespectsStatements, writes_of_statements}
use poc_hydra_auth.Respects.Requests.{run_lem}
use poc_hydra_auth.Respects.{
  Preorder, Respects, Respects-statement, Respects-checked, Respects-checked_twice,
}
use poc_hydra_auth.Respects.Frames.{emails_frame, resets_frame, invitations_frame, sessions_frame}
use poc_hydra_auth.Success.Disabling.{disabled_db}
use poc_hydra_auth.History.Keyed.{Keyed, row, Keyed-update_where}
use poc_hydra_auth.History.Accounts.{in_status_lem}
use poc_hydra_auth.History.Admins.{
  same_user, same_role, share_bound, admins, share, admins-update_where, admins_loss, count_once,
  no_share, one_share, admins_role, admins_user, and_lem,
}
use poc_hydra_auth.History.Admins.Disabling.{DisabledOrSame, disabled_or_same}

-- No two rows of a user's UUID, and no role granted twice to a user.
pub record HasKeys (d : Db) : Type 0 where
  pub users_keyed : Keyed same_user d.users
  pub roles_keyed : Keyed same_role d.user_roles

-- The rows that LockActiveSuperAdmins counts.
abbrev pub admin_count : Db → ℕ
admin_count d = admins d.users d.user_roles

pub record KeepsAdmin (a b : Db) : Type 0 where
  pub keys : HasKeys a → HasKeys b
  pub one_left : HasKeys a → 1 ≤ admin_count a → 1 ≤ admin_count b

abbrev pub admins_kept : Preorder
admins_kept = record {
  rel = KeepsAdmin;
  rel_refl = λ d. record { keys = λ h. h; one_left = λ h k. k };
  rel_trans = λ a b c h k. record {
    keys = λ s. k.keys (h.keys s);
    one_left = λ s n. k.one_left (h.keys s) (h.one_left s n);
  };
}

inactive_lem :
    (s t : Status) (c : Bool)
    → s ≡ t
    → status_eq t inactive ≡ false
    → (status_eq s inactive && c) ≡ false
inactive_lem s t c p h = subst (λ x. (status_eq x inactive && c) ≡ false) (sym p) (rw h refl)

-- A user that was not active brought nothing into the join.
share_lem :
    (u : AuthUser) (roles : List AuthUserRole) (from : Status) (m : ℕ)
    → u.status ≡ from
    → status_eq from inactive ≡ false
    → share u roles ≤ m
share_lem u roles from m p h =
    rw (inactive_lem u.status from (is_none u.deleted_at) p h) (omega arith)

two_lem : (n : ℕ) → leb n 1 ≡ false → 2 ≤ n
two_lem n h = ground (arith, h)

-- Disabling one user, who is not the last.
disabled_lem :
    (id at : ℕ) (a : Db)
    → (has_super_admin_role (user_role_names id a.user_roles) ≡ true
        → leb (admin_count a) 1 ≡ false)
    → KeepsAdmin a (disabled_db id at a)
disabled_lem id at a spared =
    let p = in_status id inactive in
    let f : AuthUser → AuthUser = λ u. record u { status = disabled; updated_at = at } in
    let own : (u : AuthUser) → p u ≡ true → u.user_uuid == id ≡ true =
      (λ u h. (and_lem (u.user_uuid == id) _ h).0) in
    record {
      keys = λ s. record {
        users_keyed =
            Keyed-update_where same_user p f (λ x y. refl) (λ x y. refl) a.users s.users_keyed;
        roles_keyed = s.roles_keyed;
      };
      one_left = λ s n. elim (Bool-cases (has_super_admin_role (user_role_names id a.user_roles))) [
        | inl e ↦
            let loss =
              admins_loss id p f a.user_roles own (one_share id a.user_roles s.roles_keyed)
                a.users in
            omega
              (arith, two_lem (admin_count a) (spared e), loss, count_once id a.users s.users_keyed)
        | inr e ↦
            let none_left = no_share id a.user_roles e in
            let k =
              admins-update_where p f a.user_roles
                (λ u h.
                  let z =
                    share_bound id 0 u a.user_roles ((==_iff u.user_uuid id).0 (own u h))
                      (omega (arith, none_left)) in
                  omega (arith, z))
                a.users in
            omega (arith, n, k)
      ];
    }

abbrev tables : Db → List AuthUser × List AuthUserRole
tables d = (d.users, d.user_roles)

same : (a b : Db) → tables b ≡ tables a → KeepsAdmin a b
same a b h = record {
  keys = λ s. record {
    users_keyed = subst (Keyed same_user) (sym (ap (λ t. t.0) h)) s.users_keyed;
    roles_keyed = subst (Keyed same_role) (sym (ap (λ t. t.1) h)) s.roles_keyed;
  };
  one_left = λ s n. subst (λ t. 1 ≤ admins t.0 t.1) (sym h) n;
}

module _ {K : Type 0} (env : Env K) where
  transition-admins :
      (id : ℕ) (to from : Status)
      → status_eq from inactive ≡ false
      → Respects admins_kept (transition_user_status env id to from)
  unfolding transition_user_status
  transition-admins id to from e = Respects-statement env _ λ now db.
      let f : AuthUser → AuthUser = λ u. record u { status = to; updated_at = now } in
      record {
        keys = λ s. record {
          users_keyed =
              Keyed-update_where same_user (in_status id from) f (λ x y. refl) (λ x y. refl)
                db.users s.users_keyed;
          roles_keyed = s.roles_keyed;
        };
        one_left = λ s n.
            let k =
              admins-update_where (in_status id from) f db.user_roles
                (λ u h. share_lem u db.user_roles from _ (in_status_lem id from u h) e) db.users in
            omega (arith, n, k);
      }

  password-admins :
      (id : ℕ) (hash : String) → Respects admins_kept (update_user_password env id hash)
  unfolding update_user_password
  password-admins id hash = Respects-statement env _ λ now db.
      let f : AuthUser → AuthUser = λ u. record u { password_hash = hash; updated_at = now } in
      record {
        keys = λ s. record {
          users_keyed =
              Keyed-update_where same_user (is_user id) f (λ x y. refl) (λ x y. refl) db.users
                s.users_keyed;
          roles_keyed = s.roles_keyed;
        };
        one_left = λ s n.
            let k =
              admins-update_where (is_user id) f db.user_roles (λ u h. omega arith) db.users in
            omega (arith, n, k);
      }

  user-admins :
      (arg : InsertUserParams) → Initial arg.status → Respects admins_kept (insert_user env arg)
  unfolding insert_user
  user-admins arg i =
      Respects-checked_twice env (λ db. any (λ u. u.user_uuid == arg.user_uuid) db.users)
        (λ db. any (has_email arg.email) db.users) _ _ _
        (λ now db. record db { users = inserted_user now arg ∷ db.users })
        λ now db h k. record {
          keys = λ s. record {
            users_keyed = row (inserted_user now arg) h s.users_keyed;
            roles_keyed = s.roles_keyed;
          };
          one_left =
              λ s n. omega (arith, n, admins_user (inserted_user now arg) db.users db.user_roles);
        }

  role-admins : (id : ℕ) (role : String) → Respects admins_kept (insert_user_role env id role)
  unfolding insert_user_role
  role-admins id role =
      Respects-checked env (λ db. any (λ r. r.user_uuid == id && str_eq r.role role) db.user_roles)
        _ _
        (λ now db. record db {
          user_roles = record { user_uuid = id; role = role; granted_at = now } ∷ db.user_roles;
        })
        λ now db h.
          let r : AuthUserRole = record { user_uuid = id; role = role; granted_at = now } in
          record {
            keys = λ s. record { users_keyed = s.users_keyed; roles_keyed = row r h s.roles_keyed };
            one_left = λ s n. omega (arith, n, admins_role r db.user_roles db.users);
          }

  admins-statements : IsRetry env → RespectsStatements env admins_kept
  admins-statements laws = record {
    on_users = record {
      user_in = user-admins;
      role_in = role-admins;
      confirm = λ u. transition-admins u inactive mail_unverified refl;
      enable = λ u. transition-admins u inactive disabled refl;
      password = password-admins;
    };
    on_emails = emails_frame env tables same (λ db x. refl);
    on_resets = resets_frame env tables same (λ db x. refl) laws;
    on_invitations = invitations_frame env tables same (λ db x. refl) laws;
    on_sessions = sessions_frame env tables same (λ db x. refl);
  }

  module _ (laws : IsRetry env) where
    either_lem : (a b : Db) → DisabledOrSame env laws a b → KeepsAdmin a b
    either_lem a b (inl e) = subst (KeepsAdmin a) (sym e) (admins_kept.rel_refl a)
    either_lem a b (inr (id, at, e, spared)) =
        subst (KeepsAdmin a) (sym e) (disabled_lem id at a spared)

    disabling-admins :
        (operator target : String) → Respects admins_kept (disable_account env operator target)
    disabling-admins operator target = record {
      at = λ w. either_lem w.db _ (disabled_or_same env laws operator target w);
    }

    -- With backoff.Retry as documented, for every sequence of requests, every time and every answer
    -- of the services and of the database: from a database in which no user_uuid stands in two rows
    -- of the users and no role is granted twice to one user, the run leads to such a database, and
    -- when the first has an active super administrator, so has the last.
    pub last_super_admin_kept :
        (rs : List (ℕ × K × Request)) (w : World K)
        → HasKeys w.db
        → HasKeys (run env rs w).db
          × (1 ≤ length (active_super_admins w.db.users w.db.user_roles)
              → 1
                ≤ length (active_super_admins (run env rs w).db.users (run env rs w).db.user_roles))
    last_super_admin_kept rs w h =
        let k =
          run_lem env (writes_of_statements env laws (admins-statements laws) disabling-admins) rs
            w in
        (k.keys h, k.one_left h)
