-- ===== src/History/Accounts.antt =====
-- Accounts over time: no row goes away or changes hands, and its status moves along the diagram.
use poc_hydra_auth.Prelude.{
  ℕ, ◌==◌, String, ◌≡◌, refl, sym, subst, ◌∙◌, true, none, List, ◌∷◌, arith, any,
}
use poc_hydra_auth.Domain.Status.{Status, status_eq, mail_unverified, inactive, disabled}
use poc_hydra_auth.Lifecycle.{
  Initial, Edge, Walk, stays, moves, append, confirmation, disabling, reactivation,
}
use poc_hydra_auth.World.{World, Env}
use poc_hydra_auth.Db.{Db, AuthUser}
use poc_hydra_auth.Db.Users.{
  InsertUserParams, insert_user, insert_user_role, transition_user_status, update_user_password,
  inserted_user, has_email, in_status,
}
use poc_hydra_auth.Db.Tx.Atomic.{IsRetry}
use poc_hydra_auth.Service.{Request, run}
use poc_hydra_auth.Respects.Statements.{RespectsStatements}
use poc_hydra_auth.Respects.Disabling.{writes_and_disabling}
use poc_hydra_auth.Respects.Requests.{run_lem}
use poc_hydra_auth.Respects.{
  Preorder, Respects, Respects-statement, Respects-checked, Respects-checked_twice,
}
use poc_hydra_auth.Respects.Frames.{emails_frame, resets_frame, invitations_frame, sessions_frame}
use poc_hydra_auth.History.Grows.{Grows, enters, Grows-refl, Grows-trans, Grows-update_where}

-- A row that entered the table: not deleted, and in a state that is reached from an initial one.
pub record Entered (u : AuthUser) : Type 0 where
  pub first : Status
  pub initial : Initial first
  pub walk : Walk first u.status
  pub not_deleted : u.deleted_at ≡ none

-- How one row may change.
pub record Ages (u v : AuthUser) : Type 0 where
  pub same_uuid : v.user_uuid ≡ u.user_uuid
  pub same_email : v.email ≡ u.email
  pub same_created : v.created_at ≡ u.created_at
  pub same_deleted : v.deleted_at ≡ u.deleted_at
  pub walk : Walk u.status v.status

pub Ages-refl : (u : AuthUser) → Ages u u
Ages-refl u = record {
  same_uuid = refl;
  same_email = refl;
  same_created = refl;
  same_deleted = refl;
  walk = stays;
}

pub Ages-trans : (u v w : AuthUser) → Ages u v → Ages v w → Ages u w
Ages-trans u v w h k = record {
  same_uuid = k.same_uuid ∙ h.same_uuid;
  same_email = k.same_email ∙ h.same_email;
  same_created = k.same_created ∙ h.same_created;
  same_deleted = k.same_deleted ∙ h.same_deleted;
  walk = append h.walk k.walk;
}

pub Entered-Ages : (u v : AuthUser) → Entered u → Ages u v → Entered v
Entered-Ages u v h k = record {
  first = h.first;
  initial = h.initial;
  walk = append h.walk k.walk;
  not_deleted = k.same_deleted ∙ h.not_deleted;
}

abbrev pub accounts : Preorder
accounts = record {
  rel = λ a b. Grows Entered Ages a.users b.users;
  rel_refl = λ d. Grows-refl Ages-refl d.users;
  rel_trans = λ a b c g h. Grows-trans Ages-trans Entered-Ages h g;
}

status_eq_sound : (s t : Status) → status_eq s t ≡ true → s ≡ t
status_eq_sound s t h = ground arith

-- The status a row has, from the test of TransitionUserStatus.
pub in_status_lem : (id : ℕ) (s : Status) (u : AuthUser) → in_status id s u ≡ true → u.status ≡ s
in_status_lem id s u h = ground (arith, status_eq_sound u.status s)

module _ {K : Type 0} (env : Env K) where
  transition-accounts :
      (id : ℕ) (to from : Status)
      → Edge from to
      → Respects accounts (transition_user_status env id to from)
  unfolding transition_user_status
  transition-accounts id to from e = Respects-statement env _ λ now db.
      Grows-update_where _ _ Ages-refl
        (λ u h. record {
          same_uuid = refl;
          same_email = refl;
          same_created = refl;
          same_deleted = refl;
          walk = moves stays (subst (λ s. Edge s to) (sym (in_status_lem id from u h)) e);
        })
        db.users

  password-accounts :
      (id : ℕ) (hash : String) → Respects accounts (update_user_password env id hash)
  unfolding update_user_password
  password-accounts id hash = Respects-statement env _ λ now db.
      Grows-update_where _ _ Ages-refl
        (λ u h. record {
          same_uuid = refl;
          same_email = refl;
          same_created = refl;
          same_deleted = refl;
          walk = stays;
        })
        db.users

  insert_user-accounts :
      (arg : InsertUserParams) → Initial arg.status → Respects accounts (insert_user env arg)
  unfolding insert_user
  insert_user-accounts arg i =
      Respects-checked_twice env (λ db. any (λ u. u.user_uuid == arg.user_uuid) db.users)
        (λ db. any (has_email arg.email) db.users) _ _ _
        (λ now db. record db { users = inserted_user now arg ∷ db.users })
        λ now db h k.
          enters (inserted_user now arg)
            (record { first = arg.status; initial = i; walk = stays; not_deleted = refl })
            (accounts.rel_refl db)

  role-accounts : (id : ℕ) (role : String) → Respects accounts (insert_user_role env id role)
  unfolding insert_user_role
  role-accounts id role = Respects-checked env _ _ _ _ (λ now db h. accounts.rel_refl db)

  same : (a b : Db) → b.users ≡ a.users → accounts.rel a b
  same a b h = subst (Grows Entered Ages a.users) (sym h) (accounts.rel_refl a)

  accounts-statements : IsRetry env → RespectsStatements env accounts
  accounts-statements laws = record {
    on_users = record {
      user_in = insert_user-accounts;
      role_in = role-accounts;
      confirm = λ u. transition-accounts u inactive mail_unverified confirmation;
      enable = λ u. transition-accounts u inactive disabled reactivation;
      password = password-accounts;
    };
    on_emails = emails_frame env (λ d. d.users) same (λ db x. refl);
    on_resets = resets_frame env (λ d. d.users) same (λ db x. refl) laws;
    on_invitations = invitations_frame env (λ d. d.users) same (λ db x. refl) laws;
    on_sessions = sessions_frame env (λ d. d.users) same (λ db x. refl);
  }

  -- With backoff.Retry as documented, for every sequence of requests, every time and every answer
  -- of the services and of the database: each account of the starting database is still there, with
  -- the same user_uuid, email, created_at and deleted_at and with a status that a walk along the
  -- diagram of the account states reaches from the one it had; each new account is not deleted and
  -- its status is reached by such a walk from mail_unverified or inactive.
  pub accounts_history :
      (laws : IsRetry env) (rs : List (ℕ × K × Request)) (w : World K)
      → Grows Entered Ages w.db.users (run env rs w).db.users
  accounts_history laws = run_lem env (
      writes_and_disabling env laws (λ u. transition-accounts u disabled inactive disabling)
        (accounts-statements laws))
