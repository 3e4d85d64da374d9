-- ===== src/Secrecy.antt =====
-- What a login (Handle of login.go) tells of an account to a caller who does not know its password.
use poc_hydra_auth.Prelude.{
  sort_by, ℕ, String, ◌≡◌, refl, sym, ap, subst, ◌∙◌, Bool, true, false, Option, none, some, find?,
}
use poc_hydra_auth.Errors.{Err}
use poc_hydra_auth.Exec.{
  Exec, Result, ok, err, ◌>>=◌, pure, raise, lift, wrapping, wrap_result, attempt, guard,
}
use poc_hydra_auth.Domain.Library.{Library}
use poc_hydra_auth.Domain.Token.{verify_password}
use poc_hydra_auth.World.{
  World, M, Env, select_one, select_many, statement, found, tick, service, check, record_failure,
}
use poc_hydra_auth.Db.{Db, AuthUser}
use poc_hydra_auth.Db.Users.{get_user_by_email, get_user_roles, user_role_names, has_email}
use poc_hydra_auth.Repo.Rows.{if_found, absent_or}
use poc_hydra_auth.Repo.Users.{LoginUser, get_login_user, with_roles}
use poc_hydra_auth.Command.Login.{refuse_login, authenticate, login}

-- Whether a row was found and the password is its user's.
abbrev pub fits : Library → String → Option AuthUser → Bool
fits lib password none = false
fits lib password (some u) = verify_password lib u.password_hash password

-- The user that GetLoginUser makes of the rows.
abbrev login_user : (String → String → Bool) → Db → Option AuthUser → Option LoginUser
login_user collates db none = none
login_user collates db (some row) = some (record {
  user_uuid = row.user_uuid;
  password_hash = row.password_hash;
  status = row.status;
  roles = sort_by collates (user_role_names row.user_uuid db.user_roles);
})

-- Two worlds that differ in what their databases hold, in neither of which the login succeeds.
record Alike {K : Type 0} (lib : Library) (email password : String) (v w : World K) : Type 0 where
  services : v.services ≡ w.services
  now : v.now ≡ w.now
  left : fits lib password (find? (has_email email) v.db.users) ≡ false
  right : fits lib password (find? (has_email email) w.db.users) ≡ false

record Agree {K A : Type 0} (lib : Library) (email password : String) (x y : Result A × World K)
    : Type 0 where
  answer : x.0 ≡ y.0
  after : Alike lib email password x.1 y.1

module _ {K : Type 0} {lib : Library} {email password : String} where
  lifted-Agree :
      {A B : Type 0} (r : Result A) (f : A → M K B) (v w : World K)
      → Alike lib email password v w
      → ((a : A) (v w : World K)
          → Alike lib email password v w
          → Agree lib email password (f a v) (f a w))
      → Agree lib email password ((lift r >>= f) v) ((lift r >>= f) w)
  unfolding ◌>>=◌
  lifted-Agree (ok a) f v w h k = k a v w h
  lifted-Agree (err e) f v w h k = record { answer = refl; after = h }

  bind-Agree :
      {A B : Type 0} (m : M K A) (f : A → M K B) (v w : World K)
      → Agree lib email password (m v) (m w)
      → ((a : A) (v w : World K)
          → Alike lib email password v w
          → Agree lib email password (f a v) (f a w))
      → Agree lib email password ((m >>= f) v) ((m >>= f) w)
  unfolding ◌>>=◌
  bind-Agree m f v w h k =
      subst (λ r. Agree lib email password ((lift (m v).0 >>= f) (m v).1) ((lift r >>= f) (m w).1))
        h.answer (lifted-Agree (m v).0 f (m v).1 (m w).1 h.after k)

  wrapping-Agree :
      {A : Type 0} (message : String) (m : M K A) (v w : World K)
      → Agree lib email password (m v) (m w)
      → Agree lib email password (wrapping message m v) (wrapping message m w)
  unfolding wrapping
  wrapping-Agree message m v w h = record {
    answer = ap (wrap_result message) h.answer;
    after = h.after;
  }

  service-Agree :
      {A : Type 0} (env : Env K) (f : ℕ → K → Result A × K) {v w : World K}
      → Alike lib email password v w
      → Agree lib email password (service env (f v.now) v) (service env (f w.now) w)
  service-Agree env f {v = v} {w = w} h =
      let e : f v.now v.services ≡ f w.now w.services =
        ap (λ n. f n v.services) h.now ∙ ap (f w.now) h.services in
      record {
        answer = ap (λ x. x.0) e;
        after = record { services = ap (λ x. x.1) e; now = h.now; left = h.left; right = h.right };
      }

guard-Agree :
    {K : Type 0} {lib : Library} {email password : String} (b : Bool) (e : Err) (v w : World K)
    → Alike lib email password v w
    → Agree lib email password (guard b e v) (guard b e w)
unfolding guard raise pure
guard-Agree true e v w h = record { answer = refl; after = h }
guard-Agree false e v w h = record { answer = refl; after = h }

pub bind_of_ok :
    {W A B : Type 0} (m : Exec W A) (f : A → Exec W B) {w u : W} {a : A}
    → m w ≡ (ok a, u)
    → (m >>= f) w ≡ f a u
unfolding ◌>>=◌
bind_of_ok m f h = rw h refl

module _ {K : Type 0} (env : Env K) (quiet : (n : ℕ) → env.db_fault n ≡ none) where
  select_one_quiet :
      {A : Type 0} (f : Db → Option A) (w : World K)
      → select_one env f w ≡ (found env (f w.db), tick env w)
  unfolding select_one statement
  select_one_quiet f w = rw (quiet w.draws) refl

  select_many_quiet :
      {A : Type 0} (f : Db → A) (w : World K) → select_many env f w ≡ (ok (f w.db), tick env w)
  unfolding select_many statement
  select_many_quiet f w = rw (quiet w.draws) refl

  if_found_quiet :
      {A : Type 0} (m : M K A) (o : Option A) {w u : World K}
      → m w ≡ (found env o, u)
      → if_found m w ≡ (ok o, u)
  unfolding if_found attempt absent_or ◌>>=◌ pure
  if_found_quiet m none h = rw h refl
  if_found_quiet m (some a) h = rw h refl

  with_roles_quiet :
      (o : Option AuthUser) (w : World K)
      → (v : World K) × (with_roles env o w ≡ (ok (login_user env.collates w.db o), v))
        × (v.services ≡ w.services)
        × (v.now ≡ w.now)
        × (v.db ≡ w.db)
  unfolding with_roles get_user_roles pure
  with_roles_quiet none w = (w, refl, refl, refl, refl)
  with_roles_quiet (some row) w = (
    tick env w,
    bind_of_ok
        (select_many env (λ db. sort_by env.collates (user_role_names row.user_uuid db.user_roles)))
        _
        (select_many_quiet
          (λ db. sort_by env.collates (user_role_names row.user_uuid db.user_roles)) w),
    refl,
    refl,
    refl,
  )

  refused_lem :
      (email password : String) (db : Db) (o : Option AuthUser) (w : World K)
      → fits env.lib password o ≡ false
      → authenticate env email password (login_user env.collates db o) w ≡ refuse_login env email w
  unfolding authenticate
  refused_lem email password db none w h = refl
  refused_lem email password db (some u) w h = rw h refl

  -- The lookup and what follows, where there is no such user or the password is not theirs.
  pub looked_up_lem :
      (email password : String) (w : World K)
      → fits env.lib password (find? (has_email email) w.db.users) ≡ false
      → (v : World K) × ((wrapping "could not look up user" (get_login_user env email)
              >>= authenticate env email password)
            w
          ≡ refuse_login env email v)
        × (v.services ≡ w.services)
        × (v.now ≡ w.now)
        × (v.db ≡ w.db)
  unfolding get_login_user get_user_by_email wrapping
  looked_up_lem email password w h =
      let o = find? (has_email email) w.db.users in
      let by_email : Db → Option AuthUser = λ db. find? (has_email email) db.users in
      let (v, p, s, n, d) = with_roles_quiet o (tick env w) in
      let q : get_login_user env email w ≡ (ok (login_user env.collates w.db o), v) =
        bind_of_ok (if_found (select_one env by_email)) (with_roles env)
          (if_found_quiet (select_one env by_email) o (select_one_quiet by_email w))
        ∙ p in
      (
        v,
        bind_of_ok (wrapping "could not look up user" (get_login_user env email)) _
              (ap (λ x. (wrap_result "could not look up user" x.0, x.1)) q)
            ∙ refused_lem email password w.db o v h,
        s,
        n,
        d,
      )

  refuse-Agree :
      (email password : String) (v w : World K)
      → Alike env.lib email password v w
      → Agree env.lib email password (refuse_login env email v) (refuse_login env email w)
  unfolding refuse_login record_failure raise
  refuse-Agree email password v w h =
      bind-Agree _ _ v w
        (wrapping-Agree _ (record_failure env email) v w
          (service-Agree env (env.record_failure email) h))
        (λ a v w h. record { answer = refl; after = h })

  -- From the lookup on, with the worlds that it leads to.
  looked_up-Agree :
      (email password : String) (v w : World K)
      → Alike env.lib email password v w
      → Agree env.lib email password
          ((wrapping "could not look up user" (get_login_user env email)
              >>= authenticate env email password)
            v)
          ((wrapping "could not look up user" (get_login_user env email)
              >>= authenticate env email password)
            w)
  looked_up-Agree email password v w h =
      let (x, p, s, n, d) = looked_up_lem email password v h.left in
      let (y, q, t, m, e) = looked_up_lem email password w h.right in
      let k = refuse-Agree email password x y (record {
        services = s ∙ h.services ∙ sym t;
        now = n ∙ h.now ∙ sym m;
        left = ap (λ z. fits env.lib password (find? (has_email email) z.users)) d ∙ h.left;
        right = ap (λ z. fits env.lib password (find? (has_email email) z.users)) e ∙ h.right;
      }) in
      rw p (rw q k)

  login-Agree :
      (email password : String) (v w : World K)
      → Alike env.lib email password v w
      → Agree env.lib email password (login env email password v) (login env email password w)
  unfolding login lift check
  login-Agree email password v w h =
      bind-Agree (lift _) _ v w (record { answer = refl; after = h })
        λ a v w h.
          bind-Agree _ _ v w
            (wrapping-Agree _ (check env email) v w (service-Agree env (env.check email) h))
            λ (locked, retry_after) v w h.
              bind-Agree (guard locked _) _ v w (guard-Agree locked _ v w h)
                λ a v w h. looked_up-Agree email password v w h

  -- While no statement fails, for two databases at the same instant and with the same state of the
  -- lockout and the limiters: where for each of them either no user has the address or the password
  -- is not that user's, a login gives the same answer and leaves the lockout and the limiters in
  -- the same state, whatever the databases hold. So to a caller who does not know the password,
  -- they tell neither that an account exists nor its status nor its roles.
  pub login_tells_nothing :
      (email password : String) (v w : World K)
      → v.services ≡ w.services
      → v.now ≡ w.now
      → fits env.lib password (find? (has_email email) v.db.users) ≡ false
      → fits env.lib password (find? (has_email email) w.db.users) ≡ false
      → ((login env email password v).0 ≡ (login env email password w).0)
        × ((login env email password v).1.services ≡ (login env email password w).1.services)
  login_tells_nothing email password v w s n h k =
      let a =
        login-Agree email password v w (record { services = s; now = n; left = h; right = k }) in
      (a.answer, a.after.services)
