-- ===== src/Success/Services.antt =====
-- Identifiers, random bytes and hashes that were returned, and actions that write nothing.
use poc_hydra_auth.Prelude.{
  Bool, true, false, ℕ, suc, List, String, ◌≡◌, refl, sym, ap, ◌∙◌, Option, none, some,
}
use poc_hydra_auth.Exec.{ok}
use poc_hydra_auth.Domain.Token.{hash_token}
use poc_hydra_auth.Domain.Issue.{generate_refresh_token}
use poc_hydra_auth.Respects.{Preorder, Respects}
use poc_hydra_auth.World.{
  Mail, MailKind, delivery, send, LimiterName, Allowance, allow, World, M, Env, required,
  generate_from_password, rand_read, uuid_new,
}
use poc_hydra_auth.Command.Steps.{within_rate_limit, deliver}
use poc_hydra_auth.Success.{guard_ok, map_err_ok, Returns, value_lem, pure_ok, bind_ok, wrapping_ok}

abbrev pub unchanged : Preorder
unchanged = record { rel = λ a b. b ≡ a; rel_refl = λ d. refl; rel_trans = λ a b c h k. k ∙ h }

module _ {K A : Type 0} where
  -- An action that respects equality leaves the database alone.
  pub quiet_ok :
      {m : M K A} {w : World K} {a : A} {v : World K}
      → Respects unchanged m
      → Returns m w a v
      → v.db ≡ w.db
  quiet_ok {m = m} {w = w} {a = a} {v = v} h r =
      let (p, q) = value_lem (m w) a v r.returned in ap (λ x. x.db) (sym q) ∙ h.at w

module _ {K : Type 0} (env : Env K) where
  required_ok :
      {A : Type 0} (o : Option A) (w : World K) {a : A} {v : World K}
      → required env o w ≡ (ok a, v)
      → (v.db ≡ w.db) × (v.now ≡ w.now)
  required_ok none w h = absurd (let x = ap (λ x. x.0) h in cc)
  required_ok (some b) w h = (ap (λ x. x.1.db) (sym h), ap (λ x. x.1.now) (sym h))

  pub rand_ok :
      (n : ℕ) {w : World K} {a : List ℕ} {v : World K}
      → Returns (rand_read env n) w a v
      → (v.db ≡ w.db) × (v.now ≡ w.now)
  unfolding rand_read
  rand_ok n {w = w} h = required_ok (env.rand_read w.draws n) w h.returned

  pub uuid_ok :
      {w : World K} {a : ℕ} {v : World K}
      → Returns (uuid_new env) w a v
      → (v.db ≡ w.db) × (v.now ≡ w.now)
  unfolding uuid_new
  uuid_ok h = (ap (λ x. x.1.db) (sym h.returned), ap (λ x. x.1.now) (sym h.returned))

  -- A UUID comes from uuid.New.
  pub drawn_ok :
      {w : World K} {a : ℕ} {v : World K}
      → Returns (uuid_new env) w a v
      → (env.uuid_new w.draws ≡ a) × (v.draws ≡ suc w.draws)
  unfolding uuid_new
  drawn_ok h = ((let p = ap (λ x. x.0) h.returned in cc), ap (λ x. x.1.draws) (sym h.returned))

  allow_ok :
      (name : LimiterName) (key : String) {w : World K} {a : Allowance} {v : World K}
      → Returns (allow env name key) w a v
      → (v.db ≡ w.db) × (v.now ≡ w.now)
  unfolding allow
  allow_ok name key h = (ap (λ x. x.1.db) (sym h.returned), ap (λ x. x.1.now) (sym h.returned))

  -- A limiter that lets the request pass changes no table.
  pub within_limit_ok :
      (name : LimiterName) (key : String) {w : World K} {a : Unit {0}} {v : World K}
      → Returns (within_rate_limit env name key) w a v
      → (v.db ≡ w.db) × (v.now ≡ w.now)
  unfolding within_rate_limit
  within_limit_ok name key h =
      let (res, u, p, q) = bind_ok h in
      let (d, n) = allow_ok name key (wrapping_ok _ p) in
      let (t, e) = guard_ok _ q in (ap (λ z. z.db) (sym e) ∙ d, ap (λ z. z.now) (sym e) ∙ n)

  delivery_ok :
      (b : Bool) (mail : Mail) (w : World K) {a : Unit {0}} {v : World K}
      → delivery env b mail w ≡ (ok a, v)
      → (b ≡ true) × (v.db ≡ w.db)
  delivery_ok true mail w h = (refl, ap (λ x. x.1.db) (sym h))
  delivery_ok false mail w h = absurd (let x = ap (λ x. x.0) h in cc)

  -- A mail was delivered.
  pub deliver_ok :
      (kind : MailKind) (to plain : String) {w : World K} {a : Unit {0}} {v : World K}
      → Returns (deliver env kind to plain) w a v
      → (n : ℕ) × (env.delivers n (record { kind = kind; to = to; plain_token = plain }) ≡ true)
        × (v.db ≡ w.db)
  unfolding deliver send
  deliver_ok kind to plain {w = w} h =
      let mail : Mail = record { kind = kind; to = to; plain_token = plain } in
      let (p, q) = delivery_ok (env.delivers w.draws mail) mail w (map_err_ok _ h).returned in
      (w.draws, p, q)

  -- The hash that comes with a refresh token is its own.
  pub refresh_token_ok :
      {w : World K} {a : String × String} {v : World K}
      → Returns (generate_refresh_token env) w a v
      → (a.1 ≡ hash_token env.lib a.0) × (v.db ≡ w.db) × (v.now ≡ w.now)
  unfolding generate_refresh_token
  refresh_token_ok {w = w} {a = a} {v = v} h =
      let (b, u, p, q) = bind_ok h in
      let (d, n) = rand_ok _ (wrapping_ok _ p) in
      let (e, e') = pure_ok q in
      (
        sym (ap (λ x. x.1) e) ∙ ap (λ x. hash_token env.lib x.0) e,
        ap (λ z. z.db) (sym e') ∙ d,
        ap (λ z. z.now) (sym e') ∙ n,
      )

  generated :
      (o : Option String) (w : World K) {a : String} {v : World K}
      → required env o w ≡ (ok a, v)
      → (o ≡ some a) × (v.db ≡ w.db)
  generated none w h = absurd (let x = ap (λ x. x.0) h in cc)
  generated (some b) w h = let x = ap (λ x. x.0) h in (cc, ap (λ x. x.1.db) (sym h))

  pub generate_ok :
      {p : String} {cost : ℕ} {w : World K} {a : String} {v : World K}
      → Returns (generate_from_password env p cost) w a v
      → (n : ℕ) × (env.generate_from_password n p cost ≡ some a) × (v.db ≡ w.db)
  unfolding generate_from_password
  generate_ok {p = p} {cost = cost} {w = w} h =
      let (x, y) = generated (env.generate_from_password w.draws p cost) w h.returned in
      (w.draws, x, y)
