-- ===== src/Success.antt =====
-- What is known of an action that returned without error: the inversion lemmas from which the
-- theorems on successful requests are put together.
pub mod Lookups
pub mod Services
pub mod Steps
pub mod Passwords
pub mod Resets
pub mod Verification
pub mod Inserts
pub mod Invitations
pub mod Registration
pub mod Rotation
pub mod Refresh
pub mod Logout
pub mod Disabling
pub mod Roles
pub mod Issuing
pub mod Login
pub mod Reuse
use poc_hydra_auth.Prelude.{
  ℕ, List, String, ◌≡◌, refl, sym, ap, ◌∙◌, ◌⊎◌, inl, inr, Bool, true, false, Option, none, some,
  arith, if◌then◌else◌,
}
use poc_hydra_auth.Errors.{
  Err, DbFault, is, no_rows, could_not_serialize, unique_violation, failure, reply_lost,
}
use poc_hydra_auth.Exec.{
  Result, ok, err, ◌>>=◌, pure, raise, lift, wrapping, wrap_result, map_err, map_result, attempt,
  guard,
}
use poc_hydra_auth.Db.{Db}
use poc_hydra_auth.Db.Tx.{update_in_tx}
use poc_hydra_auth.Db.Tx.Atomic.{IsRetry, AllOrNothing, update_in_tx_atomic}
use poc_hydra_auth.Domain.Token.{hash_token}
use poc_hydra_auth.Domain.Issue.{generate_refresh_token}
use poc_hydra_auth.Respects.{Preorder, Respects}
use poc_hydra_auth.Repo.Rows.{absent_or, if_found}
use poc_hydra_auth.World.{
  World, M, Env, outcome, statement, select_one, select_many, found, tick, required,
  generate_from_password, rand_read, uuid_new,
}

-- `m` returns `a` and leaves `v`.
pub record Returns {K A : Type 0} (m : M K A) (w : World K) (a : A) (v : World K) : Type 0 where
  pub returned : m w ≡ (ok a, v)

pub Returns-intro :
    {K A : Type 0} (m : M K A) (w : World K) (a : A) → (m w).0 ≡ ok a → Returns m w a (m w).1
Returns-intro m w a h = record { returned = cc }

module _ {A : Type 0} where
  wrap_result_ok : (s : String) (r : Result A) (a : A) → wrap_result s r ≡ ok a → r ≡ ok a
  wrap_result_ok s (ok b) a h = h
  wrap_result_ok s (err e) a h = cc

  map_result_ok : (f : Err → Err) (r : Result A) (a : A) → map_result f r ≡ ok a → r ≡ ok a
  map_result_ok f (ok b) a h = h
  map_result_ok f (err e) a h = cc

pub Returns-parts :
    {K A : Type 0} (m : M K A) (w : World K) (a : A) (v : World K)
    → (m w).0 ≡ ok a
    → (m w).1 ≡ v
    → Returns m w a v
Returns-parts m w a v h k = record { returned = cc }

module _ {K A : Type 0} where
  pub value_lem :
      (r : Result A × World K) (a : A) (v : World K) → r ≡ (ok a, v) → (r.0 ≡ ok a) × (r.1 ≡ v)
  value_lem r a v h = (ap (λ x. x.0) h, ap (λ x. x.1) h)

  pub pure_ok : {a b : A} {w v : World K} → Returns (pure a) w b v → (a ≡ b) × (w ≡ v)
  unfolding pure
  pure_ok {a = a} {b = b} {w = w} {v = v} h = let e = h.returned in (cc, cc)

  pub raise_ok : (e : Err) {b : A} {w v : World K} → Returns (raise e) w b v → ⊥
  unfolding raise
  raise_ok e {b = b} {w = w} {v = v} h = let e = h.returned in cc

  pub lift_ok :
      {r : Result A} {b : A} {w v : World K} → Returns (lift r) w b v → (r ≡ ok b) × (w ≡ v)
  unfolding lift
  lift_ok {r = r} {b = b} {w = w} {v = v} h = let e = h.returned in (cc, cc)

  pair_lem : (r : Result A × World K) (a : A) (v : World K) → r.0 ≡ ok a → r.1 ≡ v → r ≡ (ok a, v)
  pair_lem (x, y) a v h k = cc

  pub wrapping_ok :
      (s : String) {m : M K A} {w : World K} {a : A} {v : World K}
      → Returns (wrapping s m) w a v
      → Returns m w a v
  unfolding wrapping
  wrapping_ok s {m = m} {w = w} {a = a} {v = v} h =
      let (e, e') = value_lem _ a v h.returned in
      record { returned = pair_lem (m w) a v (wrap_result_ok s (m w).0 a e) e' }

  pub map_err_ok :
      (f : Err → Err) {m : M K A} {w : World K} {a : A} {v : World K}
      → Returns (map_err f m) w a v
      → Returns m w a v
  unfolding map_err
  map_err_ok f {m = m} {w = w} {a = a} {v = v} h =
      let (e, e') = value_lem _ a v h.returned in
      record { returned = pair_lem (m w) a v (map_result_ok f (m w).0 a e) e' }

  pub if_ok :
      {b : Bool} {m n : M K A} {w : World K} {a : A} {v : World K}
      → Returns (if b then m else n) w a v
      → ((b ≡ true) × Returns m w a v) ⊎ ((b ≡ false) × Returns n w a v)
  if_ok {b = true} {m = m} {n = n} {w = w} {a = a} {v = v} h = inl (refl, h)
  if_ok {b = false} {m = m} {n = n} {w = w} {a = a} {v = v} h = inr (refl, h)

module _ {K : Type 0} where
  pub guard_ok :
      {b : Bool} (e : Err) {w : World K} {a : Unit {0}} {v : World K}
      → Returns (guard b e) w a v
      → (b ≡ false) × (w ≡ v)
  unfolding guard
  guard_ok {b = true} e {w = w} {a = a} {v = v} h = absurd (raise_ok e h)
  guard_ok {b = false} e {w = w} {a = a} {v = v} h = (refl, (pure_ok h).1)

module _ {K A B : Type 0} where
  continue_ok :
      (r : Result A) (f : A → M K B) (w : World K) (b : B) (v : World K)
      → (lift r >>= f) w ≡ (ok b, v)
      → (a : A) × (r ≡ ok a) × Returns (f a) w b v
  unfolding ◌>>=◌
  continue_ok (ok a) f w b v h = (a, refl, record { returned = h })
  continue_ok (err e) f w b v h = absurd (let k = ap (λ x. x.0) h in cc)

  -- An action in two steps returns only if both do.
  pub bind_ok :
      {m : M K A} {f : A → M K B} {w : World K} {b : B} {v : World K}
      → Returns (m >>= f) w b v
      → (a : A) × (u : World K) × Returns m w a u × Returns (f a) u b v
  unfolding ◌>>=◌
  bind_ok {m = m} {f = f} {w = w} {b = b} {v = v} h =
      let (a, p, q) = continue_ok (m w).0 f (m w).1 b v h.returned in
      (a, (m w).1, Returns-intro m w a p, q)

module _ {K : Type 0} (env : Env K) {A : Type 0} where
  outcome_ok :
      (fault : Option DbFault) (f : World K → Result A × World K) (w : World K) (a : A)
      (v : World K)
      → outcome env fault f w ≡ (ok a, v)
      → f w ≡ (ok a, v)
  outcome_ok none f w a v h = h
  outcome_ok (some reply_lost) f w a v h = absurd (let k = ap (λ x. x.0) h in cc)
  outcome_ok (some failure) f w a v h = absurd (let k = ap (λ x. x.0) h in cc)
  outcome_ok (some could_not_serialize) f w a v h = absurd (let k = ap (λ x. x.0) h in cc)
  outcome_ok (some (unique_violation c)) f w a v h = absurd (let k = ap (λ x. x.0) h in cc)

  -- A statement that returns has done what its text says.
  pub statement_ok :
      (f : ℕ → Db → Result A × Db) {w : World K} {a : A} {v : World K}
      → Returns (statement env f) w a v
      → ((f w.now w.db).0 ≡ ok a) × (v.db ≡ (f w.now w.db).1) × (v.now ≡ w.now)
  unfolding statement
  statement_ok f {w = w} {a = a} {v = v} h =
      let e =
        outcome_ok (env.db_fault w.draws)
          (λ x. ((f x.now x.db).0, record x { db = (f x.now x.db).1 })) (tick env w) a v
          h.returned in
      (ap (λ x. x.0) e, sym (ap (λ x. x.1.db) e), sym (ap (λ x. x.1.now) e))

  found_ok : (o : Option A) (a : A) → found env o ≡ ok a → o ≡ some a
  found_ok none a h = cc
  found_ok (some b) a h = cc

  pub select_one_ok :
      (f : Db → Option A) {w : World K} {a : A} {v : World K}
      → Returns (select_one env f) w a v
      → (f w.db ≡ some a) × (v.db ≡ w.db)
  unfolding select_one
  select_one_ok f {w = w} {a = a} {v = v} h =
      let (p, q, r) = statement_ok _ h in (found_ok (f w.db) a p, q)

  pub select_one_now :
      (f : Db → Option A) {w : World K} {a : A} {v : World K}
      → Returns (select_one env f) w a v
      → v.now ≡ w.now
  unfolding select_one
  select_one_now f h = let (p, q, r) = statement_ok _ h in r

  pub select_many_ok :
      (f : Db → A) {w : World K} {a : A} {v : World K}
      → Returns (select_many env f) w a v
      → (f w.db ≡ a) × (v.db ≡ w.db)
  unfolding select_many
  select_many_ok f {w = w} {a = a} {v = v} h = let (p, q, r) = statement_ok _ h in (cc, q)

module _ {K : Type 0} (env : Env K) (laws : IsRetry env) where
  atomic_ok :
      (fn : M K (Unit {0})) (w : World K) (r : Result (Unit {0}) × World K)
      → r.0 ≡ ok tt
      → AllOrNothing env fn w r
      → (u v : World K) × (u.db ≡ w.db) × Returns fn u tt v × (r.1.db ≡ v.db)
  atomic_ok fn w r h (inl (e, p, q)) = absurd cc
  atomic_ok fn w r h (inr (u, p, q, s, t)) = (u, (fn u).1, p, Returns-intro fn u tt q, t)

  -- A transaction that returns has run its function from the database that it found.
  pub update_in_tx_ok :
      {fn : M K (Unit {0})} {w : World K} {a : Unit {0}} {v : World K}
      → Returns (update_in_tx env fn) w a v
      → (x y : World K) × (x.db ≡ w.db) × Returns fn x tt y × (v.db ≡ y.db)
  update_in_tx_ok {fn = fn} {w = w} {a = a} {v = v} h =
      let (p, q) = value_lem (update_in_tx env fn w) a v h.returned in
      let (x, y, e, k, s) =
        atomic_ok fn w (update_in_tx env fn w) p (update_in_tx_atomic env laws fn w) in
      (x, y, e, k, ap (λ z. z.db) (sym q) ∙ s)
