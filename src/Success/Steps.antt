-- ===== src/Success/Steps.antt =====
-- The lemmas of Success for an action in two steps, with what the first one did handed on.
use poc_hydra_auth.Prelude.{
  ℕ, inl, inr, if◌then◌else◌, String, ◌≡◌, sym, subst, Bool, false, Option, some,
}
use poc_hydra_auth.Errors.{Err, Sentinel}
use poc_hydra_auth.Exec.{Result, ok, ◌>>=◌, lift, wrapping, guard}
use poc_hydra_auth.Db.{Db}
use poc_hydra_auth.World.{World, M, Env, statement, select_one, time_now}
use poc_hydra_auth.Db.Tx.{update_in_tx}
use poc_hydra_auth.Db.Tx.Atomic.{IsRetry}
use poc_hydra_auth.Repo.Rows.{if_found, or_missing}
use poc_hydra_auth.Success.{
  Returns, bind_ok, guard_ok, wrapping_ok, lift_ok, statement_ok, if_ok, map_err_ok, select_one_ok,
  select_one_now, update_in_tx_ok,
}
use poc_hydra_auth.Success.Lookups.{lookup_ok}

module _ {K A B C : Type 0} where
  pub after :
      (m : M K A) (f : A → M K B) {w : World K} {b : B} {v : World K}
      → Returns (m >>= f) w b v
      → ((a : A) (u : World K) → Returns m w a u → Returns (f a) u b v → C)
      → C
  after m f h k = let (a, u, p, q) = bind_ok h in k a u p q

  pub after_wrapping :
      (s : String) (m : M K A) (f : A → M K B) {w : World K} {b : B} {v : World K}
      → Returns (wrapping s m >>= f) w b v
      → ((a : A) (u : World K) → Returns m w a u → Returns (f a) u b v → C)
      → C
  after_wrapping s m f h k = let (a, u, p, q) = bind_ok h in k a u (wrapping_ok s p) q

  pub after_lift :
      {r : Result A} (f : A → M K B) {w : World K} {b : B} {v : World K}
      → Returns (lift r >>= f) w b v
      → ((a : A) → r ≡ ok a → Returns (f a) w b v → C)
      → C
  after_lift f {b = b} {v = v} h k =
      let (a, u, p, q) = bind_ok h in
      let (e, e') = lift_ok p in k a e (subst (λ x. Returns (f a) x b v) (sym e') q)

module _ {K A C : Type 0} where
  pub after_guard :
      (b : Bool) (e : Err) (f : Unit {0} → M K A) {w : World K} {a : A} {v : World K}
      → Returns (guard b e >>= f) w a v
      → (b ≡ false → Returns (f tt) w a v → C)
      → C
  after_guard b e f {a = a} {v = v} h k =
      let (x, u, p, q) = bind_ok h in
      let (t, s) = guard_ok e p in k t (subst (λ z. Returns (f tt) z a v) (sym s) q)

module _ {K A B C : Type 0} (env : Env K) where
  pub after_statement :
      (g : ℕ → Db → Result A × Db) (f : A → M K B) {w : World K} {b : B} {v : World K}
      → Returns (statement env g >>= f) w b v
      → ((a : A) (u : World K)
          → (g w.now w.db).0 ≡ ok a
          → u.db ≡ (g w.now w.db).1
          → u.now ≡ w.now
          → Returns (f a) u b v
          → C)
      → C
  after_statement g f h k =
      let (a, u, p, q) = bind_ok h in let (x, y, z) = statement_ok env g p in k a u x y z q

  pub after_lookup :
      (g : Db → Option A) (f : Option A → M K B) {w : World K} {b : B} {v : World K}
      → Returns (if_found (select_one env g) >>= f) w b v
      → ((u : World K) → u.db ≡ w.db → u.now ≡ w.now → Returns (f (g w.db)) u b v → C)
      → C
  after_lookup g f {w = w} {b = b} {v = v} h k =
      let (o, u, p, q) = bind_ok h in
      let (e, e', n) = lookup_ok env g p in k u e' n (subst (λ z. Returns (f z) u b v) e q)

module _ {K A B C : Type 0} (env : Env K) where
  -- A read of the one row that there must be.
  pub after_found :
      (s : Sentinel) (g : Db → Option A) (f : A → M K B) {w : World K} {b : B} {v : World K}
      → Returns (or_missing s (select_one env g) >>= f) w b v
      → ((a : A) (u : World K)
          → g w.db ≡ some a
          → u.db ≡ w.db
          → u.now ≡ w.now
          → Returns (f a) u b v
          → C)
      → C
  unfolding or_missing
  after_found s g f h k =
      let (a, u, p, q) = bind_ok h in
      let r = map_err_ok _ p in
      let (x, y) = select_one_ok env g r in k a u x y (select_one_now env g r) q

module _ {K B C : Type 0} (env : Env K) where
  pub after_now :
      (f : ℕ → M K B) {w : World K} {b : B} {v : World K}
      → Returns (time_now env >>= f) w b v
      → (Returns (f w.now) w b v → C)
      → C
  unfolding time_now
  after_now f {w = w} {b = b} {v = v} h k =
      let (a, u, p, q) = bind_ok h in
      let e = p.returned in
      let now : a ≡ w.now = cc in
      let same : u ≡ w = cc in
      k (subst (λ x. Returns (f x) w b v) now (subst (λ x. Returns (f a) x b v) same q))

module _ {K C : Type 0} (env : Env K) (laws : IsRetry env) where
  pub on_commit :
      (fn : M K (Unit {0})) {w : World K} {v : World K}
      → Returns (update_in_tx env fn) w tt v
      → ((x y : World K) → x.db ≡ w.db → Returns fn x tt y → v.db ≡ y.db → C)
      → C
  on_commit fn h k = let (x, y, e, p, e') = update_in_tx_ok env laws h in k x y e p e'

module _ {K A C : Type 0} where
  -- An early return with an error was not taken.
  pub unless :
      (b : Bool) (m n : M K A) {w : World K} {a : A} {v : World K}
      → Returns (if b then m else n) w a v
      → (Returns m w a v → ⊥)
      → (b ≡ false → Returns n w a v → C)
      → C
  unless b m n h raises k = elim (if_ok {b = b} {m = m} {n = n} h) [
    | inl (_, r) ↦ absurd (raises r)
    | inr (f, r) ↦ k f r
  ]
