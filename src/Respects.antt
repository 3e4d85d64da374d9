-- ===== src/Respects.antt =====
-- How the database may change under an action: for a preorder on databases, one rule for each way
-- to build an action, so that `search` proves a property of a whole handler from its statements.
pub mod Writes
pub mod Reads
pub mod Accounts
pub mod Sessions
pub mod Requests
pub mod Issues
pub mod Statements
pub mod Disabling
pub mod Frames
use poc_hydra_auth.Prelude.{
  ℕ, String, ◌≡◌, refl, sym, subst, ◌⊎◌, inl, inr, Bool, true, false, Option, none, some,
  if◌then◌else◌, Bool-cases,
}
use poc_hydra_auth.Errors.{
  could_not_serialize, unique_violation, failure, reply_lost, Err, DbFault, Sentinel, is, no_rows,
}
use poc_hydra_auth.Exec.{
  Result, ok, err, ◌>>=◌, pure, raise, lift, wrapping, map_err, attempt, guard,
}
use poc_hydra_auth.Db.{Db}
use poc_hydra_auth.Db.Tx.{update_in_tx}
use poc_hydra_auth.Db.Tx.Atomic.{IsRetry, AllOrNothing, update_in_tx_atomic}
use poc_hydra_auth.Repo.Rows.{absent_or, if_found, or_missing}
use poc_hydra_auth.World.{
  World, M, Env, Mail, tick, outcome, required, delivery, LimiterName, statement, select_one,
  select_many, rand_read, uuid_new, generate_from_password, send, allow, check, record_failure,
  reset, time_now,
}

pub record Preorder : Type 1 where
  pub rel : Db → Db → Type 0
  pub rel_refl : (d : Db) → rel d d
  pub rel_trans : (a b c : Db) → rel a b → rel b c → rel a c

-- Whatever `m` returns, the database it leaves is related to the one it found.
pub record Respects {K A : Type 0} (R : Preorder) (m : M K A) : Type 0 where
  pub at : (w : World K) → R.rel w.db (m w).1.db

module _ {K A : Type 0} {R : Preorder} where
  pub Respects-pure : (a : A) → Respects {K = K} R (pure a)
  unfolding pure
  Respects-pure a = record { at = λ w. R.rel_refl w.db }

  pub Respects-raise : (e : Err) → Respects {K = K} {A = A} R (raise e)
  unfolding raise
  Respects-raise e = record { at = λ w. R.rel_refl w.db }

  pub Respects-lift : (r : Result A) → Respects {K = K} R (lift r)
  unfolding lift
  Respects-lift r = record { at = λ w. R.rel_refl w.db }

  pub Respects-wrapping : (s : String) (m : M K A) → Respects R m → Respects R (wrapping s m)
  unfolding wrapping
  Respects-wrapping s m h = record { at = h.at }

  pub Respects-map_err : (f : Err → Err) (m : M K A) → Respects R m → Respects R (map_err f m)
  unfolding map_err
  Respects-map_err f m h = record { at = h.at }

  pub Respects-attempt : (m : M K A) → Respects R m → Respects R (attempt m)
  unfolding attempt
  Respects-attempt m h = record { at = h.at }

  pub Respects-if :
      (b : Bool) (m n : M K A) → Respects R m → Respects R n → Respects R (if b then m else n)
  Respects-if true m n km kn = km
  Respects-if false m n km kn = kn

module _ {K : Type 0} {R : Preorder} where
  pub Respects-guard : (b : Bool) (e : Err) → Respects {K = K} R (guard b e)
  unfolding guard pure raise
  Respects-guard true e = record { at = λ w. R.rel_refl w.db }
  Respects-guard false e = record { at = λ w. R.rel_refl w.db }

module _ {K A B : Type 0} {R : Preorder} where
  continue_lem :
      (w v : World K) (r : Result A) (f : A → M K B)
      → R.rel w.db v.db
      → ((a : A) → Respects R (f a))
      → R.rel w.db ((lift r >>= f) v).1.db
  unfolding ◌>>=◌
  continue_lem w v (ok a) f h kf = R.rel_trans w.db v.db (f a v).1.db h ((kf a).at v)
  continue_lem w v (err e) f h kf = h

  pub Respects-bind :
      (m : M K A) (f : A → M K B)
      → Respects R m
      → ((a : A) → Respects R (f a))
      → Respects R (m >>= f)
  unfolding ◌>>=◌
  Respects-bind m f km kf = record { at = λ w. continue_lem w (m w).1 (m w).0 f (km.at w) kf }

module _ {K : Type 0} (env : Env K) (R : Preorder) where
  outcome_lem :
      {A : Type 0} (fault : Option DbFault) (f : World K → Result A × World K) (w : World K)
      → R.rel w.db (f w).1.db
      → R.rel w.db (outcome env fault f w).1.db
  outcome_lem none f w h = h
  outcome_lem (some reply_lost) f w h = h
  outcome_lem (some failure) f w h = R.rel_refl w.db
  outcome_lem (some could_not_serialize) f w h = R.rel_refl w.db
  outcome_lem (some (unique_violation c)) f w h = R.rel_refl w.db

  required_lem : {A : Type 0} (o : Option A) (w : World K) → R.rel w.db (required env o w).1.db
  required_lem none w = R.rel_refl w.db
  required_lem (some a) w = R.rel_refl w.db

  delivery_lem : (b : Bool) (mail : Mail) (w : World K) → R.rel w.db (delivery env b mail w).1.db
  delivery_lem true mail w = R.rel_refl w.db
  delivery_lem false mail w = R.rel_refl w.db

-- The two outcomes of an INSERT that a constraint may refuse.
pub branch_lem :
    {A : Type 0} (R : Preorder) (db : Db) (b : Bool) (x y : Result A × Db)
    → (b ≡ true → R.rel db x.1)
    → (b ≡ false → R.rel db y.1)
    → R.rel db (if b then x else y).1
branch_lem R db true x y h k = h refl
branch_lem R db false x y h k = k refl

module _ {K : Type 0} (env : Env K) {A : Type 0} {R : Preorder} where
  pub Respects-statement :
      (f : ℕ → Db → Result A × Db)
      → ((now : ℕ) (db : Db) → R.rel db (f now db).1)
      → Respects R (statement env f)
  unfolding statement
  Respects-statement f h = record {
    at = λ w. outcome_lem env R (env.db_fault w.draws) _ (tick env w) (h w.now w.db);
  }

  -- An INSERT that a constraint may refuse.
  pub Respects-checked :
      (b : Db → Bool) (e : Err) (a : A) (g : ℕ → Db → Db)
      → ((now : ℕ) (db : Db) → b db ≡ false → R.rel db (g now db))
      → Respects R (statement env (λ now db. if b db then (err e, db) else (ok a, g now db)))
  Respects-checked b e a g h =
      Respects-statement _ λ now db.
        branch_lem R db (b db) (err e, db) (ok a, g now db) (λ _. R.rel_refl db) (h now db)

  -- An INSERT that two constraints may refuse.
  pub Respects-checked_twice :
      (b c : Db → Bool) (e e' : Err) (a : A) (g : ℕ → Db → Db)
      → ((now : ℕ) (db : Db) → b db ≡ false → c db ≡ false → R.rel db (g now db))
      → Respects R (
          statement env (λ now db.
            if b db then (err e, db) else if c db then (err e', db) else (ok a, g now db)))
  Respects-checked_twice b c e e' a g h = Respects-statement _ λ now db.
      branch_lem R db (b db) (err e, db) (if c db then (err e', db) else (ok a, g now db))
        (λ _. R.rel_refl db)
        (λ k.
          branch_lem R db (c db) (err e', db) (ok a, g now db) (λ _. R.rel_refl db) (h now db k))

  pub Respects-select_one : (f : Db → Option A) → Respects R (select_one env f)
  unfolding select_one
  Respects-select_one f = Respects-statement _ (λ now db. R.rel_refl db)

  pub Respects-select_many : (f : Db → A) → Respects R (select_many env f)
  unfolding select_many
  Respects-select_many f = Respects-statement _ (λ now db. R.rel_refl db)

module _ {K : Type 0} (env : Env K) {R : Preorder} where
  pub Respects-rand_read : (n : ℕ) → Respects R (rand_read env n)
  unfolding rand_read
  Respects-rand_read n = record { at = λ w. required_lem env R (env.rand_read w.draws n) w }

  pub Respects-uuid_new : Respects R (uuid_new env)
  unfolding uuid_new
  Respects-uuid_new = record { at = λ w. R.rel_refl w.db }

  pub Respects-generate_from_password :
      (p : String) (cost : ℕ) → Respects R (generate_from_password env p cost)
  unfolding generate_from_password
  Respects-generate_from_password p cost = record {
    at = λ w. required_lem env R (env.generate_from_password w.draws p cost) w;
  }

  pub Respects-send : (mail : Mail) → Respects R (send env mail)
  unfolding send
  Respects-send mail = record { at = λ w. delivery_lem env R (env.delivers w.draws mail) mail w }

  pub Respects-allow : (name : LimiterName) (key : String) → Respects R (allow env name key)
  unfolding allow
  Respects-allow name key = record { at = λ w. R.rel_refl w.db }

  pub Respects-check : (key : String) → Respects R (check env key)
  unfolding check
  Respects-check key = record { at = λ w. R.rel_refl w.db }

  pub Respects-record_failure : (key : String) → Respects R (record_failure env key)
  unfolding record_failure
  Respects-record_failure key = record { at = λ w. R.rel_refl w.db }

  pub Respects-reset : (key : String) → Respects R (reset env key)
  unfolding reset
  Respects-reset key = record { at = λ w. R.rel_refl w.db }

  pub Respects-time_now : Respects R (time_now env)
  unfolding time_now
  Respects-time_now = record { at = λ w. R.rel_refl w.db }

  all_or_nothing_lem :
      (fn : M K (Unit {0})) (w : World K) (r : Result (Unit {0}) × World K)
      → Respects R fn
      → AllOrNothing env fn w r
      → R.rel w.db r.1.db
  all_or_nothing_lem fn w r h (inl (e, p, q)) = subst (R.rel w.db) (sym q) (R.rel_refl w.db)
  all_or_nothing_lem fn w r h (inr (v, p, q, s, t)) =
      subst (R.rel w.db) (sym t) (subst (λ d. R.rel d (fn v).1.db) p (h.at v))

  pub Respects-update_in_tx :
      (laws : IsRetry env) (fn : M K (Unit {0})) → Respects R fn → Respects R (update_in_tx env fn)
  Respects-update_in_tx laws fn h = record {
    at = λ w. all_or_nothing_lem fn w (update_in_tx env fn w) h (update_in_tx_atomic env laws fn w);
  }

module _ {K A : Type 0} {R : Preorder} where
  absent_or_lem : (r : Result A) → Respects {K = K} R (absent_or r)
  unfolding absent_or
  absent_or_lem (ok a) = Respects-pure (some a)
  absent_or_lem (err e) = Respects-if (is e no_rows) _ _ (Respects-pure none) (Respects-raise e)

  pub Respects-if_found : (m : M K A) → Respects R m → Respects R (if_found m)
  unfolding if_found
  Respects-if_found m h = Respects-bind _ _ (Respects-attempt m h) absent_or_lem

  pub Respects-or_missing : (s : Sentinel) (m : M K A) → Respects R m → Respects R (or_missing s m)
  unfolding or_missing
  Respects-or_missing s m h = Respects-map_err _ m h

pub ruleset respects_rules = (
  Respects-pure, Respects-raise, Respects-lift, Respects-wrapping, Respects-map_err,
  Respects-attempt, Respects-if, Respects-guard, Respects-bind, Respects-select_one,
  Respects-select_many, Respects-rand_read, Respects-uuid_new, Respects-generate_from_password,
  Respects-send, Respects-allow, Respects-check, Respects-record_failure, Respects-reset,
  Respects-time_now, Respects-update_in_tx, Respects-if_found, Respects-or_missing,
)
