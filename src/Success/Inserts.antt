-- ===== src/Success/Inserts.antt =====
-- An INSERT that a constraint may refuse, when it returned.
use poc_hydra_auth.Prelude.{◌≡◌, refl, Bool, true, false, if◌then◌else◌}
use poc_hydra_auth.Errors.{Err}
use poc_hydra_auth.Exec.{Result, ok, err}
use poc_hydra_auth.Db.{Db}

module _ {A : Type 0} where
  pub inserted_ok :
      (b : Bool) (e : Err) (db d : Db) (a : A) {x : A} {u : Db}
      → (let r : Result A × Db = if b then (err e, db) else (ok a, d) in r.0) ≡ ok x
      → u ≡ (let r : Result A × Db = if b then (err e, db) else (ok a, d) in r.1)
      → (b ≡ false) × (u ≡ d)
  inserted_ok true e db d a h k = absurd (cc)
  inserted_ok false e db d a h k = (refl, k)

  pub inserted_twice_ok :
      (b c : Bool) (e e' : Err) (db d : Db) (a : A) {x : A} {u : Db}
      → (let r : Result A × Db = if b then (err e, db) else if c then (err e', db) else (ok a, d) in
          r.0)
        ≡ ok x
      → u ≡ (
          let r : Result A × Db =
            if b then (err e, db) else if c then (err e', db) else (ok a, d) in
          r.1)
      → (b ≡ false) × (c ≡ false) × (u ≡ d)
  inserted_twice_ok true c e e' db d a h k = absurd (cc)
  inserted_twice_ok false true e e' db d a h k = absurd (cc)
  inserted_twice_ok false false e e' db d a h k = (refl, refl, k)
