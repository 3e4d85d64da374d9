-- ===== src/Success/Lookups.antt =====
-- Reads of at most one row that returned: what was found is what the table holds.
use poc_hydra_auth.Prelude.{◌≡◌, refl, sym, ap, ◌∙◌, ◌⊎◌, inl, inr, true, Option, none, some, arith}
use poc_hydra_auth.Errors.{Err, DbFault, is, no_rows}
use poc_hydra_auth.Exec.{Result, ok, err, pure, raise, attempt}
use poc_hydra_auth.Db.{Db}
use poc_hydra_auth.Repo.Rows.{absent_or, if_found}
use poc_hydra_auth.World.{World, M, Env, outcome, statement, select_one, found, tick}
use poc_hydra_auth.Success.{
  Returns, Returns-intro, pure_ok, raise_ok, if_ok, bind_ok, select_one_ok, select_one_now,
}

module _ {K : Type 0} (env : Env K) {A : Type 0} where
  absent_or_ok :
      (r : Result A) (w : World K) (o : Option A) (v : World K)
      → Returns (absent_or r) w o v
      → ((a : A) × (r ≡ ok a) × (o ≡ some a) × (v ≡ w))
        ⊎ ((e : Err) × (r ≡ err e) × (is e no_rows ≡ true) × (o ≡ none) × (v ≡ w))
  unfolding absent_or
  absent_or_ok (ok a) w o v h = let (p, q) = pure_ok h in inl (a, refl, sym p, sym q)
  absent_or_ok (err e) w o v h = elim (if_ok {b = is e no_rows} {m = pure none} {n = raise e} h) [
    | inl (t, k) ↦ let (p, q) = pure_ok k in inr (e, refl, t, sym p, sym q)
    | inr (f, k) ↦ absurd (raise_ok e k)
  ]

  -- A query for one row leaves the database alone, and fails with pgx.ErrNoRows for no row only.
  unfound :
      (fault : Option DbFault) (g : World K → Result A × World K) (o : Option A) (w : World K)
      (e : Err)
      → g w ≡ (found env o, w)
      → (outcome env fault g w).0 ≡ err e
      → is e no_rows ≡ true
      → (o ≡ none) × ((outcome env fault g w).1 ≡ w)
  unfound (some fault) g o w e d h k = absurd (ground arith)
  unfound none g none w e d h k = (refl, ap (λ x. x.1) d)
  unfound none g (some b) w e d h k = absurd (let x = ap (λ x. x.0) d in cc)

  select_one_missing :
      (f : Db → Option A) (w : World K) (e : Err)
      → (select_one env f w).0 ≡ err e
      → is e no_rows ≡ true
      → (f w.db ≡ none) × ((select_one env f w).1.db ≡ w.db) × ((select_one env f w).1.now ≡ w.now)
  unfolding select_one statement
  select_one_missing f w e h k =
      let (p, q) =
        unfound (env.db_fault w.draws) (λ v. (found env (f v.db), v)) (f w.db) (tick env w) e refl h
          k in
      (p, ap (λ x. x.db) q, ap (λ x. x.now) q)

  pub attempt_ok :
      (m : M K A) {w : World K} {r : Result A} {v : World K}
      → Returns (attempt m) w r v
      → ((m w).0 ≡ r) × ((m w).1 ≡ v)
  unfolding attempt
  attempt_ok m {w = w} {r = r} {v = v} h = let e = h.returned in (cc, cc)

  -- A read that returns has found what the table holds, or that it holds nothing.
  pub lookup_ok :
      (f : Db → Option A) {w : World K} {o : Option A} {v : World K}
      → Returns (if_found (select_one env f)) w o v
      → (o ≡ f w.db) × (v.db ≡ w.db) × (v.now ≡ w.now)
  unfolding if_found
  lookup_ok f {w = w} {o = o} {v = v} h =
      let (r, u, p, q) = bind_ok h in
      let (p, p') = attempt_ok (select_one env f) p in
      elim (absent_or_ok r u o v q) [
        | inl (a, e, e', e'') ↦
            let r : Returns (select_one env f) w a (select_one env f w).1 =
              Returns-intro (select_one env f) w a (p ∙ e) in
            let (x, y) = select_one_ok env f r in
            (
              e' ∙ sym x,
              ap (λ z. z.db) (e'' ∙ sym p') ∙ y,
              ap (λ z. z.now) (e'' ∙ sym p') ∙ select_one_now env f r,
            )
        | inr (x, e, t, e', e'') ↦
            let (z, y, n) = select_one_missing f w x (p ∙ e) t in
            (e' ∙ sym z, ap (λ z. z.db) (e'' ∙ sym p') ∙ y, ap (λ z. z.now) (e'' ∙ sym p') ∙ n)
      ]
