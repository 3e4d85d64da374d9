-- ===== src/Db/Tx/Atomic.antt =====
-- A transaction takes effect as a whole or not at all, whatever fails and however often it is
-- tried again.
use poc_hydra_auth.Prelude.{
  ℕ, zero, suc, ◌≡◌, refl, sym, ap, true, ◌∙◌, ◌⊎◌, inl, inr, Option, none, some, Bool-cases,
}
use poc_hydra_auth.Errors.{
  could_not_serialize, unique_violation, failure, reply_lost, Err, DbFault, pg_error, wrapped,
  joined, mentions_serialization,
}
use poc_hydra_auth.Exec.{Result, ok, err}
use poc_hydra_auth.World.{World, M, Env, Try, final, transient}
use poc_hydra_auth.Db.Tx.{
  next_draw, roll_back, commit, finish, begin, update_in_tx_once, classify, try_tx, update_in_tx,
}

-- What the code relies on of backoff.Retry: it runs the operation, stops at a final try and at the
-- last one, and after a transient try it goes on from the world that the try left, or gives up
-- with an error there, as it does when the context ends or too much time has passed.
pub record IsRetry {K : Type 0} (env : Env K) : Type 0 where
  pub stops :
      (n : ℕ) (op : World K → Try (Unit {0}) × World K) (w : World K) (r : Result (Unit {0}))
      → (op w).0 ≡ final r
      → env.retry (suc n) op w ≡ (r, (op w).1)
  pub last :
      (op : World K → Try (Unit {0}) × World K) (w : World K) (e : Err)
      → (op w).0 ≡ transient e
      → env.retry 1 op w ≡ (err e, (op w).1)
  pub again :
      (n : ℕ) (op : World K → Try (Unit {0}) × World K) (w : World K) (e : Err)
      → (op w).0 ≡ transient e
      → (env.retry (suc (suc n)) op w ≡ env.retry (suc n) op (op w).1)
        ⊎ ((e' : Err) × (env.retry (suc (suc n)) op w ≡ (err e', (op w).1)))

module _ {K : Type 0} (env : Env K) where
  -- What the caller sees of a COMMIT that took effect: no error, or that the answer was lost.
  abbrev pub Committed : Result (Unit {0}) → Type 0
  Committed r = (r ≡ ok tt) ⊎ (r ≡ err (pg_error reply_lost))

  -- `r` failed and the database is that of `w`, or `fn` succeeded on a world with that database
  -- and `r` has what it wrote.
  abbrev pub AllOrNothing : M K (Unit {0}) → World K → Result (Unit {0}) × World K → Type 0
  AllOrNothing fn w r =
      ((e : Err) × (r.0 ≡ err e) × (r.1.db ≡ w.db))
      ⊎ ((v : World K) × (v.db ≡ w.db)
          × ((fn v).0 ≡ ok tt)
          × Committed r.0
          × (r.1.db ≡ (fn v).1.db))

  roll_back_lem :
      (fn : M K (Unit {0})) (w v : World K) (e : Err) (fault : Option DbFault)
      → AllOrNothing fn w (roll_back env e w.db fault v)
  roll_back_lem fn w v e none = inl (e, refl, refl)
  roll_back_lem fn w v e (some fault) = inl (joined e (pg_error fault), refl, refl)

  commit_lem :
      (fn : M K (Unit {0})) (w : World K) (fault : Option DbFault)
      → (fn (next_draw env w)).0 ≡ ok tt
      → AllOrNothing fn w (commit env w.db fault (fn (next_draw env w)).1)
  commit_lem fn w none h = inr (next_draw env w, refl, h, inl refl, refl)
  commit_lem fn w (some reply_lost) h = inr (next_draw env w, refl, h, inr refl, refl)
  commit_lem fn w (some failure) h = inl (_, refl, refl)
  commit_lem fn w (some could_not_serialize) h = inl (_, refl, refl)
  commit_lem fn w (some (unique_violation c)) h = inl (_, refl, refl)

  finish_lem :
      (fn : M K (Unit {0})) (w : World K) (r : Result (Unit {0}))
      → (fn (next_draw env w)).0 ≡ r
      → AllOrNothing fn w (finish env w.db r (fn (next_draw env w)).1)
  finish_lem fn w (ok a) h = commit_lem fn w (env.db_fault (fn (next_draw env w)).1.draws) h
  finish_lem fn w (err e) h =
      roll_back_lem fn w (fn (next_draw env w)).1 e (env.db_fault (fn (next_draw env w)).1.draws)

  begin_lem :
      (fn : M K (Unit {0})) (w : World K) (fault : Option DbFault)
      → AllOrNothing fn w (begin env fault fn w)
  begin_lem fn w none = finish_lem fn w (fn (next_draw env w)).0 refl
  begin_lem fn w (some fault) =
      inl (wrapped "could not begin transaction" (pg_error fault), refl, refl)

  once-AllOrNothing :
      (fn : M K (Unit {0})) (w : World K) → AllOrNothing fn w (update_in_tx_once env fn w)
  unfolding update_in_tx_once
  once-AllOrNothing fn w = begin_lem fn w (env.db_fault w.draws)

  -- What `classify` says of the result that it was given.
  classify_cases :
      (r : Result (Unit {0}))
      → (classify env r ≡ final r)
        ⊎ ((e : Err) × (r ≡ err e)
            × (classify env r ≡ transient e)
            × (mentions_serialization e ≡ true))
  classify_cases (ok a) = inl refl
  classify_cases (err e) = elim (Bool-cases (mentions_serialization e)) [
    | inl t ↦ inr (e, refl, rw t, t)
    | inr f ↦ inl (rw f)
  ]

  failed_db :
      (fn : M K (Unit {0})) (w : World K) (e : Err)
      → (update_in_tx_once env fn w).0 ≡ err e
      → mentions_serialization e ≡ true
      → AllOrNothing fn w (update_in_tx_once env fn w)
      → (update_in_tx_once env fn w).1.db ≡ w.db
  failed_db fn w e h m (inl (x, p, q)) = q
  failed_db fn w e h m (inr (v, p, q, inl r, s)) = cc
  failed_db fn w e h m (inr (v, p, q, inr r, s)) =
      let lost : e ≡ pg_error reply_lost = let z = sym h ∙ r in cc in
      absurd (let z = sym m ∙ ap mentions_serialization lost in cc)

  moved :
      (fn : M K (Unit {0})) (w v : World K) (r : Result (Unit {0}) × World K)
      → v.db ≡ w.db
      → AllOrNothing fn v r
      → AllOrNothing fn w r
  moved fn w v r h (inl (e, p, q)) = inl (e, p, q ∙ h)
  moved fn w v r h (inr (x, p, q, s, t)) = inr (x, p ∙ h, q, s, t)

  module _ (laws : IsRetry env) where
    retry-AllOrNothing :
        (fn : M K (Unit {0})) (n : ℕ) (w : World K)
        → AllOrNothing fn w (env.retry (suc n) (try_tx env fn) w)
    unfolding try_tx
    retry-AllOrNothing fn zero w = elim (classify_cases (update_in_tx_once env fn w).0) [
      | inl f ↦ rw (laws.stops zero (try_tx env fn) w _ f) (once-AllOrNothing fn w)
      | inr (e, p, t, m) ↦
          rw (laws.last (try_tx env fn) w e t)
            (inl (e, refl, failed_db fn w e p m (once-AllOrNothing fn w)))
    ]
    retry-AllOrNothing fn (suc n) w = elim (classify_cases (update_in_tx_once env fn w).0) [
      | inl f ↦ rw (laws.stops (suc n) (try_tx env fn) w _ f) (once-AllOrNothing fn w)
      | inr (e, p, t, m) ↦ elim (laws.again n (try_tx env fn) w e t) [
        | inl go_on ↦ rw go_on (
            moved fn w (update_in_tx_once env fn w).1
              (env.retry (suc n) (try_tx env fn) (update_in_tx_once env fn w).1)
              (failed_db fn w e p m (once-AllOrNothing fn w))
              (retry-AllOrNothing fn n (update_in_tx_once env fn w).1))
        | inr (e', gives_up) ↦
            rw gives_up (inl (e', refl, failed_db fn w e p m (once-AllOrNothing fn w)))
      ]
    ]

    -- With backoff.Retry as documented, for every function, every pattern of database failures
    -- and every starting world: UpdateInTx either returns an error and leaves the database as it
    -- was, or leaves exactly what one successful run of the function from that database left, and
    -- then it returns nil or the error of a COMMIT whose answer was lost.
    pub update_in_tx_atomic :
        (fn : M K (Unit {0})) (w : World K) → AllOrNothing fn w (update_in_tx env fn w)
    unfolding update_in_tx
    update_in_tx_atomic fn w = retry-AllOrNothing fn 9 w
