-- ===== src/Db/Tx.antt =====
-- backend/common/db.go: a function run in a transaction, tried again when PostgreSQL could not
-- serialize it.
pub mod Atomic
use poc_hydra_auth.Prelude.{ℕ, suc, Option, none, some, if◌then◌else◌}
use poc_hydra_auth.Errors.{
  could_not_serialize, unique_violation, failure, reply_lost, Err, DbFault, pg_error, wrapped,
  joined, mentions_serialization,
}
use poc_hydra_auth.Exec.{Result, ok, err}
use poc_hydra_auth.Db.{Db}
use poc_hydra_auth.World.{World, M, Env, Try, final, transient}

-- backoff.WithMaxTries
abbrev pub max_tries : ℕ
max_tries = 10

module _ {K : Type 0} (env : Env K) where
  abbrev pub next_draw : World K → World K
  next_draw w = record w { draws = suc w.draws }

  -- A failed ROLLBACK leaves nothing behind either; its error is joined to the first.
  abbrev pub roll_back : Err → Db → Option DbFault → World K → Result (Unit {0}) × World K
  roll_back e before none w = (err e, record (next_draw w) { db = before })
  roll_back e before (some fault) w =
      (err (joined e (pg_error fault)), record (next_draw w) { db = before })

  -- A COMMIT that the server refuses has written nothing; one whose answer was lost has written.
  abbrev pub commit : Db → Option DbFault → World K → Result (Unit {0}) × World K
  commit before none w = (ok tt, next_draw w)
  commit before (some reply_lost) w = (err (pg_error reply_lost), next_draw w)
  commit before (some failure) w = (err (pg_error failure), record (next_draw w) { db = before })
  commit before (some could_not_serialize) w =
      (err (pg_error could_not_serialize), record (next_draw w) { db = before })
  commit before (some (unique_violation c)) w =
      (err (pg_error (unique_violation c)), record (next_draw w) { db = before })

  -- The deferred function of `updateInTx`.
  abbrev pub finish : Db → Result (Unit {0}) → World K → Result (Unit {0}) × World K
  finish before (err e) w = roll_back e before (env.db_fault w.draws) w
  finish before (ok _) w = commit before (env.db_fault w.draws) w

  abbrev pub begin : Option DbFault → M K (Unit {0}) → World K → Result (Unit {0}) × World K
  begin none fn w = let (r, w') = fn (next_draw w) in finish w.db r w'
  begin (some fault) fn w =
      (err (wrapped "could not begin transaction" (pg_error fault)), next_draw w)

  -- updateInTx
  unfoldable pub update_in_tx_once : M K (Unit {0}) → World K → Result (Unit {0}) × World K
  update_in_tx_once fn w = begin (env.db_fault w.draws) fn w

  -- The test of `updateInTxWithIsolation` on the error of a try.
  abbrev pub classify : Result (Unit {0}) → Try (Unit {0})
  classify (ok a) = final (ok a)
  classify (err e) = if mentions_serialization e then transient e else final (err e)

  unfoldable pub try_tx : M K (Unit {0}) → World K → Try (Unit {0}) × World K
  unfolding update_in_tx_once
  try_tx fn w = let (r, w') = update_in_tx_once fn w in (classify r, w')

  -- UpdateInTx
  unfoldable pub update_in_tx : M K (Unit {0}) → M K (Unit {0})
  unfolding try_tx
  update_in_tx fn = env.retry max_tries (try_tx fn)
