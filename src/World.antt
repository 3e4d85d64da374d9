-- ===== src/World.antt =====
-- What a request runs in: the database, the other services, the mails sent, the clock. `Env` holds
-- what the code calls and does not implement. Each call whose outcome the code cannot foresee takes
-- the next number of `draws`, so that a theorem over every `Env` covers every pattern of failures.
use poc_hydra_auth.Prelude.{ℕ, suc, String, Bool, true, false, Option, none, some, List, ◌∷◌}
use poc_hydra_auth.Errors.{
  could_not_serialize, unique_violation, failure, reply_lost, Err, DbFault, sentinel, no_rows,
  pg_error, service_error,
}
use poc_hydra_auth.Exec.{Exec, Result, ok, err}
use poc_hydra_auth.Domain.Library.{Library}
use poc_hydra_auth.Db.{Db}

pub data MailKind : Type 0 where
  confirmation password_reset invitation : MailKind

-- SendConfirmationEmail, SendPasswordResetEmail and SendInvitationEmail of command.Mailer.
pub record Mail : Type 0 where
  pub kind : MailKind
  pub to : String
  pub plain_token : String

-- `services` is the state of what stands behind the limiters and the lockout.
pub record World (K : Type 0) : Type 0 where
  pub db : Db
  pub services : K
  pub sent : List Mail
  pub draws : ℕ
  pub now : ℕ

abbrev pub M : Type 0 → Type 0 → Type 0
M K A = Exec (World K) A

-- ratelimit.Result, less `Remaining` and `ResetAt`, which no handler reads.
pub record Allowance : Type 0 where
  pub allowed : Bool
  pub retry_after : ℕ

-- The five fields of auth.Deps that are a command.RateLimiter.
pub data LimiterName : Type 0 where
  limiter verify_limiter resend_limiter reset_limiter invite_limiter : LimiterName

-- One try of backoff.Retry: an error under backoff.Permanent, or success, ends the tries.
pub data Try (A : Type 0) : Type 0 where
  final : Result A → Try A
  transient : Err → Try A

pub record Env (K : Type 0) : Type 0 where
  pub lib : Library
  -- what a statement, BEGIN, COMMIT or ROLLBACK sent to PostgreSQL meets, `none` for success
  pub db_fault : ℕ → Option DbFault
  -- the collation of the database: the first string does not come after the second
  pub collates : String → String → Bool
  -- rand.Read into so many bytes
  pub rand_read : ℕ → ℕ → Option (List ℕ)
  -- uuid.New
  pub uuid_new : ℕ → ℕ
  -- bcrypt.GenerateFromPassword, with the password and the cost
  pub generate_from_password : ℕ → String → ℕ → Option String
  -- whether command.Mailer delivers
  pub delivers : ℕ → Mail → Bool
  -- command.RateLimiter, with the instant
  pub allow : LimiterName → String → ℕ → K → Result Allowance × K
  -- command.Lockout, with the instant
  pub check : String → ℕ → K → Result (Bool × ℕ) × K
  pub record_failure : String → ℕ → K → Result Bool × K
  pub reset : String → ℕ → K → Result (Unit {0}) × K
  -- backoff.Retry with WithMaxTries
  pub retry : ℕ → (World K → Try (Unit {0}) × World K) → M K (Unit {0})

module _ {K : Type 0} (env : Env K) where
  abbrev pub tick : World K → World K
  tick w = record w { draws = suc w.draws }

  abbrev pub outcome :
      {A : Type 0} → Option DbFault → (World K → Result A × World K) → World K → Result A × World K
  outcome none f w = f w
  outcome (some reply_lost) f w = (err (pg_error reply_lost), (f w).1)
  outcome (some failure) f w = (err (pg_error failure), w)
  outcome (some could_not_serialize) f w = (err (pg_error could_not_serialize), w)
  outcome (some (unique_violation c)) f w = (err (pg_error (unique_violation c)), w)

  -- A statement: it does what its text says, or it fails and changes nothing, or it does what its
  -- text says and the caller gets an error, since the answer was lost.
  unfoldable pub statement : {A : Type 0} → (ℕ → Db → Result A × Db) → Exec (World K) A
  statement f w =
      outcome (env.db_fault w.draws)
        (λ v. let (r, db') = f v.now v.db in (r, record v { db = db' })) (tick w)

  abbrev pub found : {A : Type 0} → Option A → Result A
  found none = err (sentinel no_rows)
  found (some a) = ok a

  -- A query that sqlc marks `:one`, with pgx.ErrNoRows when there is no row.
  unfoldable pub select_one : {A : Type 0} → (Db → Option A) → M K A
  unfolding statement
  select_one f = statement (λ now db. (found (f db), db))

  unfoldable pub select_many : {A : Type 0} → (Db → A) → M K A
  unfolding statement
  select_many f = statement (λ now db. (ok (f db), db))

  abbrev pub required : {A : Type 0} → Option A → World K → Result A × World K
  required none w = (err service_error, tick w)
  required (some a) w = (ok a, tick w)

  -- rand.Read into a fresh slice.
  unfoldable pub rand_read : ℕ → M K (List ℕ)
  rand_read n w = required (env.rand_read w.draws n) w

  unfoldable pub uuid_new : M K ℕ
  uuid_new w = (ok (env.uuid_new w.draws), tick w)

  unfoldable pub generate_from_password : String → ℕ → M K String
  generate_from_password password cost w =
      required (env.generate_from_password w.draws password cost) w

  abbrev pub delivery : Bool → Mail → World K → Result (Unit {0}) × World K
  delivery true mail w = (ok tt, record (tick w) { sent = mail ∷ w.sent })
  delivery false mail w = (err service_error, tick w)

  unfoldable pub send : Mail → M K (Unit {0})
  send mail w = delivery (env.delivers w.draws mail) mail w

  abbrev pub service : {A : Type 0} → (K → Result A × K) → Exec (World K) A
  service f w = let (r, k) = f w.services in (r, record w { services = k })

  unfoldable pub allow : LimiterName → String → M K Allowance
  allow name key w = service (env.allow name key w.now) w

  unfoldable pub check : String → M K (Bool × ℕ)
  check key w = service (env.check key w.now) w

  unfoldable pub record_failure : String → M K Bool
  record_failure key w = service (env.record_failure key w.now) w

  unfoldable pub reset : String → M K (Unit {0})
  reset key w = service (env.reset key w.now) w

  unfoldable pub time_now : M K ℕ
  time_now w = (ok w.now, w)
