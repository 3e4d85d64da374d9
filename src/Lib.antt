-- ===== src/Lib.antt =====
-- The authentication service of backend/auth: accounts that register, confirm an e-mail address,
-- log in, renew their sessions, change and reset passwords, and administrators who invite, disable
-- and reactivate accounts.
--
-- The parts and the files:
-- - Domain, Domain/*: backend/auth/domain. Status and roles (account_status.go, login.go,
--   invitation.go), validation (registration.go), tokens and lifetimes (token.go and the others).
--   Domain/Library holds what the code calls of the standard library and of packages: mail addresses,
--   SHA-256, base64, bcrypt, UUIDs, RS256. These are parameters, in every theorem arbitrary.
-- - Errors, Exec: the error values with `errors.Is`, and the monad of handlers: a state that stays
--   changed beside an error.
-- - Db, Db/*: backend/auth/adapters/db/dbmodels, a table as a list of rows and a statement as a
--   function on it, with the primary keys and unique indexes of the migrations.
-- - Db/Tx: UpdateInTx of backend/common/db.go with its retries. Db/Tx/Atomic states what is assumed
--   of backoff.Retry (IsRetry).
-- - World: the database, the mails sent, the clock and the services that a request runs in.
-- - Ratelimit, Ratelimit/*: backend/common/ratelimit and backend/auth/adapters/ratelimit. Redis is a
--   parameter (Ratelimit/Redis): its commands, their documented laws, and a network that may lose a
--   question or an answer. Scripts has the Lua scripts, Limiters, Lockout and Settings the Go code.
--   The clock of Redis counts milliseconds, that of the process nanoseconds.
-- - Repo, Repo/*: backend/auth/adapters/db/*_repo.go.
-- - Command, Command/*: backend/auth/app/command, the whole `Handle` of each of the thirteen use
--   cases. Command/Steps has what several share.
-- - Service: the use cases as one request type, and runs of requests.
-- - Lifecycle: the diagram of the account states (.docs/design/states.md).
-- - Respects, Respects/*: rules for what a handler may do to the database. From a preorder that each
--   statement respects, `search` and a few lemmas give it for each handler and each run.
-- - History, History/*: the preorders: how rows of each table may change over any run
--   (First, Replay and Ended: what becomes of the hash of a refresh token).
-- - Success, Success/*: inversion of an action that returned without error, and from it what each
--   request has done when it succeeds.
-- - Http, Http/*: the layer above the use cases. Texts has what the code calls of `strings` and
--   `net/http`; Problem is backend/common/http/problem.go; Access has jwtauth.go and roleauth.go, with
--   jwt.Parse as a parameter; Answers and Handlers are backend/auth/api/http/handler.go; Routes is its
--   Register with the middlewares in front and the error handler behind. Guards, Statuses and Tokens
--   have the theorems. Bodies, Bodies/*: what requestlog.go and truncate.go make of the bodies that
--   they log, with encoding/json as a parameter. RequestLog and Context: requestLogMiddleware and
--   contextMiddleware, with the identifiers of backend/common/log. A request comes decoded;
--   WWW-Authenticate is a flag of the response.
-- - Secrecy: two logins side by side, for what the answer of one tells of the database.
-- - Deps: auth.Deps as backend/cmd/auth/main.go fills it, the limiters and the lockout of Ratelimit in
--   the place of the parameters of World. Lockdown, Lockdown/*: the login that runs with it.
-- - Startup, Startup/*: backend/cmd/auth/main.go, backend/svc.go and backend/common/migrations.go as
--   the events of a start, with what fails as parameters.
-- - EchoLog: backend/common/echoadapter.go, its definitions.
-- - Scenarios, and the modules *Scenarios: a small concrete service and libraries, to which the
--   theorems are applied.
--
-- The model: UUIDs are numbers; instants and durations are nanoseconds in ℕ, and a request reads one
-- clock value throughout. Strings are valid UTF-8. Every call whose outcome the code cannot foresee
-- (a statement, BEGIN, COMMIT, ROLLBACK, random bytes, bcrypt, a mail) takes the next draw of an
-- arbitrary oracle, so a theorem covers every pattern of failures. A statement or a COMMIT that
-- fails has changed nothing, or, when only its answer was lost, has done its work (`reply_lost`); a
-- failed ROLLBACK leaves nothing behind. ORDER BY sorts by the collation of the database, a parameter.
-- The number of tries of a transaction is the
-- 10 of the code, which backoff.Retry gets as its bound. Requests run one after another: a
-- handler reads before it begins its transaction, and what another request may do in between, the row
-- locks of FOR UPDATE and the snapshots of a transaction are not modelled.
--
-- The use cases take the limiters and the lockout as parameters of World, so that their theorems hold
-- of any; Deps puts those of Ratelimit in. The seconds of Retry-After are rounded as the
-- code's float64 rounds them, for durations of an int64. A key of Redis is there up to its deadline and
-- at it, and gone after it.
--
-- Not modelled: the deadline of ten seconds of a request, but for what RequestLog says of its errors; the log
-- lines of the use cases; the dummy bcrypt comparison of a login, which only
-- takes time; the decoding of requests and the encoding of responses, which are generated; what the
-- migrations do to the tables; the mail server; the second process, which answers a ping.
pub mod Prelude
pub mod Errors
pub mod Exec
pub mod Domain
pub mod Db
pub mod World
pub mod Repo
pub mod Command
pub mod Lifecycle
pub mod Respects
pub mod History
pub mod Ratelimit
pub mod Http
pub mod Service
pub mod Startup
pub mod EchoLog
pub mod Success
pub mod Secrecy
pub mod Deps
pub mod Lockdown
pub mod Scenarios
pub mod SessionScenarios
pub mod PasswordScenarios
pub mod AdminScenarios
pub mod AccountScenarios
pub mod LinkScenarios
pub mod LoginScenarios
pub mod RedisScenarios
pub mod LockdownScenarios
pub mod HttpScenarios
pub mod LogScenarios
pub mod ProcessScenarios
