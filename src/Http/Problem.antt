-- ===== src/Http/Problem.antt =====
-- backend/common/http/problem.go: problems, the status of an error, and the answer to one.
use poc_hydra_auth.Prelude.{ℕ, ◌==◌, String, join, str_eq, Bool, Option, none, some, if◌then◌else◌}
use poc_hydra_auth.Errors.{Err}
use poc_hydra_auth.Command.Login.{IssuedTokens}
use poc_hydra_auth.Http.Texts.{status_text}

-- ProblemTypeBase
abbrev pub problem_type_base : String
problem_type_base = "https://example.com/probs/"

-- Problem; its `Type` is `kind` here, and a field that is not sent is "".
pub record Problem : Type 0 where
  pub kind : String
  pub title : String
  pub status : ℕ
  pub detail : String
  pub instance_uri : String
  pub retry_after : Option ℕ
  pub error_code : String
  pub revocation_reason : String

-- What a handler may return: a *ProblemError, an *echo.HTTPError with its code and its message, none when that
-- is no text, or an error with neither in its chain.
pub data HttpErr : Type 0 where
  problem_error : Problem → HttpErr
  http_error : ℕ → Option String → HttpErr
  plain_error : Err → HttpErr

abbrev pub bare_problem : String → ℕ → String → Problem
bare_problem kind status detail = record {
  kind = kind;
  title = status_text status;
  status = status;
  detail = detail;
  instance_uri = "";
  retry_after = none;
  error_code = "";
  revocation_reason = "";
}

-- NewProblemError
abbrev pub new_problem : ℕ → String → String → Problem
new_problem status slug detail = bare_problem (join problem_type_base slug) status detail

-- WithRetryAfter
abbrev pub with_retry_after : ℕ → Problem → Problem
with_retry_after seconds p = record p { retry_after = some seconds }

-- WithErrorCode
abbrev pub with_error_code : String → Problem → Problem
with_error_code code p = record p { error_code = code }

-- WithRevocationReason
abbrev pub with_revocation_reason : String → Problem → Problem
with_revocation_reason reason p = record p { revocation_reason = reason }

-- StatusFromError, for an error that is not nil
unfoldable pub status_from_error : HttpErr → ℕ
status_from_error (problem_error p) = p.status
status_from_error (http_error code message) = code
status_from_error (plain_error e) = 500

-- What goes out: the status, the two headers that the code sets, and the body.
pub data Body : Type 0 where
  empty : Body
  tokens : IssuedTokens → Body
  revocation : String → Body
  problem : Problem → Body

pub record Response : Type 0 where
  pub status : ℕ
  pub retry_after_header : Option ℕ
  pub challenge : Bool
  pub body : Body

abbrev pub with_message : Option String → Problem → Problem
with_message none start = start
with_message (some m) start = if str_eq m start.title then start else record start { detail = m }

-- The switch of ProblemErrorHandler, from the problem that it starts with.
unfoldable pub shaped_problem : Problem → HttpErr → Problem
shaped_problem start (problem_error p) = p
shaped_problem start (http_error code message) =
    let detailed = with_message message start in
    if start.status == 400
    then record detailed { kind = join problem_type_base "validation-error" }
    else detailed
shaped_problem start (plain_error e) = start

-- ProblemErrorHandler, before anything of the response is sent; `challenge` tells whether
-- WWW-Authenticate has been set.
unfoldable pub problem_error_handler : String → Bool → HttpErr → Response
unfolding status_from_error shaped_problem
problem_error_handler uri challenge e =
    let shaped = shaped_problem (bare_problem "about:blank" (status_from_error e) "") e in
    record {
      status = shaped.status;
      retry_after_header = shaped.retry_after;
      challenge = challenge;
      body = problem (record shaped { instance_uri = uri });
    }
