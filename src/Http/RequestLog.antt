-- ===== src/Http/RequestLog.antt =====
-- requestLogMiddleware of backend/common/http/requestlog.go: the line that is written for a request,
-- and the response that the client gets in the end.
use poc_hydra_auth.Prelude.{
  ℕ, String, ◌≡◌, refl, ◌∙◌, Bool, true, false, Option, none, some, if◌then◌else◌, not, inl, inr,
  Bool-cases,
}
use poc_hydra_auth.Http.Problem.{HttpErr, http_error, status_from_error, problem_error_handler}
use poc_hydra_auth.Http.Bodies.{JsonLibrary, redact_body_for_log, truncate_body_for_log}
use poc_hydra_auth.Http.Statuses.{problem_response-Agrees}

-- What the middleware reads of the request; a request may have no body.
pub record LoggedRequest : Type 0 where
  pub request_uri : String
  pub method : String
  pub body : Option String

-- What next(c) leaves: its error, and the response with what was written of it.
pub record Outcome : Type 0 where
  pub error : Option HttpErr
  pub status : ℕ
  pub committed : Bool
  pub written : String

pub record LogLine : Type 0 where
  pub uri : String
  pub line_method : String
  pub line_status : ℕ
  pub duration : String
  pub request_body : String
  pub line_error : Option String
  pub response_body : String

abbrev pub body_or_empty : Option String → String
body_or_empty none = ""
body_or_empty (some b) = b

-- The status of the line: an error that has not been answered yet decides.
abbrev pub line_status_of : Option HttpErr → ℕ → Bool → ℕ
line_status_of none status committed = status
line_status_of (some e) status true = status
line_status_of (some e) status false = status_from_error e

abbrev pub line_error_of : (HttpErr → String) → Option HttpErr → Option String
line_error_of show none = none
line_error_of show (some e) = some (show e)

module _ (lib : JsonLibrary) (valid_utf8 : String → Bool) (show : HttpErr → String) where
  -- The response's text; it is cut unless the logger is enabled for debugging.
  abbrev pub logged_response : (debug : Bool) → String → String
  logged_response debug resp =
      if not (valid_utf8 resp)
      then "<binary data>"
      else if debug
      then redact_body_for_log lib resp
      else truncate_body_for_log lib (redact_body_for_log lib resp)

  unfoldable pub request_log_line : (debug : Bool) → LoggedRequest → Outcome → String → LogLine
  request_log_line debug req out duration = record {
    uri = req.request_uri;
    line_method = req.method;
    line_status = line_status_of out.error out.status out.committed;
    duration = duration;
    request_body = truncate_body_for_log lib (redact_body_for_log lib (body_or_empty req.body));
    line_error = line_error_of show out.error;
    response_body = logged_response debug out.written;
  }

-- middleware.ContextTimeout, outside the request log: Echo documents that it answers an error with
-- context.DeadlineExceeded in its chain by ErrServiceUnavailable. `late` tells which errors these are.
abbrev pub context_timeout : (HttpErr → Bool) → HttpErr → HttpErr
context_timeout late e = if late e then http_error 503 (some "Service Unavailable") else e

-- The status that the client gets: ProblemErrorHandler answers an error, unless the response has
-- been sent.
abbrev pub sent_status : (HttpErr → Bool) → String → Bool → Option HttpErr → ℕ → Bool → ℕ
sent_status late uri challenge none status committed = status
sent_status late uri challenge (some e) status true = status
sent_status late uri challenge (some e) status false =
    (problem_error_handler uri challenge (context_timeout late e)).status

-- The error is one of the deadline, and nothing of the response has been sent.
abbrev pub timed_out : (HttpErr → Bool) → Option HttpErr → Bool → Bool
timed_out late none committed = false
timed_out late (some e) true = false
timed_out late (some e) false = late e

late_status :
    (late : HttpErr → Bool) (e : HttpErr)
    → status_from_error (context_timeout late e) ≡ (if late e then 503 else status_from_error e)
unfolding status_from_error
late_status late e = elim (Bool-cases (late e)) [ inl t ↦ rw t refl | inr f ↦ rw f refl ]

sent_lem :
    (late : HttpErr → Bool) (uri : String) (challenge : Bool) (error : Option HttpErr) (status : ℕ)
    (committed : Bool)
    → sent_status late uri challenge error status committed
      ≡ (if timed_out late error committed then 503 else line_status_of error status committed)
sent_lem late uri challenge none status committed = refl
sent_lem late uri challenge (some e) status true = refl
sent_lem late uri challenge (some e) status false =
    (problem_response-Agrees uri challenge (context_timeout late e)).status_given
    ∙ late_status late e

-- Whatever the handlers leave, with an error or without, with the response sent already or not: the
-- status that the client gets is the one in the request's log line, but for an error of the
-- deadline that comes before the response is sent: then the client gets 503, whatever the line says.
pub logged_status :
    (lib : JsonLibrary) (valid_utf8 : String → Bool) (show : HttpErr → String) (debug : Bool)
    (late : HttpErr → Bool) (req : LoggedRequest) (out : Outcome) (duration : String)
    (challenge : Bool)
    → sent_status late req.request_uri challenge out.error out.status out.committed ≡ (
        if timed_out late out.error out.committed
        then 503
        else (request_log_line lib valid_utf8 show debug req out duration).line_status)
unfolding request_log_line
logged_status lib valid_utf8 show debug late req out duration challenge =
    sent_lem late req.request_uri challenge out.error out.status out.committed
