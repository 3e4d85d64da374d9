-- ===== src/Http/Statuses.antt =====
-- What the problem responses promise: their status, and when to try again.
use poc_hydra_auth.Prelude.{
  ℕ, ◌+◌, ◌*◌, ◌≤◌, ◌<◌, String, ◌≡◌, refl, ◌∙◌, Bool, Option, none, some, str_eq, ◌==◌, arith, inl,
  inr, Bool-cases, zero, suc, leb, ◌/◌, ◌%◌, if◌then◌else◌,
}
use poc_hydra_auth.Errors.{rate_limited_error, locked_error}
use poc_hydra_auth.Http.Problem.{
  HttpErr, problem_error, http_error, plain_error, Problem, bare_problem, with_message, problem,
  Response, problem_error_handler, status_from_error, shaped_problem,
}
use poc_hydra_auth.Http.Answers.{
  top_power, ceil_sum, ceil_seconds, register_answer, verify_answer, resend_answer,
  request_reset_answer, invite_answer, login_answer, as_rate_limited, as_locked,
}

-- A response by a problem: body, status and header agree.
pub record Agrees (e : HttpErr) (r : Response) : Type 0 where
  pub shown : Problem
  pub body_given : r.body ≡ problem shown
  pub status_given : r.status ≡ status_from_error e
  pub status_shown : shown.status ≡ status_from_error e
  pub header_given : r.retry_after_header ≡ shown.retry_after

message_lem : (o : Option String) (p : Problem) → (with_message o p).status ≡ p.status
message_lem none p = refl
message_lem (some m) p = elim (Bool-cases (str_eq m p.title)) [
  | inl e ↦ rw e refl
  | inr e ↦ rw e refl
]

shaped_status_lem :
    (p : Problem) (e : HttpErr)
    → p.status ≡ status_from_error e
    → (shaped_problem p e).status ≡ status_from_error e
unfolding shaped_problem status_from_error
shaped_status_lem p (problem_error q) h = refl
shaped_status_lem p (http_error code message) h = elim (Bool-cases (p.status == 400)) [
  | inl e ↦ rw e (message_lem message p ∙ h)
  | inr e ↦ rw e (message_lem message p ∙ h)
]
shaped_status_lem p (plain_error e) h = h

-- For every error that a handler or a middleware returns, ProblemErrorHandler answers with a problem,
-- whose status is that of the response and the one StatusFromError gives; and the Retry-After header
-- is the problem's retry_after.
pub problem_response-Agrees :
    (uri : String) (challenge : Bool) (e : HttpErr)
    → Agrees e (problem_error_handler uri challenge e)
unfolding problem_error_handler
problem_response-Agrees uri challenge e = record {
  shown = record (shaped_problem (bare_problem "about:blank" (status_from_error e) "") e) {
    instance_uri = uri;
  };
  body_given = refl;
  status_given = shaped_status_lem (bare_problem "about:blank" (status_from_error e) "") e refl;
  status_shown = shaped_status_lem (bare_problem "about:blank" (status_from_error e) "") e refl;
  header_given = refl;
}

-- A refusal with 429 whose seconds, rounded up, are not before the duration has gone.
pub record TriesLater (d : ℕ) (e : HttpErr) : Type 0 where
  pub shown : Problem
  pub seconds : ℕ
  pub given : e ≡ problem_error shown
  pub too_many_requests : shown.status ≡ 429
  pub retry_after_given : shown.retry_after ≡ some seconds
  pub not_early : d ≤ seconds * 1000000000
  pub not_late : seconds * 1000000000 < d + 1000000000

top_power_lem : (fuel p n m : ℕ) → p ≤ m → n ≤ m → top_power fuel p n ≤ m
top_power_lem zero p n m h k = h
top_power_lem (suc fuel) p n m h k = elim (Bool-cases (leb (2 * p) n)) [
  | inl e ↦ rw e (top_power_lem fuel (2 * p) n m (ground (arith, e)) k)
  | inr e ↦ rw e h
]

-- The last bit is worth less than two nanoseconds, so nothing is lost.
nothing_lost :
    (sec nsec power : ℕ)
    → power ≤ 8388608
    → ceil_sum sec nsec power ≡ (if nsec == 0 then sec else suc sec)
nothing_lost sec nsec power h = ground arith

whole_lem :
    (d c : ℕ)
    → c ≡ (if d % 1000000000 == 0 then d / 1000000000 else suc (d / 1000000000))
    → (d ≤ c * 1000000000) × (c * 1000000000 < d + 1000000000)
whole_lem d c h = elim (Bool-cases (d % 1000000000 == 0)) [
  | inl z ↦
      let k : c ≡ d / 1000000000 = h ∙ rw z refl in (ground (arith, k, z), ground (arith, k, z))
  | inr z ↦
      let k : c ≡ suc (d / 1000000000) = h ∙ rw z refl in
      (ground (arith, k, z), ground (arith, k, z))
]

ceil_lem :
    (d : ℕ)
    → d < 8388608000000000
    → (d ≤ ceil_seconds d * 1000000000) × (ceil_seconds d * 1000000000 < d + 1000000000)
ceil_lem d h =
    let sec = d / 1000000000 in
    let p = top_power_lem 34 1 sec 8388608 (omega arith) (omega (arith, h)) in
    whole_lem d (ceil_seconds d) (nothing_lost sec (d % 1000000000) (top_power 34 1 sec) p)

tries_later :
    (d : ℕ) (p : Problem)
    → d < 8388608000000000
    → p.status ≡ 429
    → p.retry_after ≡ some (ceil_seconds d)
    → TriesLater d (problem_error p)
tries_later d p b h k = record {
  shown = p;
  seconds = ceil_seconds d;
  given = refl;
  too_many_requests = h;
  retry_after_given = k;
  not_early = (ceil_lem d b).0;
  not_late = (ceil_lem d b).1;
}

-- The answer to a refusal by a limiter or by the lockout that holds for `d` nanoseconds, which are
-- fewer than 2 ^ 23 seconds: each of the
-- five limited requests and the login answer 429 with a Retry-After in whole seconds that is not
-- shorter than `d` and less than a second longer.
pub retry_after_bounds :
    (d : ℕ)
    → d < 8388608000000000
    → TriesLater d (register_answer (rate_limited_error d))
      × TriesLater d (verify_answer (rate_limited_error d))
      × TriesLater d (resend_answer (rate_limited_error d))
      × TriesLater d (request_reset_answer (rate_limited_error d))
      × TriesLater d (invite_answer (rate_limited_error d))
      × TriesLater d (login_answer (locked_error d))
unfolding register_answer verify_answer resend_answer request_reset_answer invite_answer
    login_answer as_rate_limited as_locked
retry_after_bounds d h = (
  tries_later d _ h refl refl,
  tries_later d _ h refl refl,
  tries_later d _ h refl refl,
  tries_later d _ h refl refl,
  tries_later d _ h refl refl,
  tries_later d _ h refl refl,
)
