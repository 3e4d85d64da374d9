-- ===== src/Deps.antt =====
-- auth.Deps as cmd/auth/main.go fills it: the limiters and the lockout of Ratelimit in the place of
-- the parameters of World. The services of a request are the connection to Redis.
use poc_hydra_auth.Prelude.{ℕ, String}
use poc_hydra_auth.Exec.{Exec, Result, ok, err}
use poc_hydra_auth.World.{
  Env, Allowance, LimiterName, limiter, verify_limiter, resend_limiter, reset_limiter,
  invite_limiter,
}
use poc_hydra_auth.Ratelimit.Redis.{Backend, Link}
use poc_hydra_auth.Ratelimit.Limiters.{LimitResult}
use poc_hydra_auth.Ratelimit.Lockout.{login_lockout_check, lockout_record_failure, lockout_reset}
use poc_hydra_auth.Ratelimit.Settings.{
  registration_limiter, resend_email_limiter, password_reset_limiter, invitation_limiter,
  login_lockout, open_fixed_limiter, open_email_verify_limiter,
}

-- What the handlers read of a ratelimit.Result.
abbrev pub allowance : Result LimitResult → Result Allowance
allowance (ok r) = ok (record { allowed = r.allowed; retry_after = r.retry_after })
allowance (err e) = err e

abbrev pub at_instant : {S : Type 0} → ℕ → Link S → Link S
at_instant now l = record l { now = now }

module _ {S : Type 0} (backend : Backend S) (hmac : String → String) where
  abbrev pub limiter_of : LimiterName → String → Exec (Link S) LimitResult
  limiter_of limiter = open_fixed_limiter backend registration_limiter
  limiter_of verify_limiter = open_email_verify_limiter backend hmac
  limiter_of resend_limiter = open_fixed_limiter backend resend_email_limiter
  limiter_of reset_limiter = open_fixed_limiter backend password_reset_limiter
  limiter_of invite_limiter = open_fixed_limiter backend invitation_limiter

  abbrev pub with_redis : Env (Link S) → Env (Link S)
  with_redis env = record env {
    allow =
        λ name key now l. let r = limiter_of name key (at_instant now l) in (allowance r.0, r.1);
    check = λ key now l. login_lockout_check backend login_lockout key (at_instant now l);
    record_failure =
        λ key now l. lockout_record_failure backend login_lockout key (at_instant now l);
    reset = λ key now l. lockout_reset backend login_lockout key (at_instant now l);
  }
