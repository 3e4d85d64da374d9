-- ===== src/Ratelimit/Settings.antt =====
-- backend/auth/adapters/ratelimit and secret.go: which limiter guards which request.
use poc_hydra_auth.Prelude.{◌*◌, String, Bool, true, str_eq, if◌then◌else◌}
use poc_hydra_auth.Exec.{Exec}
use poc_hydra_auth.Domain.Token.{minute}
use poc_hydra_auth.Ratelimit.Redis.{Backend, Link}
use poc_hydra_auth.Ratelimit.Limiters.{
  FixedWindowLimiter, CountingWindowLimiter, LimitResult, fail_open, fixed_window_allow,
  counting_window_allow, fail_mode_allow,
}
use poc_hydra_auth.Ratelimit.Lockout.{LockoutLimiter}

-- PassthroughHasher.Hash
abbrev pub passthrough_hash : String → String
passthrough_hash key = key

abbrev pub registration_limiter : FixedWindowLimiter
registration_limiter = record {
  prefix = "registration:ratelimit:";
  window = 5 * minute;
  hash = passthrough_hash;
}

abbrev pub resend_email_limiter : FixedWindowLimiter
resend_email_limiter = record {
  prefix = "resend:ratelimit:";
  window = 5 * minute;
  hash = passthrough_hash;
}

abbrev pub password_reset_limiter : FixedWindowLimiter
password_reset_limiter = record {
  prefix = "password_reset:";
  window = 5 * minute;
  hash = passthrough_hash;
}

abbrev pub invitation_limiter : FixedWindowLimiter
invitation_limiter = record { prefix = "invitation:"; window = 5 * minute; hash = passthrough_hash }

-- `hmac` is HMACSHA256Hasher.Hash with the service's secret.
abbrev pub email_verify_limiter : (hmac : String → String) → CountingWindowLimiter
email_verify_limiter hmac = record {
  prefix = "emailverify:ratelimit:";
  window = minute;
  limit = 10;
  hash = hmac;
}

abbrev pub login_lockout : LockoutLimiter
login_lockout = record {
  prefix = "login:lockout:";
  window = 15 * minute;
  lock_ttl = 15 * minute;
  threshold = 10;
  hash = passthrough_hash;
}

-- The five limiters let a request pass when Redis does not answer.
abbrev pub open_fixed_limiter :
    {S : Type 0} → Backend S → FixedWindowLimiter → String → Exec (Link S) LimitResult
open_fixed_limiter backend l = fail_mode_allow fail_open (fixed_window_allow backend l)

abbrev pub open_email_verify_limiter :
    {S : Type 0} → Backend S → (String → String) → String → Exec (Link S) LimitResult
open_email_verify_limiter backend hmac =
    fail_mode_allow fail_open (counting_window_allow backend (email_verify_limiter hmac))

abbrev dev_default_hmac_secret : String
dev_default_hmac_secret = "local-dev-secret"

-- ResolveHMACSecret: the key, and whether it is the public one.
unfoldable pub resolve_hmac_secret : String → String × Bool
resolve_hmac_secret env =
    if str_eq env ""
    then (dev_default_hmac_secret, true)
    else (env, str_eq env dev_default_hmac_secret)
