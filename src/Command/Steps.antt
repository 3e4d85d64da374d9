-- ===== src/Command/Steps.antt =====
-- Steps that several handlers of backend/auth/app/command take in the same words.
use poc_hydra_auth.Prelude.{String, Bool, false, List, [], ◌∷◌, ◌||◌, not, if◌then◌else◌}
use poc_hydra_auth.Errors.{Err, is, sentinel, mail_delivery_fail, rate_limited_error, wrapped}
use poc_hydra_auth.Exec.{◌>>=◌, guard, wrapping, map_err}
use poc_hydra_auth.Domain.Status.{is_admin_role}
use poc_hydra_auth.World.{M, Env, MailKind, LimiterName, allow, send}

module _ {K : Type 0} (env : Env K) where
  -- h.limiter.Allow, and RateLimitedError when it refuses.
  unfoldable pub within_rate_limit : LimiterName → String → M K (Unit {0})
  within_rate_limit name key = do
    res ← wrapping "could not check rate limit" (allow env name key)
    guard (not res.allowed) (rate_limited_error res.retry_after)

  -- The function that the repository runs before the commit: a mail, whose failure is
  -- fmt.Errorf("%w: %v", ErrMailDeliveryFail, sendErr).
  unfoldable pub deliver : MailKind → String → String → M K (Unit {0})
  deliver kind to plain_token =
      map_err (λ e. wrapped "could not send email" (sentinel mail_delivery_fail))
        (send env (record { kind = kind; to = to; plain_token = plain_token }))

-- if errors.Is(err, ErrMailDeliveryFail) { return ErrMailDeliveryFail }, else err wrapped.
abbrev pub after_mail : String → Err → Err
after_mail message e =
    if is e mail_delivery_fail then sentinel mail_delivery_fail else wrapped message e

-- The loops over a user's roles.
abbrev pub has_admin_role : List String → Bool
has_admin_role [] = false
has_admin_role (r ∷ rs) = is_admin_role r || has_admin_role rs
