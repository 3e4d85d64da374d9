-- ===== src/Errors.antt =====
-- The error values of backend/auth/domain, backend/auth/app/command and backend/common/db.go, and
-- the tests that the code makes on them. `errors.Is` compares sentinels along the chain that
-- `fmt.Errorf("...: %w", err)`, `Unwrap` and `errors.Join` build.
use poc_hydra_auth.Prelude.{ℕ, String, ◌==◌, str_eq, Bool, true, false, ◌||◌}

-- The `errors.New` values, one constructor each.
pub data Sentinel : Type 0 where
  invalid_email invalid_password invalid_admin_role : Sentinel
  email_not_verified account_disabled email_already_registered : Sentinel
  token_not_found token_consume_conflict : Sentinel
  reset_token_not_found reset_token_consume_conflict : Sentinel
  invitation_token_not_found invitation_token_consume_conflict : Sentinel
  rate_limited mail_delivery_fail authentication_failed : Sentinel
  invalid_refresh_token refresh_token_expired refresh_token_already_used : Sentinel
  refresh_token_format_invalid : Sentinel
  invalid_token token_expired : Sentinel
  invalid_reset_token reset_token_expired : Sentinel
  invalid_invitation_token invitation_token_expired : Sentinel
  password_mismatch : Sentinel
  user_not_found not_admin_account already_disabled last_super_admin not_disabled : Sentinel
  role_already_assigned : Sentinel
  no_rows : Sentinel
  other : String → Sentinel

-- The codes of VAR-10 that the service issues.
pub data Reason : Type 0 where
  password_changed token_reuse_detected account_deleted account_disabled : Reason

-- What PostgreSQL reports for a statement that fails.
pub data DbFault : Type 0 where
  could_not_serialize : DbFault
  unique_violation : String → DbFault
  failure : DbFault
  -- the server ran what it was asked, and the answer was lost
  reply_lost : DbFault

pub data Err : Type 0 where
  sentinel : Sentinel → Err
  rate_limited_error : ℕ → Err
  locked_error : ℕ → Err
  session_revoked_error : Reason → Err
  pg_error : DbFault → Err
  service_error : Err
  wrapped : String → Err → Err
  joined : Err → Err → Err

-- A number for each sentinel, to compare them by.
abbrev tag : Sentinel → ℕ
tag invalid_email = 0
tag invalid_password = 1
tag invalid_admin_role = 2
tag email_not_verified = 3
tag Sentinel.account_disabled = 4
tag email_already_registered = 5
tag token_not_found = 6
tag token_consume_conflict = 7
tag reset_token_not_found = 8
tag reset_token_consume_conflict = 9
tag invitation_token_not_found = 10
tag invitation_token_consume_conflict = 11
tag rate_limited = 12
tag mail_delivery_fail = 13
tag authentication_failed = 14
tag invalid_refresh_token = 15
tag refresh_token_expired = 16
tag refresh_token_already_used = 17
tag refresh_token_format_invalid = 18
tag invalid_token = 19
tag token_expired = 20
tag invalid_reset_token = 21
tag reset_token_expired = 22
tag invalid_invitation_token = 23
tag invitation_token_expired = 24
tag password_mismatch = 25
tag user_not_found = 26
tag not_admin_account = 27
tag already_disabled = 28
tag last_super_admin = 29
tag not_disabled = 30
tag role_already_assigned = 31
tag no_rows = 32
tag (other s) = 33

-- errors.Is(err, target), for a target among the package's variables.
abbrev pub is : Err → Sentinel → Bool
is (sentinel s) t = tag s == tag t
is (rate_limited_error n) t = tag rate_limited == tag t
is (locked_error n) t = false
is (session_revoked_error r) t = false
is (pg_error f) t = false
is service_error t = false
is (wrapped m e) t = is e t
is (joined a b) t = is a t || is b t

-- The text of a fault holds "could not serialize access", and a wrapping error holds the text of
-- what it wraps; no other text of the program holds it.
abbrev pub mentions_serialization : Err → Bool
mentions_serialization (pg_error could_not_serialize) = true
mentions_serialization (wrapped m e) = mentions_serialization e
mentions_serialization (joined a b) = mentions_serialization a || mentions_serialization b
mentions_serialization _ = false

-- common.IsUniqueViolationError
abbrev pub is_unique_violation : Err → String → Bool
is_unique_violation (pg_error (unique_violation c)) constraint = str_eq c constraint
is_unique_violation (wrapped m e) constraint = is_unique_violation e constraint
is_unique_violation (joined a b) constraint =
    is_unique_violation a constraint || is_unique_violation b constraint
is_unique_violation _ constraint = false
