-- ===== src/Domain/Token.antt =====
-- token.go, and what password_reset.go, verification.go and invitation.go say of tokens. Instants
-- and durations are nanoseconds, as in Go's `time`.
use poc_hydra_auth.Prelude.{ℕ, ◌+◌, ◌*◌, ◌/◌, String, Bool, Option, List, ltb, is_some}
use poc_hydra_auth.Domain.Library.{Library}

abbrev pub second : ℕ
second = 1000000000

abbrev pub minute : ℕ
minute = 60 * second

abbrev pub hour : ℕ
hour = 60 * minute

abbrev pub access_token_ttl : ℕ
access_token_ttl = 15 * minute

abbrev pub refresh_token_ttl : ℕ
refresh_token_ttl = 30 * 24 * hour

abbrev pub email_confirmation_token_ttl : ℕ
email_confirmation_token_ttl = 24 * hour

abbrev pub password_reset_token_ttl : ℕ
password_reset_token_ttl = 30 * minute

abbrev pub invitation_token_ttl : ℕ
invitation_token_ttl = 24 * hour

abbrev pub token_plain_bytes : ℕ
token_plain_bytes = 32

abbrev pub refresh_token_bytes : ℕ
refresh_token_bytes = 32

abbrev pub password_bcrypt_cost : ℕ
password_bcrypt_cost = 12

-- EmailConfirmationToken, PasswordResetToken and InvitationToken have the same fields.
pub record NewToken : Type 0 where
  pub token_uuid : ℕ
  pub hash : String
  pub expires_at : ℕ

-- The views EmailConfirmationTokenRecord and PasswordResetTokenRecord have the same fields.
pub record TokenRecord : Type 0 where
  pub token_uuid : ℕ
  pub user_uuid : ℕ
  pub token_hash : String
  pub expires_at : ℕ
  pub used_at : Option ℕ

pub record InvitationTokenRecord : Type 0 where
  pub token_uuid : ℕ
  pub email : String
  pub role : String
  pub token_hash : String
  pub expires_at : ℕ
  pub used_at : Option ℕ

-- Used
unfoldable pub used : TokenRecord → Bool
used r = is_some r.used_at

-- Expired: now.After(r.ExpiresAt)
unfoldable pub expired : TokenRecord → ℕ → Bool
expired r now = ltb r.expires_at now

-- HashRefreshToken; HashEmailConfirmationToken, HashPasswordResetToken and HashInvitationToken
-- have the same body.
unfoldable pub hash_token : Library → String → String
hash_token lib plain = lib.sha256_hex plain

-- VerifyPassword: true for a nil error.
unfoldable pub verify_password : Library → String → String → Bool
verify_password lib hash password = lib.compare_hash_and_password hash password

-- Time.Unix
abbrev pub unix : ℕ → ℕ
unix t = t / second

-- GenerateAccessToken at the instant `now`; the claims count whole seconds.
unfoldable pub generate_access_token : Library → String → List String → ℕ → ℕ → Option String
generate_access_token lib user_id roles ttl now =
    lib.sign_rs256 (record { sub = user_id; roles = roles; iat = unix now; exp = unix (now + ttl) })
