-- ===== src/Db.antt =====
-- The tables of backend/auth/adapters/db (dbmodels/models.go), as the lists of their rows.
-- The modules below hold the statements on them.
pub mod Users
pub mod Tokens
pub mod RefreshTokens
pub mod Tx
use poc_hydra_auth.Prelude.{ℕ, String, Option, List, []}
use poc_hydra_auth.Errors.{Reason}
use poc_hydra_auth.Domain.Status.{Status}

pub record AuthUser : Type 0 where
  pub user_uuid : ℕ
  pub email : String
  pub password_hash : String
  pub status : Status
  pub created_at : ℕ
  pub updated_at : ℕ
  pub deleted_at : Option ℕ

pub record AuthUserRole : Type 0 where
  pub user_uuid : ℕ
  pub role : String
  pub granted_at : ℕ

-- AuthEmailConfirmationToken and AuthPasswordResetToken have the same columns.
pub record AuthToken : Type 0 where
  pub token_uuid : ℕ
  pub user_uuid : ℕ
  pub token_hash : String
  pub expires_at : ℕ
  pub used_at : Option ℕ
  pub created_at : ℕ

pub record AuthInvitationToken : Type 0 where
  pub token_uuid : ℕ
  pub email : String
  pub role : String
  pub token_hash : String
  pub expires_at : ℕ
  pub used_at : Option ℕ
  pub created_at : ℕ

pub record AuthRefreshToken : Type 0 where
  pub token_id : ℕ
  pub user_uuid : ℕ
  pub family_id : ℕ
  pub parent_token_id : Option ℕ
  pub token_hash : String
  pub expires_at : ℕ
  pub used_at : Option ℕ
  pub revoked_at : Option ℕ
  pub revocation_reason : Option Reason
  pub created_at : ℕ

pub record Db : Type 0 where
  pub users : List AuthUser
  pub user_roles : List AuthUserRole
  pub email_confirmation_tokens : List AuthToken
  pub password_reset_tokens : List AuthToken
  pub invitation_tokens : List AuthInvitationToken
  pub refresh_tokens : List AuthRefreshToken

abbrev pub empty_db : Db
empty_db = record {
  users = [];
  user_roles = [];
  email_confirmation_tokens = [];
  password_reset_tokens = [];
  invitation_tokens = [];
  refresh_tokens = [];
}
