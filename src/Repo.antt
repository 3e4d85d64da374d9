-- ===== src/Repo.antt =====
-- backend/auth/adapters/db/*_repo.go: the methods of UserRepository, by the table they are about.
pub mod Rows
pub mod Users
pub mod EmailTokens
pub mod ResetTokens
pub mod Invitations
pub mod RefreshTokens
pub mod AdminAccounts
