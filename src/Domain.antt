-- ===== src/Domain.antt =====
-- backend/auth/domain: account states, roles, validation of input, and the times that tokens live.
pub mod Library
pub mod Status
pub mod Validation
pub mod Token
pub mod Issue
