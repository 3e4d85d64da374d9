-- ===== src/Ratelimit.antt =====
-- backend/common/ratelimit and backend/auth/adapters/ratelimit: the limiters and the lockout.
pub mod Redis
pub mod Scripts
pub mod Limiters
pub mod Lockout
pub mod Settings
pub mod Runs
pub mod Windows
pub mod Locking
pub mod Lasting
pub mod Outage
