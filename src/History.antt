-- ===== src/History.antt =====
-- What no run of requests can undo: how each table may change over any time.
pub mod Grows
pub mod Kept
pub mod Accounts
pub mod Sessions
pub mod Spent
pub mod OneTime
pub mod Single
pub mod Links
pub mod Admins
pub mod Keyed
pub mod First
pub mod Replay
pub mod Ended
