-- ===== src/Http.antt =====
-- backend/auth/api/http/handler.go and the parts of backend/common/http that decide what a request
-- does and what it is answered.
pub mod Texts
pub mod Problem
pub mod Access
pub mod Answers
pub mod Handlers
pub mod Routes
pub mod Guards
pub mod Statuses
pub mod Tokens
pub mod Bodies
pub mod RequestLog
pub mod Context
