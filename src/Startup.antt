-- ===== src/Startup.antt =====
-- How the processes start: backend/cmd, backend/svc.go, backend/common/migrations.go and the signing
-- key of backend/auth/domain/token.go.
pub mod Events
pub mod Migrations
pub mod Key
pub mod Service
pub mod Cleanup
pub mod Ready
