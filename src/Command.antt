-- ===== src/Command.antt =====
-- backend/auth/app/command: the handlers, one module each. A handler returns the Go function's
-- error, or its result, and the world that it leaves. Log lines are left out.
pub mod Steps
pub mod RegisterAccount
pub mod VerifyEmail
pub mod ResendEmailVerification
pub mod Login
pub mod RefreshToken
pub mod Logout
pub mod ChangePassword
pub mod RequestPasswordReset
pub mod ConfirmPasswordReset
pub mod InviteAdmin
pub mod AcceptInvitation
pub mod DisableAccount
pub mod ReactivateAccount
