-- ===== src/Http/Handlers.antt =====
-- The methods of Handler in handler.go: the tests of the request, the use case, and the answer.
use poc_hydra_auth.Prelude.{String, str_eq, false, Option, none, some, if◌then◌else◌}
use poc_hydra_auth.Errors.{Err, password_changed, Reason}
use poc_hydra_auth.Exec.{Result, ok, err}
use poc_hydra_auth.World.{World, M, Env}
use poc_hydra_auth.Command.RegisterAccount.{register_account}
use poc_hydra_auth.Command.VerifyEmail.{verify_email}
use poc_hydra_auth.Command.ResendEmailVerification.{resend_email_verification}
use poc_hydra_auth.Command.Login.{login}
use poc_hydra_auth.Command.RefreshToken.{refresh}
use poc_hydra_auth.Command.Logout.{logout}
use poc_hydra_auth.Command.ChangePassword.{change_password}
use poc_hydra_auth.Command.RequestPasswordReset.{request_password_reset}
use poc_hydra_auth.Command.ConfirmPasswordReset.{confirm_password_reset}
use poc_hydra_auth.Command.InviteAdmin.{invite_admin}
use poc_hydra_auth.Command.AcceptInvitation.{accept_invitation}
use poc_hydra_auth.Command.DisableAccount.{disable_account}
use poc_hydra_auth.Command.ReactivateAccount.{reactivate_account}
use poc_hydra_auth.Http.Problem.{HttpErr, Response, Body, empty, tokens, revocation}
use poc_hydra_auth.Http.Access.{AuthClaims, unauthorized}
use poc_hydra_auth.Http.Answers.{
  missing_body, missing_token, reason_code, register_answer, verify_answer, resend_answer,
  request_reset_answer, accept_answer, invite_answer, disable_answer, reactivate_answer,
  confirm_reset_answer, login_answer, refresh_answer, logout_answer, change_password_answer,
}

-- What a handler or a middleware returns: a response, or an error, after WWW-Authenticate was set or
-- not.
pub data Handled : Type 0 where
  responds : Response → Handled
  fails : HttpErr → Handled
  challenges : HttpErr → Handled

abbrev pub success : Body → Handled
success b =
    responds (record { status = 200; retry_after_header = none; challenge = false; body = b })

abbrev pub created : Handled
created =
    responds (record { status = 201; retry_after_header = none; challenge = false; body = empty })

abbrev pub Action : Type 0 → Type 0
Action K = World K → Handled × World K

abbrev pub refusing : {K : Type 0} → HttpErr → Action K
refusing e w = (fails e, w)

abbrev pub concluded : {A : Type 0} → (A → Handled) → (Err → HttpErr) → Result A → Handled
concluded good bad (ok a) = good a
concluded good bad (err e) = fails (bad e)

-- `err := h.x.Handle(...)` and the switch on it.
abbrev pub handling : {K A : Type 0} → (A → Handled) → (Err → HttpErr) → M K A → Action K
handling good bad m w = let (r, w') = m w in (concluded good bad r, w')

module _ {K : Type 0} (env : Env K) where
  -- RegisterAccount
  unfoldable pub handle_register : Option (String × String) → Action K
  handle_register none = refusing missing_body
  handle_register (some (email, password)) =
      handling (λ _. created) register_answer (register_account env email password)

  -- VerifyEmail; the client's address comes from the context.
  unfoldable pub handle_verify : String → Option String → Action K
  handle_verify ip none = refusing missing_body
  handle_verify ip (some token) =
      if str_eq token ""
      then refusing missing_token
      else handling (λ _. success empty) verify_answer (verify_email env token ip)

  -- ResendEmailVerification
  unfoldable pub handle_resend : Option String → Action K
  handle_resend none = refusing missing_body
  handle_resend (some email) =
      handling (λ _. success empty) resend_answer (resend_email_verification env email)

  -- RequestPasswordReset
  unfoldable pub handle_request_reset : Option String → Action K
  handle_request_reset none = refusing missing_body
  handle_request_reset (some email) =
      handling (λ _. success empty) request_reset_answer (request_password_reset env email)

  -- AcceptInvitation
  unfoldable pub handle_accept : Option (String × String) → Action K
  handle_accept none = refusing missing_body
  handle_accept (some (token, password)) =
      if str_eq token ""
      then refusing missing_token
      else handling (λ _. success empty) accept_answer (accept_invitation env token password)

  -- InviteAdmin
  unfoldable pub handle_invite : Option (String × String) → Action K
  handle_invite none = refusing missing_body
  handle_invite (some (email, role)) =
      handling (λ _. success empty) invite_answer (invite_admin env email role)

  -- DisableAdminAccount
  unfoldable pub handle_disable : Option AuthClaims → String → Action K
  handle_disable none target = refusing unauthorized
  handle_disable (some claims) target =
      handling (λ _. success (revocation (reason_code Reason.account_disabled))) disable_answer
        (disable_account env claims.user_id target)

  -- ReactivateAdminAccount
  unfoldable pub handle_reactivate : Option AuthClaims → String → Action K
  handle_reactivate none target = refusing unauthorized
  handle_reactivate (some claims) target =
      handling (λ _. success empty) reactivate_answer (reactivate_account env claims.user_id target)

  -- ConfirmPasswordReset
  unfoldable pub handle_confirm_reset : Option (String × String) → Action K
  handle_confirm_reset none = refusing missing_body
  handle_confirm_reset (some (token, password)) =
      if str_eq token ""
      then refusing missing_token
      else handling (λ _. success empty) confirm_reset_answer
          (confirm_password_reset env token password)

  -- Login
  unfoldable pub handle_login : Option (String × String) → Action K
  handle_login none = refusing missing_body
  handle_login (some (email, password)) =
      handling (λ t. success (tokens t)) login_answer (login env email password)

  -- RefreshToken
  unfoldable pub handle_refresh : Option String → Action K
  handle_refresh none = refusing missing_body
  handle_refresh (some token) =
      handling (λ t. success (tokens t)) refresh_answer (refresh env token)

  -- Logout
  unfoldable pub handle_logout : Option AuthClaims → Option String → Action K
  handle_logout none body = refusing unauthorized
  handle_logout (some claims) none = refusing missing_body
  handle_logout (some claims) (some token) =
      handling (λ _. success empty) logout_answer (logout env token claims.user_id)

  -- ChangePassword
  unfoldable pub handle_change_password : Option AuthClaims → Option (String × String) → Action K
  handle_change_password none body = refusing unauthorized
  handle_change_password (some claims) none = refusing missing_body
  handle_change_password (some claims) (some (old, new)) =
      handling (λ _. success (revocation (reason_code password_changed))) change_password_answer
        (change_password env claims.user_id old new)
