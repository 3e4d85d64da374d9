-- ===== src/Service.antt =====
-- The thirteen operations of the service as one type, and runs of many requests. Requests run one
-- after another; before each the clock may have moved and the other services may have changed. What
-- a request may do between the reads of another and its transaction is not modelled.
use poc_hydra_auth.Prelude.{ℕ, String, List, [], ◌∷◌}
use poc_hydra_auth.World.{World, Env}
use poc_hydra_auth.Command.RegisterAccount.{register_account}
use poc_hydra_auth.Command.VerifyEmail.{verify_email}
use poc_hydra_auth.Command.ResendEmailVerification.{resend_email_verification}
use poc_hydra_auth.Command.Login.{login}
use poc_hydra_auth.Command.RefreshToken.{refresh}
use poc_hydra_auth.Command.Logout.{logout}
use poc_hydra_auth.Command.ChangePassword.{change_password}
use poc_hydra_auth.Command.RequestPasswordReset.{request_password_reset}
use poc_hydra_auth.Command.ConfirmPasswordReset.{confirm_password_reset}
use poc_hydra_auth.Command.InviteAdmin.{invite_admin}
use poc_hydra_auth.Command.AcceptInvitation.{accept_invitation}
use poc_hydra_auth.Command.DisableAccount.{disable_account}
use poc_hydra_auth.Command.ReactivateAccount.{reactivate_account}

-- The operations of auth.Module's handler, with the arguments that reach `Handle`.
pub data Request : Type 0 where
  registers : String → String → Request
  verifies : String → String → Request
  resends : String → Request
  logs_in : String → String → Request
  refreshes : String → Request
  logs_out : String → String → Request
  changes_password : String → String → String → Request
  requests_reset : String → Request
  confirms_reset : String → String → Request
  invites : String → String → Request
  accepts : String → String → Request
  disables : String → String → Request
  reactivates : String → String → Request

module _ {K : Type 0} (env : Env K) where
  -- The world that a request leaves; what it answers is the handlers' own affair.
  unfoldable pub serve : Request → World K → World K
  serve (registers email password) w = (register_account env email password w).1
  serve (verifies token ip) w = (verify_email env token ip w).1
  serve (resends email) w = (resend_email_verification env email w).1
  serve (logs_in email password) w = (login env email password w).1
  serve (refreshes token) w = (refresh env token w).1
  serve (logs_out token user) w = (logout env token user w).1
  serve (changes_password user old new) w = (change_password env user old new w).1
  serve (requests_reset email) w = (request_password_reset env email w).1
  serve (confirms_reset token password) w = (confirm_password_reset env token password w).1
  serve (invites email role) w = (invite_admin env email role w).1
  serve (accepts token password) w = (accept_invitation env token password w).1
  serve (disables operator target) w = (disable_account env operator target w).1
  serve (reactivates operator target) w = (reactivate_account env operator target w).1

  -- A request with the instant and the state of the other services that it finds.
  unfoldable pub run : List (ℕ × K × Request) → World K → World K
  run [] w = w
  run ((now, services, r) ∷ rest) w =
      run rest (serve r (record w { now = now; services = services }))
