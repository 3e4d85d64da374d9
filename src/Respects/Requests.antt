-- ===== src/Respects/Requests.antt =====
-- Every run of requests respects a preorder that the repository's writes respect.
use poc_hydra_auth.Prelude.{ℕ, List, [], ◌∷◌}
use poc_hydra_auth.World.{World, Env}
use poc_hydra_auth.Service.{
  Request, registers, verifies, resends, logs_in, refreshes, logs_out, changes_password,
  requests_reset, confirms_reset, invites, accepts, disables, reactivates, serve, run,
}
use poc_hydra_auth.Respects.{Preorder}
use poc_hydra_auth.Respects.Writes.{RespectsWrites}
use poc_hydra_auth.Respects.Accounts.{
  register_account-Respects, verify_email-Respects, resend_email_verification-Respects,
  change_password-Respects, request_password_reset-Respects, confirm_password_reset-Respects,
  invite_admin-Respects, accept_invitation-Respects, reactivate_account-Respects,
}
use poc_hydra_auth.Respects.Sessions.{login-Respects, refresh-Respects, logout-Respects}

module _ {K : Type 0} (env : Env K) {R : Preorder} (writes : RespectsWrites env R) where
  pub serve_lem : (r : Request) (w : World K) → R.rel w.db (serve env r w).db
  unfolding serve
  serve_lem (registers email password) w =
      (register_account-Respects env writes email password).at w
  serve_lem (verifies token ip) w = (verify_email-Respects env writes token ip).at w
  serve_lem (resends email) w = (resend_email_verification-Respects env writes email).at w
  serve_lem (logs_in email password) w = (login-Respects env writes email password).at w
  serve_lem (refreshes token) w = (refresh-Respects env writes token).at w
  serve_lem (logs_out token user) w = (logout-Respects env writes token user).at w
  serve_lem (changes_password user old new) w =
      (change_password-Respects env writes user old new).at w
  serve_lem (requests_reset email) w = (request_password_reset-Respects env writes email).at w
  serve_lem (confirms_reset token new) w =
      (confirm_password_reset-Respects env writes token new).at w
  serve_lem (invites email role) w = (invite_admin-Respects env writes email role).at w
  serve_lem (accepts token password) w = (accept_invitation-Respects env writes token password).at w
  serve_lem (disables operator target) w = (writes.disables operator target).at w
  serve_lem (reactivates operator target) w =
      (reactivate_account-Respects env writes operator target).at w

  pub run_lem : (rs : List (ℕ × K × Request)) (w : World K) → R.rel w.db (run env rs w).db
  unfolding run
  run_lem [] w = R.rel_refl w.db
  run_lem ((now, services, r) ∷ rest) w =
      let v : World K = serve env r (record w { now = now; services = services }) in
      R.rel_trans w.db v.db (run env rest v).db
        (serve_lem r (record w { now = now; services = services })) (run_lem rest v)
