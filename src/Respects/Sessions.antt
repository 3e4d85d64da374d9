-- ===== src/Respects/Sessions.antt =====
-- The handlers about sessions respect a preorder that the repository's writes respect.
use poc_hydra_auth.Prelude.{ℕ, String, Option, none, some}
use poc_hydra_auth.Errors.{Err, Reason}
use poc_hydra_auth.Exec.{Result, ok, err}
use poc_hydra_auth.World.{Env}
use poc_hydra_auth.Repo.Users.{LoginUser}
use poc_hydra_auth.Repo.RefreshTokens.{StoredRefreshToken, RefreshUser}
use poc_hydra_auth.Command.Login.{issue_tokens, refuse_login, admit, authenticate, login}
use poc_hydra_auth.Command.RefreshToken.{
  revoke_and_fail, reuse_detected, after_rotation, rotate, for_user, refresh_at, refresh_stored,
  refresh,
}
use poc_hydra_auth.Command.Logout.{revoke_own, logout_stored, logout}
use poc_hydra_auth.Respects.{Preorder, Respects}
use poc_hydra_auth.Respects.Reads.{read_rules}
use poc_hydra_auth.Respects.Writes.{RespectsWrites}

module _ {K : Type 0} (env : Env K) {R : Preorder} (writes : RespectsWrites env R) where
  issue_tokens-Respects : (user : LoginUser) → Respects R (issue_tokens env user)
  unfolding issue_tokens
  issue_tokens-Respects user = search (read_rules, writes.saves) depth 14

  refuse_login-Respects : (email : String) → Respects R (refuse_login env email)
  unfolding refuse_login
  refuse_login-Respects email = search read_rules

  admit-Respects : (email : String) (user : LoginUser) → Respects R (admit env email user)
  unfolding admit
  admit-Respects email user = search (read_rules, issue_tokens-Respects)

  authenticate-Respects :
      (email password : String) (user : Option LoginUser)
      → Respects R (authenticate env email password user)
  unfolding authenticate
  authenticate-Respects email password none = refuse_login-Respects email
  authenticate-Respects email password (some user) =
      search (read_rules, refuse_login-Respects, admit-Respects)

  pub login-Respects : (email password : String) → Respects R (login env email password)
  unfolding login
  login-Respects email password = search (read_rules, authenticate-Respects) depth 12

  revoke_and_fail-Respects :
      {A : Type 0} (message : String) (token : ℕ) (reason : Option Reason) (e : Err)
      → Respects R (revoke_and_fail env {A = A} message token reason e)
  unfolding revoke_and_fail
  revoke_and_fail-Respects message token reason e = search (read_rules, writes.revokes)

  reuse_detected-Respects :
      {A : Type 0} (stored : StoredRefreshToken) → Respects R (reuse_detected env {A = A} stored)
  unfolding reuse_detected
  reuse_detected-Respects stored = search (read_rules, writes.revokes_family)

  after_rotation-Respects :
      (stored : StoredRefreshToken) (r : Result (Unit {0}))
      → Respects R (after_rotation env stored r)
  unfolding after_rotation
  after_rotation-Respects stored (ok a) = search read_rules
  after_rotation-Respects stored (err e) = search (read_rules, reuse_detected-Respects)

  rotate-Respects :
      (stored : StoredRefreshToken) (user : RefreshUser) → Respects R (rotate env stored user)
  unfolding rotate
  rotate-Respects stored user =
      search (read_rules, after_rotation-Respects, writes.rotates) depth 14

  for_user-Respects :
      (stored : StoredRefreshToken) (user : Option RefreshUser)
      → Respects R (for_user env stored user)
  unfolding for_user
  for_user-Respects stored none = search (read_rules, revoke_and_fail-Respects)
  for_user-Respects stored (some user) =
      search (read_rules, revoke_and_fail-Respects, rotate-Respects)

  refresh_at-Respects :
      (stored : StoredRefreshToken) (now : ℕ) → Respects R (refresh_at env stored now)
  unfolding refresh_at
  refresh_at-Respects stored now =
      search (read_rules, revoke_and_fail-Respects, reuse_detected-Respects, for_user-Respects)
        depth 8

  refresh_stored-Respects :
      (stored : Option StoredRefreshToken) → Respects R (refresh_stored env stored)
  unfolding refresh_stored
  refresh_stored-Respects none = search read_rules
  refresh_stored-Respects (some stored) = search (read_rules, refresh_at-Respects)

  pub refresh-Respects : (token : String) → Respects R (refresh env token)
  unfolding refresh
  refresh-Respects token = search (read_rules, refresh_stored-Respects) depth 8

  revoke_own-Respects :
      (stored : StoredRefreshToken) (user : Option ℕ) → Respects R (revoke_own env stored user)
  unfolding revoke_own
  revoke_own-Respects stored none = search read_rules
  revoke_own-Respects stored (some user) = search (read_rules, writes.revokes)

  logout_stored-Respects :
      (user : String) (stored : Option StoredRefreshToken)
      → Respects R (logout_stored env user stored)
  unfolding logout_stored
  logout_stored-Respects user none = search read_rules
  logout_stored-Respects user (some stored) = revoke_own-Respects stored _

  pub logout-Respects : (token user : String) → Respects R (logout env token user)
  unfolding logout
  logout-Respects token user = search (read_rules, logout_stored-Respects) depth 8
