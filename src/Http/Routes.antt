-- ===== src/Http/Routes.antt =====
-- Register and protectedRouter of handler.go, with the middlewares in front of the handlers and the
-- error handler behind them.
use poc_hydra_auth.Prelude.{
  String, str_eq, true, false, Option, none, some, List, [], ◌∷◌, if◌then◌else◌,
}
use poc_hydra_auth.Domain.Status.{role_super_admin}
use poc_hydra_auth.World.{World, Env}
use poc_hydra_auth.Http.Problem.{Response, problem_error_handler}
use poc_hydra_auth.Http.Access.{
  AuthClaims, JwtParse, authenticated, unauthorized, forbidden, has_required_role,
}
use poc_hydra_auth.Http.Handlers.{
  Handled, responds, fails, challenges, Action, handle_register, handle_verify, handle_resend,
  handle_request_reset, handle_accept, handle_invite, handle_disable, handle_reactivate,
  handle_confirm_reset, handle_login, handle_refresh, handle_logout, handle_change_password,
}

-- The request objects of the generated server: a body may be missing, a path parameter is there.
pub data RequestObject : Type 0 where
  disable_admin_account_request : String → RequestObject
  reactivate_admin_account_request : String → RequestObject
  invite_admin_request : Option (String × String) → RequestObject
  verify_email_request : Option String → RequestObject
  resend_email_verification_request : Option String → RequestObject
  accept_invitation_request : Option (String × String) → RequestObject
  login_request : Option (String × String) → RequestObject
  logout_request : Option String → RequestObject
  change_password_request : Option (String × String) → RequestObject
  request_password_reset_request : Option String → RequestObject
  confirm_password_reset_request : Option (String × String) → RequestObject
  register_account_request : Option (String × String) → RequestObject
  refresh_token_request : Option String → RequestObject

-- The path under which RegisterHandlersWithBaseURL registers each, with an empty base.
unfoldable pub route_path : RequestObject → String
route_path (disable_admin_account_request target) = "/admin/accounts/:userId/disable"
route_path (reactivate_admin_account_request target) = "/admin/accounts/:userId/reactivate"
route_path (invite_admin_request body) = "/admin/invitations"
route_path (verify_email_request body) = "/auth/email-verify"
route_path (resend_email_verification_request body) = "/auth/email-verify/resend"
route_path (accept_invitation_request body) = "/auth/invitation/accept"
route_path (login_request body) = "/auth/login"
route_path (logout_request body) = "/auth/logout"
route_path (change_password_request body) = "/auth/password"
route_path (request_password_reset_request body) = "/auth/password-reset"
route_path (confirm_password_reset_request body) = "/auth/password-reset/confirm"
route_path (register_account_request body) = "/auth/register"
route_path (refresh_token_request body) = "/auth/token/refresh"

pub data Middleware : Type 0 where
  jwt_auth : Middleware
  require_roles : List String → Middleware

abbrev pub only_super_admin : List Middleware
only_super_admin = jwt_auth ∷ require_roles (role_super_admin ∷ []) ∷ []

-- The map of Register.
unfoldable pub protected : List (String × List Middleware)
protected =
    ("/auth/logout", jwt_auth ∷ [])
    ∷ ("/auth/password", jwt_auth ∷ [])
    ∷ ("/admin/invitations", only_super_admin)
    ∷ ("/admin/accounts/:userId/disable", only_super_admin)
    ∷ ("/admin/accounts/:userId/reactivate", only_super_admin)
    ∷ []

-- protectedRouter.POST and PUT: the middlewares of a path, the first one outermost.
unfoldable pub middlewares : List (String × List Middleware) → String → List Middleware
middlewares [] path = []
middlewares ((p, ms) ∷ rest) path = if str_eq p path then ms else middlewares rest path

pub record HttpRequest : Type 0 where
  pub authorization : String
  pub uri : String
  pub client_ip : String
  pub object : RequestObject

module _ {K : Type 0} (env : Env K) where
  -- The strict handler's call of the method.
  unfoldable pub dispatch : String → RequestObject → Option AuthClaims → Action K
  dispatch ip (disable_admin_account_request target) claims = handle_disable env claims target
  dispatch ip (reactivate_admin_account_request target) claims = handle_reactivate env claims target
  dispatch ip (invite_admin_request body) claims = handle_invite env body
  dispatch ip (verify_email_request body) claims = handle_verify env ip body
  dispatch ip (resend_email_verification_request body) claims = handle_resend env body
  dispatch ip (accept_invitation_request body) claims = handle_accept env body
  dispatch ip (login_request body) claims = handle_login env body
  dispatch ip (logout_request body) claims = handle_logout env claims body
  dispatch ip (change_password_request body) claims = handle_change_password env claims body
  dispatch ip (request_password_reset_request body) claims = handle_request_reset env body
  dispatch ip (confirm_password_reset_request body) claims = handle_confirm_reset env body
  dispatch ip (register_account_request body) claims = handle_register env body
  dispatch ip (refresh_token_request body) claims = handle_refresh env body

-- JWTAuth and RequireRoles, each before the rest of the chain; the claims are in the context.
abbrev pub jwt_step : {K : Type 0} → Option AuthClaims → (Option AuthClaims → Action K) → Action K
jwt_step none next w = (challenges unauthorized, w)
jwt_step (some claims) next w = next (some claims) w

abbrev pub roles_step :
    {K : Type 0} → List String → Option AuthClaims → (Option AuthClaims → Action K) → Action K
unfolding has_required_role
roles_step required none next w = (fails unauthorized, w)
roles_step required (some claims) next w =
    if has_required_role required claims.roles then next (some claims) w else (fails forbidden, w)

module _ {K : Type 0} (parse : JwtParse) (header : String) where
  unfoldable pub chained :
      List Middleware → (Option AuthClaims → Action K) → Option AuthClaims → Action K
  unfolding authenticated roles_step
  chained [] next claims w = next claims w
  chained (jwt_auth ∷ ms) next claims w =
      jwt_step (authenticated parse header w.now) (chained ms next) w
  chained (require_roles required ∷ ms) next claims w =
      roles_step required claims (chained ms next) w

-- What goes out for what the chain returned.
unfoldable pub responded : String → Handled → Response
unfolding problem_error_handler
responded uri (responds r) = r
responded uri (fails e) = problem_error_handler uri false e
responded uri (challenges e) = problem_error_handler uri true e

-- A request from the router to the response.
unfoldable pub serve_http :
    {K : Type 0} → Env K → JwtParse → HttpRequest → World K → Response × World K
unfolding dispatch chained middlewares protected route_path responded
serve_http env parse r w =
    let (h, w') =
      chained parse r.authorization (middlewares protected (route_path r.object))
        (dispatch env r.client_ip r.object) none w in
    (responded r.uri h, w')
