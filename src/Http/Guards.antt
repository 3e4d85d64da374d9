-- ===== src/Http/Guards.antt =====
-- Who gets past the middlewares of the protected routes.
use poc_hydra_auth.Prelude.{
  ℕ, String, str_eq, ◌≡◌, refl, sym, ap, ◌∙◌, ◌⊎◌, inl, inr, Bool, true, false, Option, none, some,
  List, [], ◌∷◌, any, if◌then◌else◌, Bool-cases, Option-cases,
}
use poc_hydra_auth.World.{World, Env}
use poc_hydra_auth.Http.Problem.{Response, problem_error_handler, status_from_error, shaped_problem}
use poc_hydra_auth.Http.Access.{
  AuthClaims, MapClaims, JwtParse, authenticated, has_required_role, bearer_token,
  verify_access_token, texts, with_subject, from_claims,
}
use poc_hydra_auth.Http.Handlers.{Handled, Action}
use poc_hydra_auth.Http.Routes.{
  RequestObject, HttpRequest, serve_http, dispatch, chained, middlewares, protected, route_path,
  responded, only_super_admin, Middleware, jwt_auth, require_roles, verify_email_request,
  resend_email_verification_request, accept_invitation_request, login_request,
  request_password_reset_request, confirm_password_reset_request, register_account_request,
  refresh_token_request, disable_admin_account_request, reactivate_admin_account_request,
  invite_admin_request, logout_request, change_password_request,
}

-- The header holds a token that the library accepts, with a subject; `roles` are its roles.
pub record Bears (parse : JwtParse) (header : String) (now : ℕ) (roles : List (Option String))
    : Type 0 where
  pub subject : String
  pub named : str_eq subject "" ≡ false
  pub accepted :
      parse (bearer_token header) now ≡ some (record { subject = some subject; roles = roles })

abbrev pub is_text : String → Option String → Bool
is_text x none = false
is_text x (some s) = str_eq s x

abbrev pub is_admin_route : RequestObject → Bool
is_admin_route (disable_admin_account_request target) = true
is_admin_route (reactivate_admin_account_request target) = true
is_admin_route (invite_admin_request body) = true
is_admin_route _ = false

abbrev pub is_own_route : RequestObject → Bool
is_own_route (logout_request body) = true
is_own_route (change_password_request body) = true
is_own_route _ = false

pick_lem :
    {A : Type 0} (b : Bool) (x y : A)
    → (if b then none else some x) ≡ some y
    → (b ≡ false) × (x ≡ y)
pick_lem true x y h = cc h
pick_lem false x y h = (refl, cc h)

subject_lem :
    (s : Option String) (roles : List (Option String)) (c : AuthClaims)
    → with_subject s roles ≡ some c
    → (sub : String) × (s ≡ some sub) × (str_eq sub "" ≡ false) × (texts roles ≡ c.roles)
subject_lem none roles c h = cc h
subject_lem (some sub) roles c h =
    let (e, f) = pick_lem (str_eq sub "") (record { user_id = sub; roles = texts roles }) c h in
    (sub, refl, e, ap (λ a. a.roles) f)

claims_lem :
    (o : Option MapClaims) (c : AuthClaims)
    → from_claims o ≡ some c
    → (sub : String) × (roles : List (Option String)) × (o
        ≡ some (record { subject = some sub; roles = roles }))
      × (str_eq sub "" ≡ false)
      × (texts roles ≡ c.roles)
claims_lem none c h = cc h
claims_lem (some m) c h =
    let (sub, e, f, g) = subject_lem m.subject m.roles c h in
    (sub, m.roles, ap (λ x. some (record { subject = x; roles = m.roles })) e, f, g)

texts_lem :
    (x : String) (roles : List (Option String))
    → any (λ have. any (str_eq have) (x ∷ [])) (texts roles) ≡ any (is_text x) roles
texts_lem x [] = refl
texts_lem x (none ∷ rs) = texts_lem x rs
texts_lem x (some r ∷ rs) = elim (Bool-cases (str_eq r x)) [
  | inl e ↦ rw e refl
  | inr e ↦ rw e (texts_lem x rs)
]

token_lem :
    {A : Type 0} (b : Bool) (o : Option A) (a : A) → (if b then none else o) ≡ some a → o ≡ some a
token_lem true o a h = cc h
token_lem false o a h = h

module _ (parse : JwtParse) (header : String) (now : ℕ) where
  authenticated_lem :
      (c : AuthClaims)
      → authenticated parse header now ≡ some c
      → (roles : List (Option String)) × Bears parse header now roles
        × ((x : String) → has_required_role (x ∷ []) c.roles ≡ any (is_text x) roles)
  unfolding authenticated verify_access_token has_required_role
  authenticated_lem c h =
      let accepted =
        token_lem (str_eq (bearer_token header) "") (from_claims (parse (bearer_token header) now))
          c h in
      let (sub, roles, e, f, g) = claims_lem (parse (bearer_token header) now) c accepted in
      (
        roles,
        record { subject = sub; named = f; accepted = e },
        λ x. ap (λ rs. any (λ have. any (str_eq have) (x ∷ [])) rs) (sym g) ∙ texts_lem x roles,
      )

-- The request did nothing, and its answer says why.
pub record Denied {K : Type 0} (w : World K) (r : Response × World K) (status : ℕ)
    (challenge : Bool) : Type 0 where
  pub unchanged : r.1 ≡ w
  pub status_given : r.0.status ≡ status
  pub challenge_given : r.0.challenge ≡ challenge

abbrev finished : {K : Type 0} → String → Handled × World K → Response × World K
unfolding responded
finished uri p = (responded uri p.0, p.1)

admin_lem :
    (o : RequestObject)
    → is_admin_route o ≡ true
    → middlewares protected (route_path o) ≡ only_super_admin
unfolding middlewares protected route_path
admin_lem (disable_admin_account_request target) h = refl
admin_lem (reactivate_admin_account_request target) h = refl
admin_lem (invite_admin_request body) h = refl
admin_lem (verify_email_request body) h = cc h
admin_lem (resend_email_verification_request body) h = cc h
admin_lem (accept_invitation_request body) h = cc h
admin_lem (login_request body) h = cc h
admin_lem (logout_request body) h = cc h
admin_lem (change_password_request body) h = cc h
admin_lem (request_password_reset_request body) h = cc h
admin_lem (confirm_password_reset_request body) h = cc h
admin_lem (register_account_request body) h = cc h
admin_lem (refresh_token_request body) h = cc h

own_lem :
    (o : RequestObject)
    → is_own_route o ≡ true
    → middlewares protected (route_path o) ≡ jwt_auth ∷ []
unfolding middlewares protected route_path
own_lem (logout_request body) h = refl
own_lem (change_password_request body) h = refl
own_lem (disable_admin_account_request target) h = cc h
own_lem (reactivate_admin_account_request target) h = cc h
own_lem (invite_admin_request body) h = cc h
own_lem (verify_email_request body) h = cc h
own_lem (resend_email_verification_request body) h = cc h
own_lem (accept_invitation_request body) h = cc h
own_lem (login_request body) h = cc h
own_lem (request_password_reset_request body) h = cc h
own_lem (confirm_password_reset_request body) h = cc h
own_lem (register_account_request body) h = cc h
own_lem (refresh_token_request body) h = cc h

module _ {K : Type 0} (parse : JwtParse) (header uri : String) (next : Option AuthClaims → Action K)
    (w : World K) where
  no_claims_lem :
      (ms : List Middleware)
      → authenticated parse header w.now ≡ none
      → Denied w (finished uri (chained parse header (jwt_auth ∷ ms) next none w)) 401 true
  unfolding chained responded finished problem_error_handler status_from_error shaped_problem
  no_claims_lem ms e =
      rw e (record { unchanged = refl; status_given = refl; challenge_given = refl })

  no_role_lem :
      (c : AuthClaims)
      → authenticated parse header w.now ≡ some c
      → has_required_role ("super_admin" ∷ []) c.roles ≡ false
      → Denied w (finished uri (chained parse header only_super_admin next none w)) 403 false
  unfolding chained responded finished problem_error_handler status_from_error shaped_problem
  no_role_lem c e f =
      rw (e, f) (record { unchanged = refl; status_given = refl; challenge_given = refl })

-- The administrators' role among those that the token names.
abbrev pub Administers : JwtParse → String → ℕ → Type 0
Administers parse header now =
    (roles : List (Option String)) × Bears parse header now roles
    × (any (is_text "super_admin") roles ≡ true)

module _ {K : Type 0} (env : Env K) (parse : JwtParse) where
  -- A request for an administrator's route passes the middlewares only when its header bears a token
  -- that the library accepts, with a subject that is not empty and "super_admin" among its roles.
  -- Otherwise it changes nothing, neither the database nor anything else, and is answered 401 with
  -- a challenge, or 403 without one.
  pub admin_routes_guarded :
      (r : HttpRequest) (w : World K)
      → is_admin_route r.object ≡ true
      → Administers parse r.authorization w.now
        ⊎ (Denied w (serve_http env parse r w) 401 true
            ⊎ Denied w (serve_http env parse r w) 403 false)
  unfolding serve_http finished
  admin_routes_guarded r w h =
      let next = dispatch env r.client_ip r.object in
      rw (admin_lem r.object h) (elim (Option-cases (authenticated parse r.authorization w.now)) [
        | inl e ↦ inr (
            inl (
              no_claims_lem parse r.authorization r.uri next w
                (require_roles ("super_admin" ∷ []) ∷ []) e))
        | inr (c, e) ↦
            let (roles, bears, same) = authenticated_lem parse r.authorization w.now c e in
            elim (Bool-cases (has_required_role ("super_admin" ∷ []) c.roles)) [
              | inl f ↦ inl (roles, bears, sym (same "super_admin") ∙ f)
              | inr f ↦ inr (inr (no_role_lem parse r.authorization r.uri next w c e f))
            ]
      ])

  -- A request to log out or to change a password passes the middleware only when its header bears a
  -- token that the library accepts, with a subject that is not empty. Otherwise it changes nothing
  -- and is answered 401 with a challenge.
  pub own_routes_guarded :
      (r : HttpRequest) (w : World K)
      → is_own_route r.object ≡ true
      → ((roles : List (Option String)) × Bears parse r.authorization w.now roles)
        ⊎ Denied w (serve_http env parse r w) 401 true
  unfolding serve_http finished
  own_routes_guarded r w h =
      rw (own_lem r.object h) (elim (Option-cases (authenticated parse r.authorization w.now)) [
        | inl e ↦
            inr
              (no_claims_lem parse r.authorization r.uri (dispatch env r.client_ip r.object) w [] e)
        | inr (c, e) ↦
            let (roles, bears, same) = authenticated_lem parse r.authorization w.now c e in
            inl (roles, bears)
      ])
