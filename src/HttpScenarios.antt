-- ===== src/HttpScenarios.antt =====
-- Requests over HTTP to the small service of Scenarios, and the theorems applied to them.
use poc_hydra_auth.Prelude.{
  arith, String, str_eq, ◌≡◌, refl, ◌⊎◌, true, false, Option, none, some, List, [], ◌∷◌, ltb,
  if◌then◌else◌,
}
use poc_hydra_auth.Errors.{rate_limited_error, locked_error}
use poc_hydra_auth.Domain.Library.{Library}
use poc_hydra_auth.Domain.Token.{generate_access_token, unix}
use poc_hydra_auth.Scenarios.{env, world}
use poc_hydra_auth.Http.Access.{JwtParse, verify_access_token}
use poc_hydra_auth.Http.Answers.{
  register_answer, verify_answer, resend_answer, request_reset_answer, invite_answer, login_answer,
}
use poc_hydra_auth.Http.Routes.{HttpRequest, serve_http, invite_admin_request, logout_request}
use poc_hydra_auth.Http.Guards.{
  Administers, Bears, Denied, admin_routes_guarded, own_routes_guarded,
}
use poc_hydra_auth.Http.Statuses.{TriesLater, retry_after_bounds}
use poc_hydra_auth.Http.Tokens.{Agree, access_claims, access_token_round_trip}

-- One good token, of an operator.
abbrev parse : JwtParse
parse token now =
    if str_eq token "signed"
    then some (record { subject = some "7"; roles = some "operator" ∷ [] })
    else none

abbrev invites : HttpRequest
invites = record {
  authorization = "bearer signed";
  uri = "/admin/invitations";
  client_ip = "10.0.0.1";
  object = invite_admin_request (some ("ann@example.com", "operator"));
}

abbrev logs_out : HttpRequest
logs_out = record {
  authorization = "Basic signed";
  uri = "/auth/logout";
  client_ip = "10.0.0.1";
  object = logout_request (some "plain");
}

admin_routes_guarded_example :
    Administers parse "bearer signed" world.now
    ⊎ (Denied world (serve_http env parse invites world) 401 true
        ⊎ Denied world (serve_http env parse invites world) 403 false)
admin_routes_guarded_example = admin_routes_guarded env parse invites world refl

own_routes_guarded_example :
    ((roles : List (Option String)) × Bears parse "Basic signed" world.now roles)
    ⊎ Denied world (serve_http env parse logs_out world) 401 true
own_routes_guarded_example = own_routes_guarded env parse logs_out world refl

-- A library that signs, and its other half, for one set of claims.
abbrev lib : Library
lib = record env.lib { sign_rs256 = λ c. some "signed" }

abbrev parse_until : JwtParse
parse_until token now =
    if ltb (unix now) 900
    then some (record { subject = some "7"; roles = some "user" ∷ [] })
    else none

agree : Agree lib parse_until (access_claims "7" ("user" ∷ []) 900000000000 0)
agree = record { parses = λ token now h. refl }

access_token_round_trip_example :
    verify_access_token parse_until "signed" 800000000000
    ≡ some (record { user_id = "7"; roles = "user" ∷ [] })
unfolding generate_access_token
access_token_round_trip_example =
    access_token_round_trip lib parse_until "7" ("user" ∷ []) 900000000000 0 "signed" 800000000000
      agree refl refl

retry_after_bounds_example :
    TriesLater 1500000000 (register_answer (rate_limited_error 1500000000))
    × TriesLater 1500000000 (verify_answer (rate_limited_error 1500000000))
    × TriesLater 1500000000 (resend_answer (rate_limited_error 1500000000))
    × TriesLater 1500000000 (request_reset_answer (rate_limited_error 1500000000))
    × TriesLater 1500000000 (invite_answer (rate_limited_error 1500000000))
    × TriesLater 1500000000 (login_answer (locked_error 1500000000))
retry_after_bounds_example = retry_after_bounds 1500000000 (omega arith)
