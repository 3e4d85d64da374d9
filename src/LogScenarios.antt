-- ===== src/LogScenarios.antt =====
-- Bodies in the request log, with a JSON library of a few texts, and the theorems applied to them.
use poc_hydra_auth.Prelude.{
  ℕ, String, ◌≡◌, refl, true, false, none, some, [], str_eq, if◌then◌else◌,
}
use poc_hydra_auth.Http.Problem.{http_error}
use poc_hydra_auth.Http.RequestLog.{
  LoggedRequest, Outcome, request_log_line, sent_status, logged_status,
}
use poc_hydra_auth.Http.Context.{RequestContext, context_middleware, Identified, request_id_lasts}
use poc_hydra_auth.Http.Bodies.{
  Json, text, object, array, no_items, item, no_members, member, JsonLibrary, truncate_arrays,
  logged_body, is_sensitive_log_key,
}
use poc_hydra_auth.Http.Bodies.Redaction.{
  Alike, objects, hidden, shown, same, both_closed, logged_bodies_alike,
}
use poc_hydra_auth.Http.Bodies.Sizes.{IsShort, truncate_arrays-IsShort}

abbrev login_of : String → Json
login_of password =
    object (member "user_name" (text "ann") (member "currentPassword" (text password) no_members))

abbrev lib : JsonLibrary
lib = record {
  unmarshal = λ s.
      if str_eq s "first"
      then some (login_of "correct horse")
      else if str_eq s "second"
      then some (login_of "battery staple")
      else none;
  marshal = λ v. some "written";
  decimal = λ n. "9";
}

abbrev eight : Json
eight = array (
    item (text "a") (
      item (text "b") (
        item (text "c") (
          item (text "d")
            (item (text "e") (item (text "f") (item (text "g") (item (text "h") no_items))))))))

logins-Alike : Alike (login_of "correct horse") (login_of "battery staple")
unfolding is_sensitive_log_key
logins-Alike = objects _ _ (shown _ _ _ _ _ (same (text "ann")) (hidden _ _ _ _ _ refl both_closed))

logged_bodies_alike_example : logged_body lib "first" ≡ logged_body lib "second"
logged_bodies_alike_example =
    logged_bodies_alike lib "first" "second" (login_of "correct horse") (login_of "battery staple")
      "written" refl refl refl refl logins-Alike refl refl

truncate_arrays-IsShort_example : IsShort (truncate_arrays lib eight)
truncate_arrays-IsShort_example = truncate_arrays-IsShort lib eight

abbrev refused : Outcome
refused = record {
  error = some (http_error 404 none);
  status = 200;
  committed = false;
  written = "";
}

abbrev asked : LoggedRequest
asked = record { request_uri = "/nowhere"; method = "GET"; body = none }

logged_status_example :
    sent_status (λ e. false) "/nowhere" false (some (http_error 404 none)) 200 false
    ≡ (request_log_line lib (λ s. true) (λ e. "not found") false asked refused "1ms").line_status
logged_status_example =
    logged_status lib (λ s. true) (λ e. "not found") false (λ e. false) asked refused "1ms" false

abbrev blank : RequestContext
blank = record {
  has_logger = false;
  request_id = none;
  trace_id = none;
  span_id = none;
  client_ip = none;
}

request_id_lasts_example :
    (ctx : RequestContext) × (id : String) × (m : ℕ) × (context_middleware
        (λ n k. some [])
        (λ b. "00")
        ""
        "10.0.0.1"
        blank
        0
      ≡ some ((ctx, id), m))
    × Identified (λ n k. some []) (λ b. "00") (λ n k. ([], refl)) "" "10.0.0.1" ctx id
request_id_lasts_example =
    request_id_lasts (λ n k. some []) (λ b. "00") (λ n k. ([], refl)) "" "10.0.0.1" blank 0
