-- ===== src/Http/Access.antt =====
-- backend/common/http/jwtauth.go and roleauth.go: who may go on.
use poc_hydra_auth.Prelude.{
  ℕ, String, str_eq, Bool, ◌&&◌, Option, none, some, List, [], ◌∷◌, ltb, any, if◌then◌else◌,
}
use Prim.Native.String.{len, slice}
use poc_hydra_auth.Http.Texts.{equal_fold, trim_space}
use poc_hydra_auth.Http.Problem.{HttpErr, problem_error, new_problem}

-- AuthClaims
pub record AuthClaims : Type 0 where
  pub user_id : String
  pub roles : List String

-- The claims of a token that jwt.Parse accepts: `GetSubject`, none for its error, and the array under
-- "roles", empty for a value of another type, with none for an element that is no text.
pub record MapClaims : Type 0 where
  pub subject : Option String
  pub roles : List (Option String)

-- jwt.Parse under the service's public key, with WithValidMethods RS256 and
-- WithExpirationRequired, at an instant.
abbrev pub JwtParse : Type 0
JwtParse = String → ℕ → Option MapClaims

abbrev pub texts : List (Option String) → List String
texts [] = []
texts (none ∷ rs) = texts rs
texts (some r ∷ rs) = r ∷ texts rs

abbrev pub with_subject : Option String → List (Option String) → Option AuthClaims
with_subject none roles = none
with_subject (some sub) roles =
    if str_eq sub "" then none else some (record { user_id = sub; roles = texts roles })

abbrev pub from_claims : Option MapClaims → Option AuthClaims
from_claims none = none
from_claims (some c) = with_subject c.subject c.roles

-- VerifyAccessToken: none for an error.
unfoldable pub verify_access_token : JwtParse → String → ℕ → Option AuthClaims
verify_access_token parse token now = from_claims (parse token now)

-- The token of an Authorization header, "" when there is none.
unfoldable pub bearer_token : String → String
bearer_token header =
    if ltb 7 (len header) && equal_fold (slice header 0 7) "Bearer "
    then trim_space (slice header 7 (len header))
    else ""

abbrev pub unauthorized : HttpErr
unauthorized = problem_error (new_problem 401 "invalid-token" "アクセストークンが無効です")

-- The claims that JWTAuth lets through; without any, it answers `unauthorized` with a challenge.
unfoldable pub authenticated : JwtParse → String → ℕ → Option AuthClaims
unfolding bearer_token verify_access_token
authenticated parse header now =
    let token = bearer_token header in
    if str_eq token "" then none else verify_access_token parse token now

abbrev pub forbidden : HttpErr
forbidden = problem_error (new_problem 403 "forbidden" "この操作を行う権限がありません")

-- Whether RequireRoles goes on: one of the roles is one of those required.
unfoldable pub has_required_role : List String → List String → Bool
has_required_role required roles = any (λ have. any (str_eq have) required) roles
