-- ===== src/Http/Tokens.antt =====
-- The access token that the service issues, in its own middleware.
use poc_hydra_auth.Prelude.{
  ℕ, ◌+◌, String, str_eq, ◌≡◌, refl, ◌∙◌, ap, false, none, some, List, [], ◌∷◌, map, ltb,
  if◌then◌else◌, inl, inr, Bool-cases,
}
use poc_hydra_auth.Domain.Library.{Library, Claims}
use poc_hydra_auth.Domain.Token.{generate_access_token, unix}
use poc_hydra_auth.Http.Access.{JwtParse, verify_access_token, from_claims, texts}

-- The documented agreement of the two halves of the JWT library on one set of claims: jwt.Parse
-- under the public key takes what SignedString made under the private key, and gives the claims
-- back, at each instant before `exp`, and refuses it from then on.
pub record Agree (lib : Library) (parse : JwtParse) (c : Claims) : Type 0 where
  pub parses :
      (token : String) (now : ℕ)
      → lib.sign_rs256 c ≡ some token
      → parse token now ≡ (
          if ltb (unix now) c.exp
          then some (record { subject = some c.sub; roles = map some c.roles })
          else none)

texts_lem : (roles : List String) → texts (map some roles) ≡ roles
texts_lem [] = refl
texts_lem (r ∷ rs) = ap (λ a. r ∷ a) (texts_lem rs)

-- The claims of an access token.
abbrev pub access_claims : String → List String → ℕ → ℕ → Claims
access_claims user_id roles ttl at = record {
  sub = user_id;
  roles = roles;
  iat = unix at;
  exp = unix (at + ttl);
}

module _ (lib : Library) (parse : JwtParse) (user_id : String) (roles : List String)
    (ttl at : ℕ) where
  -- With the JWT library as documented, for a user whose name is not empty: the token that
  -- GenerateAccessToken made is verified to the same user and the same roles in the same order as
  -- long as the whole seconds of the time have not reached those of its issue and its lifetime
  -- together, and from then on it is refused.
  pub access_token_round_trip :
      (token : String) (now : ℕ)
      → Agree lib parse (access_claims user_id roles ttl at)
      → str_eq user_id "" ≡ false
      → generate_access_token lib user_id roles ttl at ≡ some token
      → verify_access_token parse token now ≡ (
          if ltb (unix now) (unix (at + ttl))
          then some (record { user_id = user_id; roles = roles })
          else none)
  unfolding generate_access_token verify_access_token
  access_token_round_trip token now agree named h =
      ap from_claims (agree.parses token now h)
      ∙ elim (Bool-cases (ltb (unix now) (unix (at + ttl)))) [
        | inl e ↦
            rw (e, named)
              (ap (λ rs. some (record { user_id = user_id; roles = rs })) (texts_lem roles))
        | inr e ↦ rw e refl
      ]
