-- ===== src/Domain/Library.antt =====
-- What backend/auth calls of Go's standard library and of third-party packages, with no state:
-- the parameters of the model. Each field names the call that it stands for.
use poc_hydra_auth.Prelude.{ℕ, String, Bool, Option, List}

-- The claims of `domain.GenerateAccessToken`, in the order of the map there.
pub record Claims : Type 0 where
  pub sub : String
  pub roles : List String
  pub iat : ℕ
  pub exp : ℕ

pub record Library : Type 0 where
  -- mail.ParseAddress, and the address that it finds
  pub parse_address : String → Option String
  -- sha256.Sum256, then hex.EncodeToString
  pub sha256_hex : String → String
  -- base64.RawURLEncoding.EncodeToString
  pub base64_raw_url : List ℕ → String
  -- bcrypt.CompareHashAndPassword, hash first; true for a nil error
  pub compare_hash_and_password : String → String → Bool
  -- uuid.Parse and UUID.String
  pub uuid_parse : String → Option ℕ
  pub uuid_string : ℕ → String
  -- jwt.NewWithClaims with RS256, then SignedString under the service's key
  pub sign_rs256 : Claims → Option String
