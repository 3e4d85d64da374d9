-- ===== src/Startup/Key.antt =====
-- ParseRSAPrivateKeyPEM of backend/auth/domain/token.go and loadJWTSigningKey of
-- backend/cmd/auth/main.go, with encoding/pem, crypto/x509 and the file system as parameters.
use poc_hydra_auth.Prelude.{String, str_eq, Option, none, some, if◌then◌else◌}
use poc_hydra_auth.Errors.{sentinel, other, service_error, wrapped}
use poc_hydra_auth.Exec.{Result, ok, err}

pub record KeyLibrary (Key : Type 0) : Type 0 where
  -- os.ReadFile
  pub read_file : String → Option String
  -- pem.Decode
  pub pem_decode : String → Option String
  -- x509.ParsePKCS1PrivateKey
  pub parse_pkcs1 : String → Option Key
  -- x509.ParsePKCS8PrivateKey: the inner option is none for a key that is not RSA
  pub parse_pkcs8 : String → Option (Option Key)

module _ {Key : Type 0} (lib : KeyLibrary Key) where
  abbrev pub pkcs8_key : Option (Option Key) → Result Key
  pkcs8_key none = err (wrapped "could not parse RSA private key (PKCS1/PKCS8)" service_error)
  pkcs8_key (some none) = err (sentinel (other "JWT private key is not RSA"))
  pkcs8_key (some (some key)) = ok key

  abbrev pub pkcs1_key : String → Option Key → Result Key
  pkcs1_key block none = pkcs8_key (lib.parse_pkcs8 block)
  pkcs1_key block (some key) = ok key

  abbrev pub block_key : Option String → Result Key
  block_key none = err (sentinel (other "no PEM block found in JWT private key"))
  block_key (some block) = pkcs1_key block (lib.parse_pkcs1 block)

  -- ParseRSAPrivateKeyPEM
  unfoldable pub parse_rsa_private_key_pem : String → Result Key
  parse_rsa_private_key_pem bytes = block_key (lib.pem_decode bytes)

  abbrev pub file_key : Option String → Result Key
  unfolding parse_rsa_private_key_pem
  file_key none = err (wrapped "could not read JWT private key" service_error)
  file_key (some bytes) = parse_rsa_private_key_pem bytes

  -- loadJWTSigningKey
  unfoldable pub load_jwt_signing_key : String → Result Key
  unfolding file_key
  load_jwt_signing_key path =
      if str_eq path ""
      then err (sentinel (other "JWT_PRIVATE_KEY_PATH is not set"))
      else file_key (lib.read_file path)
