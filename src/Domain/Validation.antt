-- ===== src/Domain/Validation.antt =====
-- ValidateEmail and ValidatePassword of registration.go.
use Prim.Native.String.{len, count}
use poc_hydra_auth.Prelude.{
  ℕ, String, Bool, true, ◌||◌, Option, none, some, not, ltb, str_eq, if◌then◌else◌,
}
use poc_hydra_auth.Errors.{sentinel, invalid_email, invalid_password}
use poc_hydra_auth.Exec.{Result, ok, err}
use poc_hydra_auth.Domain.Library.{Library}

abbrev pub email_max_length : ℕ
email_max_length = 254

abbrev pub password_min_length : ℕ
password_min_length = 15

abbrev pub password_max_length : ℕ
password_max_length = 64

abbrev pub password_max_bytes : ℕ
password_max_bytes = 72

-- `err != nil || addr.Address != email`
abbrev address_differs : Option String → String → Bool
address_differs none email = true
address_differs (some address) email = not (str_eq address email)

-- `len` counts bytes.
unfoldable pub validate_email : Library → String → Result (Unit {0})
validate_email lib email =
    if str_eq email "" || ltb email_max_length (len email)
    then err (sentinel invalid_email)
    else if address_differs (lib.parse_address email) email
    then err (sentinel invalid_email)
    else ok tt

-- `count` counts runes and `len` bytes.
unfoldable pub validate_password : String → Result (Unit {0})
validate_password password =
    if ltb (count password) password_min_length || ltb password_max_length (count password)
    then err (sentinel invalid_password)
    else if ltb password_max_bytes (len password)
    then err (sentinel invalid_password)
    else ok tt
