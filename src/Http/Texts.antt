-- ===== src/Http/Texts.antt =====
-- strings.EqualFold, strings.TrimSpace and http.StatusText as backend/common/http uses them.
use Prim.Native.Nat.{ℕ, ◌+◌}
use Prim.Native.Char.{code}
use Prim.Native.String.{String, [], ◌∷◌}
use mathlib.Core.Bool.{Bool, true, false, ◌&&◌, ◌||◌}
use poc_hydra_auth.Prelude.{◌==◌, leb, if◌then◌else◌}

abbrev fold : ℕ → ℕ
fold n = if leb 65 n && leb n 90 then n + 32 else n

-- strings.EqualFold, for texts one of which holds ASCII characters only, and neither k nor s.
abbrev pub equal_fold : String → String → Bool
equal_fold [] [] = true
equal_fold [] (d ∷ t) = false
equal_fold (c ∷ s) [] = false
equal_fold (c ∷ s) (d ∷ t) = fold (code c) == fold (code d) && equal_fold s t

-- unicode.IsSpace
abbrev is_space : ℕ → Bool
is_space n =
    leb 9 n && leb n 13
    || (n == 32
        || (n == 133
            || (n == 160
                || (n == 5760
                    || (leb 8192 n && leb n 8202
                        || (n == 8232
                            || (n == 8233 || (n == 8239 || (n == 8287 || n == 12288)))))))))

abbrev trim_left : String → String
trim_left [] = []
trim_left (c ∷ s) = let rest = trim_left s in if is_space (code c) then rest else c ∷ s

abbrev is_nothing : String → Bool
is_nothing [] = true
is_nothing (c ∷ s) = false

abbrev trim_right : String → String
trim_right [] = []
trim_right (c ∷ s) =
    let rest = trim_right s in if is_nothing rest && is_space (code c) then [] else c ∷ rest

-- strings.TrimSpace
abbrev pub trim_space : String → String
trim_space s = trim_right (trim_left s)

-- http.StatusText, for the statuses of the service and of echo's own errors.
abbrev pub status_text : ℕ → String
status_text n =
    if n == 400
    then "Bad Request"
    else if n == 401
    then "Unauthorized"
    else if n == 403
    then "Forbidden"
    else if n == 404
    then "Not Found"
    else if n == 405
    then "Method Not Allowed"
    else if n == 409
    then "Conflict"
    else if n == 413
    then "Request Entity Too Large"
    else if n == 415
    then "Unsupported Media Type"
    else if n == 429
    then "Too Many Requests"
    else if n == 500
    then "Internal Server Error"
    else if n == 503
    then "Service Unavailable"
    else ""

-- strings.ToLower on one character, where the result is an ASCII character: of the others, the
-- Kelvin sign and the dotted capital I have one.
abbrev lower : ℕ → ℕ
lower n = if n == 8490 then 107 else if n == 304 then 105 else fold n

abbrev has_prefix_folded : String → String → Bool
has_prefix_folded s [] = true
has_prefix_folded [] (d ∷ t) = false
has_prefix_folded (c ∷ s) (d ∷ t) = lower (code c) == code d && has_prefix_folded s t

-- strings.Contains(strings.ToLower(s), part), for a part of lower-case ASCII letters.
abbrev pub contains_folded : String → String → Bool
contains_folded [] part = has_prefix_folded [] part
contains_folded (c ∷ s) part = has_prefix_folded (c ∷ s) part || contains_folded s part
