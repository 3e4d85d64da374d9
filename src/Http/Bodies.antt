-- ===== src/Http/Bodies.antt =====
-- The bodies in the request log: redaction of backend/common/http/requestlog.go and truncation of
-- backend/common/http/truncate.go. Numbers stay as they were written.
pub mod Redaction
pub mod Sizes
use poc_hydra_auth.Prelude.{
  ℕ, zero, suc, ◌+◌, ◌-◌, ◌*◌, String, join, str_eq, Bool, true, false, ◌||◌, Option, none, some,
  List, [], ◌∷◌, leb, any, if◌then◌else◌,
}
use Prim.Native.String.{len, slice}
use poc_hydra_auth.Http.Texts.{contains_folded}

-- What json.Unmarshal into `any` gives.
mutual
  pub data Json : Type 0 where
    null : Json
    flag : Bool → Json
    number : String → Json
    text : String → Json
    array : Items → Json
    object : Members → Json

  pub data Items : Type 0 where
    no_items : Items
    item : Json → Items → Items

  pub data Members : Type 0 where
    no_members : Members
    member : String → Json → Members → Members

-- json.Unmarshal, json.Marshal and the decimal numbers of fmt.Sprintf.
pub record JsonLibrary : Type 0 where
  pub unmarshal : String → Option Json
  pub marshal : Json → Option String
  pub decimal : ℕ → String

-- sensitiveLogKeyParts
abbrev pub sensitive_log_key_parts : List String
sensitive_log_key_parts = "password" ∷ "token" ∷ "secret" ∷ "email" ∷ []

-- isSensitiveLogKey
unfoldable pub is_sensitive_log_key : String → Bool
is_sensitive_log_key key = any (contains_folded key) sensitive_log_key_parts

abbrev pub redacted : Json
redacted = text "[REDACTED]"

-- redactValues
unfoldable mutual
  pub redact_values : Json → Json
  redact_values null = null
  redact_values (flag b) = flag b
  redact_values (number n) = number n
  redact_values (text s) = text s
  redact_values (array xs) = array (redact_items xs)
  redact_values (object ms) = object (redact_members ms)

  pub redact_items : Items → Items
  redact_items no_items = no_items
  redact_items (item x xs) = item (redact_values x) (redact_items xs)

  pub redact_members : Members → Members
  redact_members no_members = no_members
  redact_members (member key v ms) =
      member key (if is_sensitive_log_key key then redacted else redact_values v)
        (redact_members ms)

abbrev pub item_count : Items → ℕ
item_count no_items = 0
item_count (item x xs) = suc (item_count xs)

abbrev pub max_array_log_items : ℕ
max_array_log_items = 6

abbrev pub max_body_log_bytes : ℕ
max_body_log_bytes = 512

abbrev pub last_item : Items → Items
last_item no_items = no_items
last_item (item x no_items) = item x no_items
last_item (item x (item y ys)) = last_item (item y ys)

-- The first items, and then others.
abbrev pub head_items : ℕ → Items → Items → Items
head_items zero xs after = after
head_items (suc n) no_items after = after
head_items (suc n) (item x xs) after = item x (head_items n xs after)

abbrev pub out_or : Option String → String → String
out_or none note = note
out_or (some out) note = out

module _ (lib : JsonLibrary) where
  abbrev pub non_json : String → String
  non_json body = join "<non-json body (" (join (lib.decimal (len body)) " bytes)>")

  abbrev pub written : String → Json → String
  written body v = out_or (lib.marshal (redact_values v)) (non_json body)

  -- The switch of redactBodyForLog on what was parsed.
  abbrev pub redacted_text : String → Option Json → String
  redacted_text body none = non_json body
  redacted_text body (some (array xs)) = written body (array xs)
  redacted_text body (some (object ms)) = written body (object ms)
  redacted_text body (some _) = non_json body

  -- redactBodyForLog
  unfoldable pub redact_body_for_log : String → String
  unfolding redact_values
  redact_body_for_log body = if str_eq body "" then "" else redacted_text body (lib.unmarshal body)

  abbrev pub marker : ℕ → Json
  marker n = object (member "..." (text (join (lib.decimal n) " items truncated")) no_members)

  -- An array of more than six items, cut to the first five, a marker and the last.
  abbrev pub shortened : Items → Items
  shortened xs =
      if leb (item_count xs) max_array_log_items
      then xs
      else head_items (max_array_log_items - 1) xs
          (item (marker (item_count xs - max_array_log_items)) (last_item xs))

  -- truncateArrays
  unfoldable mutual
    pub truncate_arrays : Json → Json
    truncate_arrays null = null
    truncate_arrays (flag b) = flag b
    truncate_arrays (number n) = number n
    truncate_arrays (text s) = text s
    truncate_arrays (array xs) = array (shortened (truncate_items xs))
    truncate_arrays (object ms) = object (truncate_members ms)

    pub truncate_items : Items → Items
    truncate_items no_items = no_items
    truncate_items (item x xs) = item (truncate_arrays x) (truncate_items xs)

    pub truncate_members : Members → Members
    truncate_members no_members = no_members
    truncate_members (member key v ms) = member key (truncate_arrays v) (truncate_members ms)

  -- headTailTruncate, less the bytes of a character that a cut would split.
  unfoldable pub head_tail_truncate : String → String
  head_tail_truncate body = join (slice body 0 256) (
      join " ... (" (
        join (lib.decimal (len body - 512))
          (join " bytes truncated) ... " (slice body (len body - 256) (len body)))))

  abbrev pub truncated_text : String → Option Json → String
  truncated_text body none = head_tail_truncate body
  truncated_text body (some v) = out_or (lib.marshal (truncate_arrays v)) (head_tail_truncate body)

  -- truncateBodyForLog
  unfoldable pub truncate_body_for_log : String → String
  unfolding truncate_arrays head_tail_truncate
  truncate_body_for_log body =
      if str_eq body ""
      then ""
      else if leb (len body) max_body_log_bytes
      then body
      else truncated_text body (lib.unmarshal body)

  -- The request's body as requestLogMiddleware writes it.
  unfoldable pub logged_body : String → String
  logged_body body = truncate_body_for_log (redact_body_for_log body)
