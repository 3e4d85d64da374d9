-- ===== src/Http/Bodies/Redaction.antt =====
-- What the log shows of a body does not depend on the values under sensitive keys.
use poc_hydra_auth.Prelude.{String, ◌≡◌, refl, sym, ap, ◌∙◌, Bool, true, false, some, str_eq}
use poc_hydra_auth.Http.Bodies.{
  Json, null, flag, number, text, array, object, Items, no_items, item, Members, no_members, member,
  JsonLibrary, is_sensitive_log_key, redact_values, redact_items, redact_members,
  redact_body_for_log, logged_body, redacted_text, truncate_body_for_log, non_json, out_or,
}

-- Two values that differ at most under sensitive keys.
mutual
  pub data Alike : Json → Json → Type 0 where
    same : (v : Json) → Alike v v
    arrays : (xs ys : Items) → AlikeItems xs ys → Alike (array xs) (array ys)
    objects : (ms ns : Members) → AlikeMembers ms ns → Alike (object ms) (object ns)

  pub data AlikeItems : Items → Items → Type 0 where
    both_empty : AlikeItems no_items no_items
    both_items :
        (x y : Json) (xs ys : Items)
        → Alike x y
        → AlikeItems xs ys
        → AlikeItems (item x xs) (item y ys)

  pub data AlikeMembers : Members → Members → Type 0 where
    both_closed : AlikeMembers no_members no_members
    shown :
        (key : String) (v v' : Json) (ms ns : Members)
        → Alike v v'
        → AlikeMembers ms ns
        → AlikeMembers (member key v ms) (member key v' ns)
    hidden :
        (key : String) (v v' : Json) (ms ns : Members)
        → is_sensitive_log_key key ≡ true
        → AlikeMembers ms ns
        → AlikeMembers (member key v ms) (member key v' ns)

mutual
  unfolding redact_values

  redact-Alike : (a b : Json) → Alike a b → redact_values a ≡ redact_values b
  redact-Alike _ _ (same v) = refl
  redact-Alike _ _ (arrays xs ys h) = ap array (redact-AlikeItems xs ys h)
  redact-Alike _ _ (objects ms ns h) = ap object (redact-AlikeMembers ms ns h)

  redact-AlikeItems : (xs ys : Items) → AlikeItems xs ys → redact_items xs ≡ redact_items ys
  redact-AlikeItems _ _ both_empty = refl
  redact-AlikeItems _ _ (both_items x y xs ys h k) =
      rw (redact-Alike x y h, redact-AlikeItems xs ys k) refl

  redact-AlikeMembers :
      (ms ns : Members) → AlikeMembers ms ns → redact_members ms ≡ redact_members ns
  redact-AlikeMembers _ _ both_closed = refl
  redact-AlikeMembers _ _ (shown key v v' ms ns h k) =
      rw (redact-Alike v v' h, redact-AlikeMembers ms ns k) refl
  redact-AlikeMembers _ _ (hidden key v v' ms ns h k) = rw (h, redact-AlikeMembers ms ns k) refl

abbrev pub is_container : Json → Bool
is_container (array xs) = true
is_container (object ms) = true
is_container _ = false

container_lem : (a b : Json) → Alike a b → is_container a ≡ true → is_container b ≡ true
container_lem _ _ (same v) h = h
container_lem _ _ (arrays xs ys k) h = refl
container_lem _ _ (objects ms ns k) h = refl

module _ (lib : JsonLibrary) where
  text_lem :
      (body : String) (v : Json) (out : String)
      → is_container v ≡ true
      → lib.marshal (redact_values v) ≡ some out
      → redacted_text lib body (some v) ≡ out
  text_lem body null out h k = cc h
  text_lem body (flag b) out h k = cc h
  text_lem body (number n) out h k = cc h
  text_lem body (text s) out h k = cc h
  text_lem body (array xs) out h k = ap (λ o. out_or o (non_json lib body)) k
  text_lem body (object ms) out h k = ap (λ o. out_or o (non_json lib body)) k

  redacted_lem :
      (body : String) (v : Json) (out : String)
      → str_eq body "" ≡ false
      → lib.unmarshal body ≡ some v
      → is_container v ≡ true
      → lib.marshal (redact_values v) ≡ some out
      → redact_body_for_log lib body ≡ out
  unfolding redact_body_for_log
  redacted_lem body v out e p h k = rw (e, p) (text_lem body v out h k)

  -- Two request bodies that are not empty and parse to arrays or objects which differ at most in the
  -- values under sensitive keys, at any depth, are logged by the same text, where json.Marshal
  -- writes what is left of the first.
  pub logged_bodies_alike :
      (x y : String) (a b : Json) (out : String)
      → str_eq x "" ≡ false
      → str_eq y "" ≡ false
      → lib.unmarshal x ≡ some a
      → lib.unmarshal y ≡ some b
      → Alike a b
      → is_container a ≡ true
      → lib.marshal (redact_values a) ≡ some out
      → logged_body lib x ≡ logged_body lib y
  unfolding logged_body
  logged_bodies_alike x y a b out ex ey p q alike h k = ap (truncate_body_for_log lib) (
      redacted_lem x a out ex p h k
      ∙ sym (
          redacted_lem y b out ey q (container_lem a b alike h)
            (ap lib.marshal (sym (redact-Alike a b alike)) ∙ k)))
