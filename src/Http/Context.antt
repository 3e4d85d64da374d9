-- ===== src/Http/Context.antt =====
-- contextMiddleware of backend/common/http/echo.go, backend/common/log/correlation.go and the
-- contextHandler of backend/common/log/log.go: what identifies a request in the log. rand.Read and
-- hex.EncodeToString are parameters; a failure of rand.Read is a panic.
use poc_hydra_auth.Prelude.{
  ℕ, suc, String, join, str_eq, ◌≡◌, refl, ap, ◌∙◌, Bool, true, false, Option, none, some, List,
  if◌then◌else◌, inl, inr, Bool-cases, arith, begun_text,
}

-- The values that the code puts into a context.Context.
pub record RequestContext : Type 0 where
  pub has_logger : Bool
  pub request_id : Option String
  pub trace_id : Option String
  pub span_id : Option String
  pub client_ip : Option String

-- Draws of random bytes, one after another; none stands for the panic of randomHex.
abbrev pub Fresh : Type 0 → Type 0
Fresh A = ℕ → Option (A × ℕ)

infixl 10 ◌>>=◌
abbrev ◌>>=◌ : {A B : Type 0} → Fresh A → (A → Fresh B) → Fresh B
◌>>=◌ m f n = elim (m n) [ none ↦ none | some (a, n') ↦ f a n' ]

abbrev pure : {A : Type 0} → A → Fresh A
pure a n = some (a, n)

bind_some :
    {A B : Type 0} (m : Fresh A) (f : A → Fresh B) {n n' : ℕ} {a : A}
    → m n ≡ some (a, n')
    → (m >>= f) n ≡ f a n'
bind_some m f h = rw (h, ◌>>=◌) refl

-- v, _ := ctx.Value(key).(string)
abbrev pub or_blank : Option String → String
or_blank none = ""
or_blank (some s) = s

-- TraceIDFromContext, SpanIDFromContext and ClientIPFromContext
abbrev pub trace_id_from_context : RequestContext → String
trace_id_from_context c = or_blank c.trace_id

abbrev pub span_id_from_context : RequestContext → String
span_id_from_context c = or_blank c.span_id

abbrev pub client_ip_from_context : RequestContext → String
client_ip_from_context c = or_blank c.client_ip

-- ContextWithRequestID and ContextWithTrace
abbrev pub context_with_request_id : RequestContext → String → RequestContext
context_with_request_id c id = record c { request_id = some id }

abbrev pub context_with_trace : RequestContext → String → String → RequestContext
context_with_trace c trace span = record c { trace_id = some trace; span_id = some span }

-- What contextHandler adds to each record.
pub record Identity : Type 0 where
  pub record_trace_id : String
  pub record_span_id : String
  pub record_request_id : String

module _ (rand : ℕ → ℕ → Option (List ℕ)) (hex : List ℕ → String) where
  abbrev encoded : Option (List ℕ) → Fresh String
  encoded none n = none
  encoded (some b) n = some (hex b, suc n)

  -- randomHex
  unfoldable pub random_hex : ℕ → Fresh String
  random_hex bytes n = encoded (rand n bytes) n

  -- NewTraceID and NewSpanID
  abbrev pub new_trace_id : Fresh String
  new_trace_id = random_hex 16

  abbrev pub new_span_id : Fresh String
  new_span_id = random_hex 8

  -- RequestIDFromContext: without an id, one is made up.
  abbrev pub id_or_generated : String → Fresh String
  id_or_generated id =
      if str_eq id "" then (random_hex 8 >>= λ h. pure (join "gen_" h)) else pure id

  unfoldable pub request_id_from_context : RequestContext → Fresh String
  request_id_from_context c = id_or_generated (or_blank c.request_id)

  -- contextHandler.Handle
  unfoldable pub handle_record : RequestContext → Fresh Identity
  handle_record c = request_id_from_context c >>= λ id. pure (record {
    record_trace_id = trace_id_from_context c;
    record_span_id = span_id_from_context c;
    record_request_id = id;
  })

  -- contextMiddleware: the context of the request and the X-Request-Id of the response, from that of
  -- the request, "" if it has none, and the address of the client.
  unfoldable pub context_middleware :
      String → String → RequestContext → Fresh (RequestContext × String)
  context_middleware header real_ip c =
      (if str_eq header "" then request_id_from_context c else pure header) >>= λ id.
      new_trace_id >>= λ trace. new_span_id >>= λ span.
      let ctx : RequestContext =
        record (context_with_trace (context_with_request_id (record c { has_logger = true }) id)
          trace span) { client_ip = some real_ip } in
      request_id_from_context ctx >>= λ echoed. pure (ctx, echoed)

  abbrev request_context : RequestContext → String → String → String → String → RequestContext
  request_context c id trace span real_ip =
      record (context_with_trace (context_with_request_id (record c { has_logger = true }) id) trace
        span) { client_ip = some real_ip }

  module _ (drawn : (n bytes : ℕ) → (b : List ℕ) × (rand n bytes ≡ some b)) where
    random_hex_lem : (bytes n : ℕ) → random_hex bytes n ≡ some (hex (drawn n bytes).0, suc n)
    unfolding random_hex
    random_hex_lem bytes n = ap (λ o. encoded o n) (drawn n bytes).1

    named_lem : (id : String) (n : ℕ) → str_eq id "" ≡ false → id_or_generated id n ≡ some (id, n)
    named_lem id n h = rw h refl

    some_id :
        (id : String) (n : ℕ)
        → (x : String) × (m : ℕ) × (id_or_generated id n ≡ some (x, m)) × (str_eq x "" ≡ false)
    some_id id n = elim (Bool-cases (str_eq id "")) [
      | inl e ↦ (
        join "gen_" (hex (drawn n 8).0),
        suc n,
        rw e (bind_some (random_hex 8) (λ h. pure (join "gen_" h)) (random_hex_lem 8 n)),
        begun_text "gen_" (hex (drawn n 8).0) (omega arith),
      )
      | inr e ↦ (id, n, named_lem id n e, e)
    ]

    chosen :
        (header : String) (c : RequestContext) (n : ℕ)
        → (x : String) × (m : ℕ) × ((if str_eq header ""
                then request_id_from_context c
                else pure header)
              n
            ≡ some (x, m))
          × (str_eq x "" ≡ false)
          × (str_eq header "" ≡ false → x ≡ header)
    unfolding request_id_from_context
    chosen header c n = elim (Bool-cases (str_eq header "")) [
      | inl e ↦
          let (x, m, p, q) = some_id (or_blank c.request_id) n in
          (x, m, rw e p, q, λ h. absurd (cc))
      | inr e ↦ (header, n, rw e refl, e, λ h. refl)
    ]

    -- What the middleware has settled for a request.
    pub record Identified (header real_ip : String) (ctx : RequestContext) (id : String)
        : Type 0 where
      pub held : ctx.request_id ≡ some id
      pub not_blank : str_eq id "" ≡ false
      pub asked : str_eq header "" ≡ false → id ≡ header
      pub caller : client_ip_from_context ctx ≡ real_ip
      pub logged :
          (m : ℕ)
          → handle_record ctx m
            ≡ some (
              record {
                record_trace_id = trace_id_from_context ctx;
                record_span_id = span_id_from_context ctx;
                record_request_id = id;
              },
              m,
            )

    -- While rand.Read does not fail: contextMiddleware settles on one request id, not empty, which is
    -- the X-Request-Id of the request when it has one; the response carries it, and so does every
    -- record that is logged with the context it hands on, whenever, with no other id being made up.
    pub request_id_lasts :
        (header real_ip : String) (c : RequestContext) (n : ℕ)
        → (ctx : RequestContext) × (id : String) × (m : ℕ) × (context_middleware header real_ip c n
            ≡ some ((ctx, id), m))
          × Identified header real_ip ctx id
    unfolding context_middleware request_id_from_context handle_record
    request_id_lasts header real_ip c n =
        let (id, m, p, q, r) = chosen header c n in
        let trace = hex (drawn m 16).0 in
        let span = hex (drawn (suc m) 8).0 in
        (
          request_context c id trace span real_ip,
          id,
          suc (suc m),
          bind_some (if str_eq header "" then request_id_from_context c else pure header) _ p
              ∙ bind_some new_trace_id _ (random_hex_lem 16 m)
              ∙ bind_some new_span_id _ (random_hex_lem 8 (suc m))
              ∙ bind_some (id_or_generated id) _ (named_lem id (suc (suc m)) q),
          record { held = refl; not_blank = q; asked = r; caller = refl; logged = λ k. rw q refl },
        )
