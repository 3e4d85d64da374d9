-- ===== src/RedisScenarios.antt =====
-- A Redis of a few lines, and the theorems of the limiters applied to it.
use poc_hydra_auth.Prelude.{
  ℕ, ◌+◌, ◌≤◌, String, ◌≡◌, refl, ◌∙◌, ap, true, false, Option, none, some, List, [], ◌∷◌, is_none,
  str_eq, if◌then◌else◌, arith, count_where,
}
use text.Mathlib.TextPositions.{eq_refl}
use poc_hydra_auth.Ratelimit.Redis.{
  Redis, IsRedis, Entry, Backend, Link, delivered, alive, value_of, ttl_of, created_entry,
  incremented, expiring, not_sent,
}
use poc_hydra_auth.Exec.{ok}
use poc_hydra_auth.Ratelimit.Limiters.{
  fixed_key, counting_key, fixed_window_allow, counting_window_allow, fail_mode_allow, fail_open,
}
use poc_hydra_auth.Ratelimit.Lockout.{lockout_check}
use poc_hydra_auth.Ratelimit.Settings.{
  registration_limiter, email_verify_limiter, login_lockout, passthrough_hash,
}
use poc_hydra_auth.Ratelimit.Runs.{Call, calls, is_grant}
use poc_hydra_auth.Ratelimit.Windows.Bounds.{
  fixed_window_at_most_once, counting_window_at_most_limit,
}
use poc_hydra_auth.Ratelimit.Lasting.{failures, later, locked_last, lockout_locks}
use poc_hydra_auth.Ratelimit.Outage.{Decides, fail_mode-Decides}

abbrev pub S : Type 0
S = String → Option Entry

abbrev pub put : String → Option Entry → S → S
put key e s other = if str_eq key other then e else s other

abbrev pub redis : Redis S
redis = record {
  get = λ key t s. value_of (alive t (s key));
  pttl = λ key t s. ttl_of t (alive t (s key));
  set_nx_px = λ key ms t s.
      (is_none (alive t (s key)), put key (created_entry (t + ms) (alive t (s key))) s);
  set_px = λ key ms t s. put key (some (record { value = 1; deadline = some (t + ms) })) s;
  incr = λ key t s. let e = incremented (alive t (s key)) in (e.value, put key (some e) s);
  pexpire = λ key ms t s. put key (expiring (t + ms) (alive t (s key))) s;
  del = λ key t s. put key none s;
}

pub ages : (t t' : ℕ) (e : Option Entry) → t ≤ t' → alive t' e ≡ alive t' (alive t e)
ages t t' e h = ground arith

pub same_lem : (key : String) (e : Option Entry) (s : S) → put key e s key ≡ e
same_lem key e s = rw (eq_refl key) refl

pub created_lem :
    (t ms : ℕ) (e : Option Entry)
    → 1 ≤ ms
    → alive t (created_entry (t + ms) (alive t e)) ≡ created_entry (t + ms) (alive t e)
created_lem t ms e h = ground arith

pub incremented_lem :
    (t : ℕ) (e : Option Entry)
    → alive t (some (incremented (alive t e))) ≡ some (incremented (alive t e))
incremented_lem t e = ground arith

pub expiring_lem :
    (t ms : ℕ) (e : Option Entry)
    → 1 ≤ ms
    → alive t (expiring (t + ms) (alive t e)) ≡ expiring (t + ms) (alive t e)
expiring_lem t ms e h = ground arith

pub set_lem :
    (t ms : ℕ)
    → 1 ≤ ms
    → alive t (some (record { value = 1; deadline = some (t + ms) }))
      ≡ some (record { value = 1; deadline = some (t + ms) })
set_lem t ms h = ground arith

pub frame_lem :
    (key other : String) (t : ℕ) (e : Option Entry) (s : S)
    → str_eq key other ≡ false
    → alive t (put key e s other) ≡ alive t (s other)
frame_lem key other t e s h = rw h refl

abbrev pub laws : IsRedis redis
laws = record {
  entry = λ key t s. alive t (s key);
  aging = λ key t t' s h. ages t t' (s key) h;
  get_law = λ key t s. refl;
  pttl_law = λ key t s. refl;
  set_nx_px_law = λ key ms t s h. (
    refl,
    ap (alive t) (same_lem key (created_entry (t + ms) (alive t (s key))) s)
        ∙ created_lem t ms (s key) h,
  );
  set_px_law = λ key ms t s h.
      ap (alive t) (same_lem key (some (record { value = 1; deadline = some (t + ms) })) s)
      ∙ set_lem t ms h;
  incr_law = λ key t s. (
    refl,
    ap (alive t) (same_lem key (some (incremented (alive t (s key)))) s)
        ∙ incremented_lem t (s key),
  );
  pexpire_law = λ key ms t s h.
      ap (alive t) (same_lem key (expiring (t + ms) (alive t (s key))) s)
      ∙ expiring_lem t ms (s key) h;
  del_law = λ key t s. ap (alive t) (same_lem key none s);
  set_nx_px_frame =
      λ key other ms t s h. frame_lem key other t (created_entry (t + ms) (alive t (s key))) s h;
  set_px_frame = λ key other ms t s h.
      frame_lem key other t (some (record { value = 1; deadline = some (t + ms) })) s h;
  incr_frame = λ key other t s h. frame_lem key other t (some (incremented (alive t (s key)))) s h;
  pexpire_frame =
      λ key other ms t s h. frame_lem key other t (expiring (t + ms) (alive t (s key))) s h;
  del_frame = λ key other t s h. frame_lem key other t none s h;
}

abbrev pub backend : Backend S
backend = record { redis = redis; net = λ n. delivered }

abbrev pub empty_link : Link S
empty_link = record { store = λ key. none; draws = 0; clock = 1000; now = 0 }

-- A Redis that holds one count for the key, until the instant 301000.
abbrev counting_link : String → ℕ → Link S
counting_link key n = record empty_link {
  store = put key (some (record { value = n; deadline = some 301000 })) (λ k. none);
}

abbrev after : ℕ → String → Call
after wait key = record { wait = wait; now = 0; key = key }

abbrev three_calls : List Call
three_calls = after 0 "ann" ∷ after 5 "bob" ∷ after 10 "ann" ∷ []

fixed_window_at_most_once_example :
    count_where
      (is_grant (fixed_key registration_limiter) "registration:ratelimit:ann" 301000)
      (calls (fixed_window_allow backend registration_limiter) three_calls empty_link).0
    ≤ 1
fixed_window_at_most_once_example =
    fixed_window_at_most_once backend laws registration_limiter "ann" three_calls empty_link
      (omega arith) refl

counting_window_at_most_limit_example :
    count_where
      (is_grant
        (counting_key (email_verify_limiter passthrough_hash))
        "emailverify:ratelimit:ann"
        61000)
      (calls
        (counting_window_allow backend (email_verify_limiter passthrough_hash))
        three_calls
        empty_link).0
    ≤ 10
counting_window_at_most_limit_example =
    counting_window_at_most_limit backend laws (email_verify_limiter passthrough_hash) "ann"
      three_calls empty_link (omega arith) (omega arith) refl

abbrev nine_waits : List ℕ
nine_waits = 1 ∷ 1 ∷ 1 ∷ 1 ∷ 1 ∷ 1 ∷ 1 ∷ 1 ∷ 1 ∷ []

lockout_locks_example :
    ((failures backend login_lockout "ann" nine_waits empty_link).0 ≡ locked_last nine_waits)
    × ((lockout_check backend login_lockout "ann"
          (later 60000 (failures backend login_lockout "ann" nine_waits empty_link).1)).0
        ≡ ok (record { locked = true; retry_after = 840000000000 }))
lockout_locks_example =
    lockout_locks backend laws login_lockout "ann" (omega arith) (omega arith) (λ n. refl)
      nine_waits 60000 empty_link refl refl (omega arith)

fail_mode-Decides_example :
    Decides
      (fail_mode_allow fail_open
        (fixed_window_allow (record backend { net = λ n. not_sent }) registration_limiter)
        "ann"
        empty_link).0
      true
fail_mode-Decides_example =
    fail_mode-Decides (record backend { net = λ n. not_sent }) laws fail_open registration_limiter
      "ann" (omega arith) empty_link
