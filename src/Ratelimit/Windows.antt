-- ===== src/Ratelimit/Windows.antt =====
-- What the two limiters have in common: a window opens at the first grant, a refusal does not move
-- its end, and it holds so many grants at most.
pub mod Scripted
pub mod Fixed
pub mod Entries
pub mod Counting
pub mod Bounds
use poc_hydra_auth.Prelude.{
  ℕ, suc, ◌+◌, ◌≤◌, ◌<◌, String, ◌≡◌, refl, sym, subst, ◌∙◌, ap, ◌⊎◌, inl, inr, Bool, true, false,
  ◌&&◌, Option, none, some, List, [], ◌∷◌, leb, ltb, str_eq, if◌then◌else◌, count_where, arith,
  Bool-cases,
}
use text.Mathlib.TextEquality.{eq_iff}
use poc_hydra_auth.Exec.{Exec, Result, ok, err}
use poc_hydra_auth.Ratelimit.Redis.{Backend, IsRedis, Link, Entry, Net, delivered, alive}
use poc_hydra_auth.Ratelimit.Limiters.{LimitResult}
use poc_hydra_auth.Ratelimit.Runs.{Call, Reply, waited, is_allowed, calls, replied, is_grant}

-- At least `n` grants are counted until `d`, or there was none.
pub data Used (d n : ℕ) : Option Entry → Type 0 where
  unused : {e : Option Entry} → n ≡ 0 → e ≡ none → Used d n e
  counted_until :
      {e : Option Entry} (v d' : ℕ)
      → e ≡ some (record { value = v; deadline = some d' })
      → d ≤ d'
      → n ≤ v
      → Used d n e

pub data Open (d : ℕ) : Option Entry → Type 0 where
  open_until :
      {e : Option Entry} (v : ℕ)
      → 1 ≤ v
      → e ≡ some (record { value = v; deadline = some d })
      → Open d e

abbrev pub grant : Result LimitResult → ℕ
grant r = if is_allowed r then 1 else 0

abbrev gained : (String → String) → String → String → Result LimitResult → ℕ
gained redis_key at key r = if str_eq (redis_key key) at then grant r else 0

pub record Windows {S : Type 0} (b : Backend S) (laws : IsRedis b.redis) (window limit : ℕ)
    (redis_key : String → String) (allow : String → Exec (Link S) LimitResult) : Type 0 where
  pub same_clock : (key : String) (w : Link S) → (allow key w).1.clock ≡ w.clock
  pub elsewhere :
      (key other : String) (w : Link S)
      → str_eq (redis_key key) other ≡ false
      → laws.entry other w.clock (allow key w).1.store ≡ laws.entry other w.clock w.store
  pub counts :
      (key : String) (d n : ℕ) (w : Link S)
      → d ≤ w.clock + window
      → n ≤ limit
      → Used d n (laws.entry (redis_key key) w.clock w.store)
      → Used d
          (n + grant (allow key w).0)
          (laws.entry (redis_key key) w.clock (allow key w).1.store)
        × n + grant (allow key w).0 ≤ limit
  pub stays_open :
      (key : String) (d : ℕ) (w : Link S)
      → Open d (laws.entry (redis_key key) w.clock w.store)
      → Open d (laws.entry (redis_key key) w.clock (allow key w).1.store)
  pub admits :
      (key : String) (w : Link S)
      → b.net w.draws ≡ delivered
      → laws.entry (redis_key key) w.clock w.store ≡ none
      → is_allowed (allow key w).0 ≡ true

-- An entry that has not reached its deadline is still there.
alive_lem :
    (t d v : ℕ)
    → t < d
    → alive t (some (record { value = v; deadline = some d }))
      ≡ some (record { value = v; deadline = some d })
alive_lem t d v h = ground arith

ended_lem : (t d v : ℕ) → d < t → alive t (some (record { value = v; deadline = some d })) ≡ none
ended_lem t d v h = ground arith

module _ {S : Type 0} (b : Backend S) (laws : IsRedis b.redis) (window limit : ℕ)
    (redis_key : String → String) (allow : String → Exec (Link S) LimitResult)
    (windows : Windows b laws window limit redis_key allow) where
  aged :
      (at : String) (c : Call) (w : Link S)
      → laws.entry at (w.clock + c.wait) w.store
        ≡ alive (w.clock + c.wait) (laws.entry at w.clock w.store)
  aged at c w = laws.aging at w.clock (w.clock + c.wait) w.store (omega arith)

  Used-alive : (d n t : ℕ) (e : Option Entry) → t < d → Used d n e → Used d n (alive t e)
  Used-alive d n t e h (unused p q) = unused p (ap (alive t) q)
  Used-alive d n t e h (counted_until v d' p q r) =
      counted_until v d' (ap (alive t) p ∙ alive_lem t d' v (omega arith)) q r

  Open-alive : (d t : ℕ) (e : Option Entry) → t < d → Open d e → Open d (alive t e)
  Open-alive d t e h (open_until v k p) = open_until v k (ap (alive t) p ∙ alive_lem t d v h)

  late_lem :
      (d : ℕ) (at : String) (cs : List Call) (w : Link S)
      → d ≤ w.clock
      → count_where (is_grant redis_key at d) (calls allow cs w).0 ≡ 0
  late_lem d at [] w h = refl
  late_lem d at (c ∷ cs) w h =
      let k = windows.same_clock c.key (waited c w) in
      let ih = late_lem d at cs (allow c.key (waited c w)).1 (omega (arith, k)) in
      ground (arith, ih)

  -- One call before the window's end.
  step_lem :
      (d n : ℕ) (at : String) (c : Call) (w : Link S)
      → d ≤ w.clock + window
      → w.clock + c.wait < d
      → n ≤ limit
      → Used d n (laws.entry at w.clock w.store)
      → let r = allow c.key (waited c w) in
        Used d (n + gained redis_key at c.key r.0) (laws.entry at (w.clock + c.wait) r.1.store)
        × n + gained redis_key at c.key r.0 ≤ limit
  step_lem d n at c w h before k u =
      let v = subst (Used d n) (sym (aged at c w)) (Used-alive d n _ _ before u) in
      elim (Bool-cases (str_eq (redis_key c.key) at)) [
        | inl e ↦
            let p = (eq_iff (redis_key c.key) at).0 e in
            let used =
              windows.counts c.key d n (waited c w) (omega (arith, h)) k
                (subst (λ a. Used d n (laws.entry a (w.clock + c.wait) w.store)) (sym p) v) in
            rw e (
              subst
                (λ a.
                  Used d (n + grant (allow c.key (waited c w)).0)
                    (laws.entry a (w.clock + c.wait) (allow c.key (waited c w)).1.store)
                  × n + grant (allow c.key (waited c w)).0 ≤ limit)
                p used)
        | inr e ↦ rw e (
          subst (Used d (n + 0)) (sym (windows.elsewhere c.key at (waited c w) e))
              (subst (λ m. Used d m (laws.entry at (w.clock + c.wait) w.store)) (omega arith) v),
          omega (arith, k),
        )
      ]

  pub cap_lem :
      (d n : ℕ) (at : String) (cs : List Call) (w : Link S)
      → d ≤ w.clock + window
      → n ≤ limit
      → Used d n (laws.entry at w.clock w.store)
      → n + count_where (is_grant redis_key at d) (calls allow cs w).0 ≤ limit
  cap_lem d n at [] w h k u = omega (arith, k)
  cap_lem d n at (c ∷ cs) w h k u = elim (Bool-cases (ltb (w.clock + c.wait) d)) [
    | inl e ↦
        let r = allow c.key (waited c w) in
        let used = step_lem d n at c w h (ground (arith, e)) k u in
        let clock = windows.same_clock c.key (waited c w) in
        let ih =
          cap_lem d (n + gained redis_key at c.key r.0) at cs r.1 (omega (arith, clock, h)) used.1 (
            subst (λ t. Used d (n + gained redis_key at c.key r.0) (laws.entry at t r.1.store))
              (sym clock) used.0) in
        ground (arith, ih, e)
    | inr e ↦
        let z =
          late_lem d at cs (allow c.key (waited c w)).1
            (ground (arith, e, windows.same_clock c.key (waited c w))) in
        ground (arith, z, e, k)
  ]

  open_step_lem :
      (d : ℕ) (at : String) (c : Call) (w : Link S)
      → w.clock + c.wait < d
      → Open d (laws.entry at w.clock w.store)
      → Open d (laws.entry at (w.clock + c.wait) (allow c.key (waited c w)).1.store)
  open_step_lem d at c w before o =
      let v = subst (Open d) (sym (aged at c w)) (Open-alive d _ _ before o) in
      elim (Bool-cases (str_eq (redis_key c.key) at)) [
        | inl e ↦
            let p = (eq_iff (redis_key c.key) at).0 e in
            subst (λ a. Open d (laws.entry a (w.clock + c.wait) (allow c.key (waited c w)).1.store))
              p
              (windows.stays_open c.key d (waited c w)
                (subst (λ a. Open d (laws.entry a (w.clock + c.wait) w.store)) (sym p) v))
        | inr e ↦ subst (Open d) (sym (windows.elsewhere c.key at (waited c w) e)) v
      ]

  -- The clock only moves on.
  clock_lem : (cs : List Call) (w : Link S) → w.clock ≤ (calls allow cs w).1.clock
  clock_lem [] w = omega arith
  clock_lem (c ∷ cs) w =
      omega
        (arith, windows.same_clock c.key (waited c w), clock_lem cs (allow c.key (waited c w)).1)

  open_lem :
      (d : ℕ) (at : String) (cs : List Call) (w : Link S)
      → (calls allow cs w).1.clock < d
      → Open d (laws.entry at w.clock w.store)
      → Open d (laws.entry at (calls allow cs w).1.clock (calls allow cs w).1.store)
  open_lem d at [] w h o = o
  open_lem d at (c ∷ cs) w h o =
      let r = allow c.key (waited c w) in
      let clock = windows.same_clock c.key (waited c w) in
      open_lem d at cs r.1 h (
        subst (λ t. Open d (laws.entry at t r.1.store)) (sym clock)
          (open_step_lem d at c w (omega (arith, clock, clock_lem cs r.1, h)) o))

  ended_entry_lem : (d t : ℕ) (e : Option Entry) → d < t → Open d e → alive t e ≡ none
  ended_entry_lem d t e h (open_until v k p) = ap (alive t) p ∙ ended_lem t d v h

  pub reopens_lem :
      (d : ℕ) (cs : List Call) (c : Call) (w : Link S)
      → Open d (laws.entry (redis_key c.key) w.clock w.store)
      → let v = (calls allow cs w).1 in
        v.clock < d
        → d < v.clock + c.wait
        → b.net v.draws ≡ delivered
        → is_allowed (allow c.key (waited c v)).0 ≡ true
  reopens_lem d cs c w o before after net =
      let v = (calls allow cs w).1 in
      windows.admits c.key (waited c v) net (
        aged (redis_key c.key) c v
        ∙ ended_entry_lem d _ _ after (open_lem d (redis_key c.key) cs w before o))
