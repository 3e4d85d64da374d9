-- ===== src/Ratelimit/Windows/Entries.antt =====
-- The entry that the script of CountingWindowLimiter keeps: what a call makes of it.
use poc_hydra_auth.Prelude.{
  ℕ, ℤ, suc, ◌+◌, ◌≤◌, ◌==◌, ◌≡◌, sym, subst, true, false, Option, none, some, ltb, inl, inr,
  Bool-cases, is_negative, if◌then◌else◌, arith,
}
use native.Mathlib.Decide.{dec_le}
use poc_hydra_auth.Ratelimit.Redis.{Entry, incremented, expiring, ttl_of, value_of}
use poc_hydra_auth.Ratelimit.Scripts.{or_zero}
use poc_hydra_auth.Ratelimit.Limiters.{counting_result}
use poc_hydra_auth.Ratelimit.Windows.{Used, unused, counted_until, Open, open_until}

-- What the script makes of the entry of its key, with the count that it answers.
abbrev pub counted_entry : ℕ → ℕ → Option Entry → ℕ × Option Entry
counted_entry limit m e =
    let count = or_zero (value_of e) in
    let i = incremented e in
    if ltb count limit
    then (i.value, if i.value == 1 then expiring m (some i) else some i)
    else (suc count, e)

abbrev pub healed_entry : ℕ → ℕ → Option Entry → Option Entry
healed_entry t m e = if is_negative (ttl_of t e) then expiring m e else e

-- The entry after the script, where there was none and where there was one that expires.
abbrev after_script : ℕ → ℕ → ℕ → Option Entry → Option Entry
after_script limit t m e = healed_entry t m (counted_entry limit m e).1

abbrev granted : ℕ → ℕ → Option Entry → ℕ
granted limit m e = if ltb limit (counted_entry limit m e).0 then 0 else 1

abbrev until : ℕ → ℕ → Option Entry
until v d = some (record { value = v; deadline = some d })

-- What the script does, by the entry.
first_lem :
    (limit t m : ℕ)
    → ltb 0 limit ≡ true
    → (after_script limit t m none ≡ until 1 m) × (granted limit m none ≡ 1)
first_lem limit t m e = (ground (arith, e), ground (arith, e))

none_allowed_lem :
    (limit t m : ℕ)
    → ltb 0 limit ≡ false
    → (after_script limit t m none ≡ none) × (granted limit m none ≡ 0)
none_allowed_lem limit t m e = (ground (arith, e), ground (arith, e))

next_lem :
    (limit t m d v : ℕ)
    → ltb v limit ≡ true
    → 1 ≤ v
    → (after_script limit t m (until v d) ≡ until (suc v) d) × (granted limit m (until v d) ≡ 1)
next_lem limit t m d v e k = (ground (arith, e), ground (arith, e))

zero_lem :
    (limit t m d v : ℕ)
    → ltb v limit ≡ true
    → v ≡ 0
    → (after_script limit t m (until v d) ≡ until 1 m) × (granted limit m (until v d) ≡ 1)
zero_lem limit t m d v e k = (ground (arith, e), ground (arith, e))

refused_lem :
    (limit t m d v : ℕ)
    → ltb v limit ≡ false
    → (after_script limit t m (until v d) ≡ until v d) × (granted limit m (until v d) ≡ 0)
refused_lem limit t m d v e = (ground (arith, e), ground (arith, e))

-- The two parts of what a call does, from its equations.
to_used :
    (limit d n v d' g : ℕ) (e : Option Entry)
    → e ≡ until v d'
    → d ≤ d'
    → n + g ≤ v
    → n + g ≤ limit
    → Used d (n + g) e × n + g ≤ limit
to_used limit d n v d' g e p h k k' = (counted_until v d' p h k, k')

none_counts_lem :
    (limit t m d : ℕ)
    → d ≤ m
    → Used d (0 + granted limit m none) (after_script limit t m none)
      × 0 + granted limit m none ≤ limit
none_counts_lem limit t m d h = elim (Bool-cases (ltb 0 limit)) [
  | inl e ↦
      let (p, q) = first_lem limit t m e in
      to_used limit d 0 1 m (granted limit m none) _ p h (omega (arith, q)) (ground (arith, q, e))
  | inr e ↦
      let (p, q) = none_allowed_lem limit t m e in (unused (omega (arith, q)) p, omega (arith, q))
]

some_counts_lem :
    (limit t m d d' n v : ℕ)
    → d ≤ m
    → d ≤ d'
    → n ≤ v
    → n ≤ limit
    → Used d (n + granted limit m (until v d')) (after_script limit t m (until v d'))
      × n + granted limit m (until v d') ≤ limit
some_counts_lem limit t m d d' n v h h' k k' = elim (Bool-cases (ltb v limit)) [
  | inl e ↦ elim (dec_le 1 v) [
    | yes f ↦
        let (p, q) = next_lem limit t m d' v e f in
        to_used limit d n (suc v) d' (granted limit m (until v d')) _ p h' (omega (arith, q))
          (ground (arith, q, e))
    | no f ↦
        let (p, q) = zero_lem limit t m d' v e (omega (arith, f)) in
        to_used limit d n 1 m (granted limit m (until v d')) _ p h (omega (arith, q, f))
          (ground (arith, q, e))
  ]
  | inr e ↦
      let (p, q) = refused_lem limit t m d' v e in
      to_used limit d n v d' (granted limit m (until v d')) _ p h' (omega (arith, q))
        (omega (arith, q))
]

pub counts_lem :
    (limit t m d n : ℕ) (e : Option Entry)
    → d ≤ m
    → n ≤ limit
    → Used d n e
    → Used d (n + granted limit m e) (after_script limit t m e) × n + granted limit m e ≤ limit
counts_lem limit t m d n e h k (unused p q) =
    subst
      (λ x.
        Used d (n + granted limit m x) (after_script limit t m x) × n + granted limit m x ≤ limit)
      (sym q)
      (subst
        (λ x.
          Used d (x + granted limit m none) (after_script limit t m none)
          × x + granted limit m none ≤ limit)
        (sym p) (none_counts_lem limit t m d h))
counts_lem limit t m d n e h k (counted_until v d' p q r) =
    subst
      (λ x.
        Used d (n + granted limit m x) (after_script limit t m x) × n + granted limit m x ≤ limit)
      (sym p) (some_counts_lem limit t m d d' n v h q r k)

pub open_lem : (limit t m d : ℕ) (e : Option Entry) → Open d e → Open d (after_script limit t m e)
open_lem limit t m d e (open_until v k p) =
    subst (λ x. Open d (after_script limit t m x)) (sym p)
      (elim (Bool-cases (ltb v limit)) [
        | inl f ↦ open_until (suc v) (omega arith) (next_lem limit t m d v f k).0
        | inr f ↦ open_until v k (refused_lem limit t m d v f).0
      ])

pub granted_lem :
    (limit count now : ℕ) (z : ℤ)
    → ◌≡◌ {A = ℕ}
        (if (counting_result limit (count, z) now).allowed then 1 else 0)
        (if ltb limit count then 0 else 1)
granted_lem limit count now z = ground arith

pub admits_lem :
    (limit t m now : ℕ) (z : ℤ)
    → 1 ≤ limit
    → (counting_result limit ((counted_entry limit m none).0, z) now).allowed ≡ true
admits_lem limit t m now z h = ground arith
