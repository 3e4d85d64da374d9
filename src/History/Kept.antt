-- ===== src/History/Kept.antt =====
-- A column of a table that is written once, such as used_at.
use poc_hydra_auth.Prelude.{◌≡◌, Option, none, some, is_none, true, arith}

pub record Kept {A : Type 0} (x y : Option A) : Type 0 where
  pub kept : (a : A) → x ≡ some a → y ≡ some a

pub Kept-refl : {A : Type 0} (x : Option A) → Kept x x
Kept-refl x = record { kept = λ a h. h }

pub Kept-trans : {A : Type 0} (x y z : Option A) → Kept x y → Kept y z → Kept x z
Kept-trans x y z h k = record { kept = λ a p. k.kept a (h.kept a p) }

pub Kept-unset : {A : Type 0} (x y : Option A) → is_none x ≡ true → Kept x y
Kept-unset none y h = record { kept = λ a p. ground arith }
Kept-unset (some x) y h = ground arith
