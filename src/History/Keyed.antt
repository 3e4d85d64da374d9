-- ===== src/History/Keyed.antt =====
-- A table with a key: no row has the key of a row below it.
use poc_hydra_auth.Prelude.{
  ◌≡◌, refl, ap, ◌∙◌, Bool, true, false, List, [], ◌∷◌, if◌then◌else◌, any, update_where,
}

pub data Keyed {A : Type 0} (same : A → A → Bool) : List A → Type 0 where
  no_rows : Keyed same []
  row : {xs : List A} (x : A) → any (same x) xs ≡ false → Keyed same xs → Keyed same (x ∷ xs)

module _ {A : Type 0} where
  -- An UPDATE whose change leaves the key alone.
  changed_key :
      (same : A → A → Bool) (f : A → A)
      → ((x y : A) → same (f x) y ≡ same x y)
      → ((x y : A) → same x (f y) ≡ same x y)
      → (b c : Bool) (x y : A) → same (if b then f x else x) (if c then f y else y) ≡ same x y
  changed_key same f h k true true x y = h x (f y) ∙ k x y
  changed_key same f h k true false x y = h x y
  changed_key same f h k false true x y = k x y
  changed_key same f h k false false x y = refl

  any-update_where :
      (same : A → A → Bool) (p : A → Bool) (f : A → A)
      → ((x y : A) → same (f x) y ≡ same x y)
      → ((x y : A) → same x (f y) ≡ same x y)
      → (x : A) (ys : List A)
      → any (same (if p x then f x else x)) (update_where p f ys) ≡ any (same x) ys
  any-update_where same p f h k x [] = refl
  any-update_where same p f h k x (y ∷ ys) =
      ap (λ b. if b then true else any (same (if p x then f x else x)) (update_where p f ys))
        (changed_key same f h k (p x) (p y) x y)
      ∙ ap (λ b. if same x y then true else b) (any-update_where same p f h k x ys)

  pub Keyed-update_where :
      (same : A → A → Bool) (p : A → Bool) (f : A → A)
      → ((x y : A) → same (f x) y ≡ same x y)
      → ((x y : A) → same x (f y) ≡ same x y)
      → (xs : List A) → Keyed same xs
      → Keyed same (update_where p f xs)
  Keyed-update_where same p f h k [] no_rows = no_rows
  Keyed-update_where same p f h k (x ∷ xs) (row _ n t) =
      row (if p x then f x else x) (any-update_where same p f h k x xs ∙ n)
        (Keyed-update_where same p f h k xs t)
