-- ===== src/History/Grows.antt =====
-- A table that grows: new rows come in at the front, old rows stay in their places and change as
-- a relation on rows allows.
use poc_hydra_auth.Prelude.{
  ◌≡◌, refl, Bool, true, false, List, [], ◌∷◌, if◌then◌else◌, update_where,
}

pub data Grows {A : Type 0} (New : A → Type 0) (Row : A → A → Type 0)
    : List A → List A → Type 0 where
  empty : Grows New Row [] []
  enters : {xs ys : List A} (y : A) → New y → Grows New Row xs ys → Grows New Row xs (y ∷ ys)
  keeps :
      {xs ys : List A} (x y : A) → Row x y → Grows New Row xs ys → Grows New Row (x ∷ xs) (y ∷ ys)

module _ {A : Type 0} (Row : A → A → Type 0) where
  row_lem :
      (b : Bool) (f : A → A) (x : A)
      → Row x x
      → (b ≡ true → Row x (f x))
      → Row x (if b then f x else x)
  row_lem true f x r k = k refl
  row_lem false f x r k = r

module _ {A : Type 0} {New : A → Type 0} {Row : A → A → Type 0} where
  pub Grows-refl : ((x : A) → Row x x) → (xs : List A) → Grows New Row xs xs
  Grows-refl r [] = empty
  Grows-refl r (x ∷ xs) = keeps x x (r x) (Grows-refl r xs)

  pub Grows-trans :
      ((x y z : A) → Row x y → Row y z → Row x z)
      → ((x y : A) → New x → Row x y → New y)
      → {ys zs : List A} → Grows New Row ys zs
      → {xs : List A} → Grows New Row xs ys
      → Grows New Row xs zs
  Grows-trans t n empty g = g
  Grows-trans t n (enters z p h) g = enters z p (Grows-trans t n h g)
  Grows-trans t n (keeps y z r h) (enters _ p g) = enters z (n y z p r) (Grows-trans t n h g)
  Grows-trans t n (keeps y z r h) (keeps x _ q g) = keeps x z (t x y z q r) (Grows-trans t n h g)

  -- An UPDATE whose change of each row that passes its test is allowed.
  pub Grows-update_where :
      (p : A → Bool) (f : A → A)
      → ((x : A) → Row x x)
      → ((x : A) → p x ≡ true → Row x (f x))
      → (xs : List A) → Grows New Row xs (update_where p f xs)
  Grows-update_where p f r k [] = empty
  Grows-update_where p f r k (x ∷ xs) =
      keeps x (if p x then f x else x) (row_lem Row (p x) f x (r x) (k x))
        (Grows-update_where p f r k xs)
