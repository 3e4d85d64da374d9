-- ===== src/History/First.antt =====
-- The first row that passes a test, over changes of the table.
use poc_hydra_auth.Prelude.{
  ◌≡◌, sym, ap, ◌∙◌, Bool, true, false, some, List, [], ◌∷◌, any, find?, update_where, inl, inr,
  Bool-cases,
}

-- The first row that passes `p` is there and passes `q`.
pub data FirstIs {A : Type 0} (p q : A → Bool) : List A → Type 0 where
  here : {xs : List A} (x : A) → p x ≡ true → q x ≡ true → FirstIs p q (x ∷ xs)
  below : {xs : List A} (x : A) → p x ≡ false → FirstIs p q xs → FirstIs p q (x ∷ xs)

module _ {A : Type 0} {p q : A → Bool} where
  -- What a SELECT finds passes `q`.
  pub FirstIs-find? : (xs : List A) (t : A) → FirstIs p q xs → find? p xs ≡ some t → q t ≡ true
  FirstIs-find? [] t h e = elim h [ ]
  FirstIs-find? (x ∷ xs) t (here _ h k) e = cc
  FirstIs-find? (x ∷ xs) t (below _ h k) e = FirstIs-find? xs t k (rw h at e)

  -- A SELECT that finds a row that passes `q`.
  pub found : (xs : List A) (t : A) → find? p xs ≡ some t → q t ≡ true → FirstIs p q xs
  found [] t e n = absurd cc
  found (x ∷ xs) t e n = elim (Bool-cases (p x)) [
    | inl k ↦ let x≡t : x ≡ t = let z = rw k at e in cc in here x k (ap q x≡t ∙ n)
    | inr k ↦ below x k (found xs t (rw k at e) n)
  ]

  -- A row that a constraint lets in beside the first one.
  pub lets_in :
      (c : A → Bool) (new : A)
      → ((x : A) → p x ≡ true → p new ≡ true → c x ≡ true)
      → (xs : List A) → FirstIs p q xs
      → any c xs ≡ false
      → p new ≡ false
  lets_in c new h [] k z = elim k [ ]
  lets_in c new h (x ∷ xs) (here _ m n) z = elim (Bool-cases (p new)) [
    | inl e ↦ absurd (let k = rw (h x m e) at z in cc)
    | inr e ↦ e
  ]
  lets_in c new h (x ∷ xs) (below _ m k) z = elim (Bool-cases (c x)) [
    | inl e ↦ absurd (let k = rw e at z in cc)
    | inr e ↦ lets_in c new h xs k (rw e at z)
  ]

  module _ (r : A → Bool) (f : A → A) (same : (x : A) → p (f x) ≡ p x) where
    -- An UPDATE that neither changes what `p` reads nor undoes `q`.
    pub FirstIs-update_where :
        ((x : A) → q x ≡ true → q (f x) ≡ true)
        → (xs : List A) → FirstIs p q xs
        → FirstIs p q (update_where r f xs)
    FirstIs-update_where kept [] h = elim h [ ]
    FirstIs-update_where kept (x ∷ xs) (here _ m n) = elim (Bool-cases (r x)) [
      | inl e ↦ rw e (here (f x) (same x ∙ m) (kept x n))
      | inr e ↦ rw e (here x m n)
    ]
    FirstIs-update_where kept (x ∷ xs) (below _ m k) = elim (Bool-cases (r x)) [
      | inl e ↦ rw e (below (f x) (same x ∙ m) (FirstIs-update_where kept xs k))
      | inr e ↦ rw e (below x m (FirstIs-update_where kept xs k))
    ]

    -- An UPDATE that reaches the first row makes `q` hold of it.
    pub reached :
        (xs : List A) (t : A)
        → find? p xs ≡ some t
        → r t ≡ true
        → q (f t) ≡ true
        → FirstIs p q (update_where r f xs)
    reached [] t e m n = absurd cc
    reached (x ∷ xs) t e m n = elim (Bool-cases (p x)) [
      | inl k ↦
          let x≡t : x ≡ t = let z = rw k at e in cc in
          rw (x≡t, m) (here (f t) (same t ∙ (sym (ap p x≡t) ∙ k)) n)
      | inr k ↦
          let rest = reached xs t (rw k at e) m n in
          elim (Bool-cases (r x)) [
            | inl l ↦ rw l (below (f x) (same x ∙ k) rest)
            | inr l ↦ rw l (below x k rest)
          ]
    ]
