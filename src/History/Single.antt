-- ===== src/History/Single.antt =====
-- The links that a user may follow: at most one of each kind is unused at any time.
use poc_hydra_auth.Prelude.{
  ◌≡◌, refl, Bool, false, ◌&&◌, ◌==◌, str_eq, List, [], ◌∷◌, any, is_none, update_where, inl, inr,
  Bool-cases,
}
use poc_hydra_auth.Db.{AuthToken, AuthInvitationToken}
use poc_hydra_auth.History.Keyed.{Keyed, no_rows, row}

-- Two unused tokens of one user.
abbrev pub both_unused : AuthToken → AuthToken → Bool
both_unused t u = is_none t.used_at && (is_none u.used_at && t.user_uuid == u.user_uuid)

-- Two unused invitations of one address.
abbrev pub both_open : AuthInvitationToken → AuthInvitationToken → Bool
both_open t u = is_none t.used_at && (is_none u.used_at && str_eq u.email t.email)

module _ {A : Type 0} (same : A → A → Bool) (p : A → Bool) (f : A → A)
    (spent : (x y : A) → same (f x) y ≡ false) (spent' : (x y : A) → same x (f y) ≡ false) where
  none_left :
      (x : A) (ys : List A) → any (same x) ys ≡ false → any (same x) (update_where p f ys) ≡ false
  none_left x [] h = refl
  none_left x (y ∷ ys) h = elim (Bool-cases (same x y)) [
    | inl e ↦ absurd (let k = rw e at h in cc)
    | inr e ↦
        let ih = none_left x ys (rw e at h) in
        elim (Bool-cases (p y)) [ inl q ↦ rw (q, spent' x y) ih | inr q ↦ rw (q, e) ih ]
  ]

  spent_row : (x : A) (ys : List A) → any (same (f x)) ys ≡ false
  spent_row x [] = refl
  spent_row x (y ∷ ys) = rw (spent x y) (spent_row x ys)

  -- An UPDATE that uses rows up.
  pub Keyed-spent : (xs : List A) → Keyed same xs → Keyed same (update_where p f xs)
  Keyed-spent [] no_rows = no_rows
  Keyed-spent (x ∷ xs) (row _ n t) = elim (Bool-cases (p x)) [
    | inl e ↦ rw e (row (f x) (spent_row x (update_where p f xs)) (Keyed-spent xs t))
    | inr e ↦ rw e (row x (none_left x xs n) (Keyed-spent xs t))
  ]

  -- A row that agrees with the used up ones only.
  pub used_up :
      (x : A)
      → ((y : A) → p y ≡ false → same x y ≡ false)
      → (ys : List A) → any (same x) (update_where p f ys) ≡ false
  used_up x h [] = refl
  used_up x h (y ∷ ys) = elim (Bool-cases (p y)) [
    | inl e ↦ rw (e, spent' x y) (used_up x h ys)
    | inr e ↦ rw (e, h y e) (used_up x h ys)
  ]
