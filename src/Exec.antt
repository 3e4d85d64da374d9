-- ===== src/Exec.antt =====
-- Handlers and repository methods as actions on a state: what they did before an error stays done,
-- so the state comes back beside the error too.
use poc_hydra_auth.Prelude.{String, Bool, true, false}
use poc_hydra_auth.Errors.{Err, wrapped}

pub data Result {ℓ} (A : Type ℓ) : Type ℓ where
  ok : A → Result A
  err : Err → Result A

abbrev pub Exec {ℓ} : Type ℓ → Type ℓ → Type ℓ
Exec S A = S → Result A × S

-- fmt.Errorf("message: %w", err) round an error.
abbrev pub wrap_result {ℓ} : {A : Type ℓ} → String → Result A → Result A
wrap_result message (ok a) = ok a
wrap_result message (err e) = err (wrapped message e)

abbrev pub map_result {ℓ} : {A : Type ℓ} → (Err → Err) → Result A → Result A
map_result f (ok a) = ok a
map_result f (err e) = err (f e)

module _ {ℓ} {S A : Type ℓ} where
  unfoldable pub pure : A → Exec S A
  pure a s = (ok a, s)

  unfoldable pub raise : Err → Exec S A
  raise e s = (err e, s)

  unfoldable pub lift : Result A → Exec S A
  lift r s = (r, s)

  unfoldable pub gets : (S → A) → Exec S A
  gets f s = (ok (f s), s)

  unfoldable pub wrapping : String → Exec S A → Exec S A
  wrapping message m s = let (r, s') = m s in (wrap_result message r, s')

  -- The error changed on its way to the caller.
  unfoldable pub map_err : (Err → Err) → Exec S A → Exec S A
  map_err f m s = let (r, s') = m s in (map_result f r, s')

  -- The error as a value, for code that inspects it.
  unfoldable pub attempt : Exec S A → Exec S (Result A)
  attempt m s = let (r, s') = m s in (ok r, s')

module _ {ℓ} {S A B : Type ℓ} where
  abbrev continue : Result A → (A → Exec S B) → Exec S B
  continue (ok a) f s = f a s
  continue (err e) f s = (err e, s)

  infixl 10 ◌>>=◌ ◌>>◌
  unfoldable pub ◌>>=◌ : Exec S A → (A → Exec S B) → Exec S B
  unfolding pure raise lift gets wrapping map_err attempt
  ◌>>=◌ m f s = let (r, s') = m s in continue r f s'

  abbrev pub ◌>>◌ : Exec S A → Exec S B → Exec S B
  m >> n = m >>= λ _. n

-- `if test { return err }`
unfoldable pub guard : {S : Type 0} → Bool → Err → Exec S (Unit {0})
guard true e = raise e
guard false e = pure tt
