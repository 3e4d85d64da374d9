-- ===== src/Prelude/Texts.antt =====
-- Texts that differ after a common beginning.
use Prim.Native.Nat.{ℕ, ◌≤◌}
use Prim.Native.Char.{code}
use Prim.Native.String.{String, [], ◌∷◌, ◌++◌}
use mathlib.Core.Path.{◌≡◌, sym, ap, ◌∙◌}
use mathlib.Core.Logic.{◌≢◌, inl, inr}
use mathlib.Core.Bool.{false}
use native.Mathlib.Omega.{arith}
use text.Mathlib.Text.{◌==◌}
use text.Mathlib.TextLemmas.{append_cancel_left, append_assoc, cons-append}
use text.Mathlib.TextEquality.{eq_iff}
use poc_hydra_auth.Prelude.Tests.{Bool-cases}

abbrev pub first_code : String → ℕ
first_code [] = 0
first_code (c ∷ s) = code c

first_code-append : (s t : String) → 1 ≤ first_code s → first_code (s ++ t) ≡ first_code s
first_code-append [] t h = omega (arith, h)
first_code-append (c ∷ s) t h = ap first_code (cons-append c s t)

pub different_texts : (s t : String) → (s ≡ t → ⊥) → (s == t) ≡ false
different_texts s t h = elim (Bool-cases (s == t)) [
  | inl e ↦ elim (h ((eq_iff s t).0 e)) [ ]
  | inr e ↦ e
]

-- Two texts part where their first characters after a common beginning differ.
pub parting_texts :
    (p a b h h' : String)
    → 1 ≤ first_code a
    → 1 ≤ first_code b
    → first_code a ≢ first_code b
    → ((p ++ a) ++ h == (p ++ b) ++ h') ≡ false
parting_texts p a b h h' k k' d = different_texts _ _ λ e.
    let f =
      append_cancel_left p (a ++ h) (b ++ h')
        (sym (append_assoc p a h) ∙ e ∙ append_assoc p b h') in
    d (sym (first_code-append a h k) ∙ ap first_code f ∙ first_code-append b h' k')

-- A text that begins with a character is not empty.
pub begun_text : (s t : String) → 1 ≤ first_code s → (s ++ t == "") ≡ false
begun_text s t h =
    different_texts (s ++ t) "" λ e. omega (arith, h, ap first_code e, first_code-append s t h)
