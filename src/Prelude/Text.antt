-- ===== src/Prelude/Text.antt =====
-- Go's `+` on strings, and the laws of it that the proofs use.
use Prim.Native.Char.{Char, code}
use Prim.Native.String
use Prim.Native.String.{String}
use mathlib.Core.Path.{◌≡◌, ap, sym, ◌∙◌}
use mathlib.Core.Logic.{◌≢◌}
use text.Mathlib.TextLemmas.{
  cons-append, nil-append, append_assoc, append_cancel_left, head-eq_of_cons-eq,
}

infixr 65 ◌⧺◌
abbrev pub ◌⧺◌ : String → String → String
s ⧺ t = String.◌++◌ s t

-- Keys with the same prefix agree only if the rests agree.
pub append-inj_right : (p s t : String) → p ⧺ s ≡ p ⧺ t → s ≡ t
append-inj_right p s t h = append_cancel_left p s t h

-- Keys whose first characters differ are different, whatever follows.
pub cons-append-ne :
    (c d : Char) (p q s t : String) → code c ≢ code d → (String.◌∷◌ c p) ⧺ s ≢ (String.◌∷◌ d q) ⧺ t
cons-append-ne c d p q s t h e =
    h (ap code (head-eq_of_cons-eq (sym (cons-append c p s) ∙ e ∙ cons-append d q t)))

-- A character behind a text goes in front of what follows.
pub snoc-append :
    (s : String) (c : Char) (t : String) → (s ⧺ String.◌∷◌ c "") ⧺ t ≡ s ⧺ String.◌∷◌ c t
snoc-append s c t =
    append_assoc s (String.◌∷◌ c "") t
    ∙ ap (λ u. s ⧺ u) (cons-append c "" t ∙ ap (String.◌∷◌ c) (nil-append t))
