-- ===== src/Common/Text.antt =====
-- Native strings: the equality test and concatenation.
use Prim.Native.String.{String, ◌++◌}
use mathlib.Core.Bool.{Bool, false, false≢true}
use mathlib.Core.Path.{◌≡◌, sym, ◌∙◌}
use mathlib.Core.Logic.{inl, inr}
use text.Mathlib.TextLemmas.{append-eq-nil_iff}
use android_device_farm.Common.Tests.{Bool-cases}
pub use text.Mathlib.TextEquality.{eq_iff}
use text.Mathlib.Text.{◌==◌}

-- Go's `a == b` on strings.
abbrev pub str_eq : String → String → Bool
str_eq s t = s == t

-- Go's `a + b` on strings.
infixr 65 ◌<>◌
abbrev pub ◌<>◌ : String → String → String
s <> t = s ++ t

-- A text that begins with a non-empty one is not empty.
pub append-ne_empty : (s t : String) → str_eq s "" ≡ false → str_eq (s <> t) "" ≡ false
append-ne_empty s t h = elim (Bool-cases (str_eq (s <> t) "")) [
  | inl e ↦
      absurd
        (false≢true (sym h ∙ (eq_iff s "").1 (append-eq-nil_iff.0 ((eq_iff (s <> t) "").0 e)).0))
  | inr e ↦ e
]
