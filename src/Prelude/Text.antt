-- ===== src/Prelude/Text.antt =====
-- Equality of texts, as a decision and as a test.
use Prim.Native.String.{String}
use mathlib.Core.Path.{◌≡◌}
use mathlib.Core.Bool.{Bool, true, false}
use mathlib.Core.Logic.{ite}
use text.Mathlib.Text.{◌==◌}
use text.Mathlib.TextEquality.{eq_iff}

dec_of_test : (s t : String) (b : Bool) → (s == t) ≡ b → Dec (s ≡ t)
dec_of_test s t true e = yes ((eq_iff s t).0 e)
dec_of_test s t false e = no (λ p. cc ((eq_iff s t).1 p))

unfoldable pub string_discrete : Discrete String
unfolding dec_of_test
string_discrete s t = dec_of_test s t (s == t) (λ i. s == t)

-- `a === b`, on texts.
abbrev pub is_same : String → String → Bool
is_same a b = ite (string_discrete a b) true false
