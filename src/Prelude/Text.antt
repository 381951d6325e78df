-- ===== src/Prelude/Text.antt =====
-- Texts: equality, and the test `!text.trim()`.
use achflow.Prelude.Tests.{leb, ◌==◌, if◌then◌else◌}
use Prim.Native.Nat.{ℕ}
use Prim.Native.Char.{code}
use Prim.Native.String.{String}
use mathlib.Core.Bool.{Bool, true, false, ◌&&◌, ◌||◌}
use mathlib.Core.Path.{◌≡◌, refl}
use mathlib.Core.Logic.{◌↔◌}
pub use text.Mathlib.Text.{◌==◌ as str_eq}
pub use text.Mathlib.TextEquality.{eq_iff as str_eq_iff}

-- The characters that `String.prototype.trim` removes: WhiteSpace and LineTerminator.
unfoldable pub is_space : ℕ → Bool
is_space c =
    (leb 9 c && leb c 13)
    || c == 32
    || c == 0xA0
    || c == 0x1680
    || (leb 0x2000 c && leb c 0x200A)
    || c == 0x2028
    || c == 0x2029
    || c == 0x202F
    || c == 0x205F
    || c == 0x3000
    || c == 0xFEFF

-- `!text.trim()`: nothing is left of the text.
unfoldable pub is_blank : String → Bool
unfolding is_space
is_blank String.[] = true
is_blank (String.◌∷◌ c s) = is_space (code c) && is_blank s

-- `text.trimEnd()` and `text.trim()`.
unfoldable pub trim_end : String → String
unfolding is_space is_blank
trim_end String.[] = ""
trim_end (String.◌∷◌ c s) =
    if is_space (code c) && is_blank s then "" else String.◌∷◌ c (trim_end s)

unfoldable pub trim : String → String
unfolding is_space trim_end
trim String.[] = ""
trim (String.◌∷◌ c s) = if is_space (code c) then trim s else String.◌∷◌ c (trim_end s)

decide_by {ℓ} : {A : Type ℓ} (b : Bool) → ((b ≡ true) ↔ A) → Dec A
decide_by true e = yes (e.0 refl)
decide_by false e = no (λ a. cc (e.1 a))

unfoldable pub String_discrete : Discrete String
unfolding decide_by
String_discrete s t = decide_by (str_eq s t) (str_eq_iff s t)
