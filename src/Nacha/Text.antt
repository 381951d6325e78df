-- ===== src/Nacha/Text.antt =====
-- Texts as JavaScript has them, sequences of UTF-16 code units, and what the worker's
-- ach/nacha-file-generator.service.ts uses of them: `field`, `cents`, and BigInt to and from text.
use achflow.Prelude.{
  ℕ, zero, suc, ◌+◌, ◌-◌, ◌*◌, ◌/◌, ◌%◌, String, Bool, ◌&&◌, Option, none, some, List, [], ◌∷◌,
  ◌++◌, length, take, leb, ltb, if◌then◌else◌,
}
use achflow.Prelude.Int.{ℤ, pos, negsuc}
use Prim.Native.Char.{code}

abbrev pub Units : Type 0
Units = List ℕ

-- One code unit, or a pair of surrogates.
abbrev units_of : ℕ → Units
units_of c =
    if ltb c 0x10000
    then c ∷ []
    else (0xD800 + (c - 0x10000) / 0x400) ∷ (0xDC00 + (c - 0x10000) % 0x400) ∷ []

unfoldable pub utf16 : String → Units
utf16 String.[] = []
utf16 (String.◌∷◌ c s) = units_of (code c) ++ utf16 s

unfoldable pub drop : ℕ → Units → Units
drop zero s = s
drop (suc n) [] = []
drop (suc n) (x ∷ s) = drop n s

-- `unit.repeat(n)`
unfoldable pub repeat : ℕ → ℕ → Units
repeat zero c = []
repeat (suc n) c = c ∷ repeat n c

-- `s.padStart(n, c)` and `s.padEnd(n, c)`, for a fill of one unit.
abbrev pub pad_start : ℕ → ℕ → Units → Units
pad_start n c s = repeat (n - length s) c ++ s

abbrev pub pad_end : ℕ → ℕ → Units → Units
pad_end n c s = s ++ repeat (n - length s) c

-- `s.slice(-n)`, for n that is not 0.
abbrev pub slice_last : ℕ → Units → Units
slice_last n s = drop (length s - n) s

-- `field`, with `right` and without.
unfoldable pub field_right : Units → (length : ℕ) → (fill : ℕ) → Units
unfolding drop repeat
field_right value n fill = pad_start n fill (slice_last n value)

unfoldable pub field : Units → (length : ℕ) → Units
unfolding repeat
field value n = pad_end n 32 (take n value)

-- The decimal digits, on fuel; the number itself and one are enough.
unfoldable pub digits : (fuel : ℕ) → ℕ → Units
digits zero n = []
digits (suc fuel) n =
    let higher = digits fuel (n / 10) in
    if ltb n 10 then (48 + n) ∷ [] else higher ++ ((48 + n % 10) ∷ [])

-- `value.toString()`
unfoldable pub to_string : ℤ → Units
unfolding digits
to_string (pos n) = digits (suc n) n
to_string (negsuc n) = 45 ∷ digits (suc (suc n)) (suc n)

-- `cents`
unfoldable pub cents : ℤ → Units
unfolding field_right to_string
cents value = field_right (to_string value) 10 48

abbrev pub is_digit : ℕ → Bool
is_digit c = leb 48 c && leb c 57

unfoldable pub digits_value : ℕ → Units → Option ℕ
digits_value n [] = some n
digits_value n (c ∷ s) =
    let rest = digits_value (n * 10 + (c - 48)) s in if is_digit c then rest else none

-- `BigInt(text)` on decimal digits. The other forms that it reads do not occur: a routing number is
-- nine digits by its DTO.
unfoldable pub big_int : Units → Option ℕ
unfolding digits_value
big_int s = digits_value 0 s
