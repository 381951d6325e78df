-- ===== src/Nacha/Amounts.antt =====
-- The amounts of a NACHA file are read back from it.
use achflow.Prelude.{
  ℕ, zero, suc, ◌+◌, ◌-◌, ◌*◌, ◌/◌, ◌%◌, ◌≤◌, ◌<◌, ◌≡◌, refl, ◌∙◌, some, [], ◌∷◌, ◌++◌, length,
  length-append, arith, Bool-cases, inl, inr, ltb,
}
use achflow.Prelude.Int.{pos}
use achflow.Nacha.Text.{
  Units, digits, digits_value, big_int, cents, field_right, to_string, drop, repeat,
}
use achflow.Nacha.Shape.{length-repeat}

value-append :
    (m k : ℕ) (s t : Units) → digits_value m s ≡ some k → digits_value m (s ++ t) ≡ digits_value k t
unfolding digits_value
value-append m k [] t e = ground (arith, e)
value-append m k (c ∷ s) t e = ground (arith, e, value-append (m * 10 + (c - 48)) k s t)

value_last : (k d : ℕ) → d < 10 → digits_value k ((48 + d) ∷ []) ≡ some (k * 10 + d)
unfolding digits_value
value_last k d h = ground (arith, h)

-- What is printed is read.
value-digits : (fuel n : ℕ) → n < fuel → digits_value 0 (digits fuel n) ≡ some n
unfolding digits
value-digits zero n h = absurd (omega (arith, h))
value-digits (suc fuel) n h = elim (Bool-cases (ltb n 10)) [
  | inl small ↦ ground (arith, small, value_last 0 n)
  | inr large ↦
      let higher = value-digits fuel (n / 10) (ground (arith, large, h)) in
      let all = value-append 0 (n / 10) (digits fuel (n / 10)) ((48 + n % 10) ∷ []) higher in
      ground (arith, large, all, value_last (n / 10) (n % 10))
]

abbrev power : ℕ → ℕ
power zero = 1
power (suc k) = 10 * power k

length-digits : (k fuel n : ℕ) → n < power (suc k) → length (digits fuel n) ≤ suc k
unfolding digits
length-digits k zero n h = omega arith
length-digits zero (suc fuel) n h = ground (arith, h)
length-digits (suc k) (suc fuel) n h = elim (Bool-cases (ltb n 10)) [
  | inl small ↦ ground (arith, small)
  | inr large ↦
      let fewer = length-digits k fuel (n / 10) (omega (arith, h)) in
      ground (arith, large, fewer, length-append (digits fuel (n / 10)) ((48 + n % 10) ∷ []))
]

value-zeros : (j : ℕ) (s : Units) → digits_value 0 (repeat j 48 ++ s) ≡ digits_value 0 s
unfolding digits_value repeat
value-zeros zero s = refl
value-zeros (suc j) s = ground (arith, value-zeros j s)

-- An amount of ten digits at most fills its field, and is read back from it.
pub cents_round_trip :
    (n : ℕ) → n < 10000000000 → (big_int (cents (pos n)) ≡ some n) × (length (cents (pos n)) ≡ 10)
unfolding big_int cents field_right to_string drop
cents_round_trip n h =
    let short : length (digits (suc n) n) ≤ 10 = length-digits 9 (suc n) n h in
    let none_cut : length (digits (suc n) n) - 10 ≡ 0 = omega (arith, short) in
    let zeros = value-zeros (10 - length (digits (suc n) n)) (digits (suc n) n) in
    let value = value-digits (suc n) n (omega arith) in
    let size = length-append (repeat (10 - length (digits (suc n) n)) 48) (digits (suc n) n) in
    let filled = length-repeat (10 - length (digits (suc n) n)) 48 in
    (rw none_cut (zeros ∙ value), rw none_cut (omega (arith, size, filled, short)))
