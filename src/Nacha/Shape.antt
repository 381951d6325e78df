-- ===== src/Nacha/Shape.antt =====
-- The shape of a NACHA file: lines of 94 units, in blocks of ten.
use achflow.Prelude.{
  ℕ, zero, suc, ◌+◌, ◌-◌, ◌*◌, ◌/◌, ◌%◌, ◌≤◌, ◌<◌, ◌≡◌, refl, ◌∙◌, Bool, true, false, some, List,
  [], ◌∷◌, ◌++◌, length, length-append, take, map, select, arith, All, Bool-cases, inl, inr, ◌==◌,
  ◌⊎◌,
}
use achflow.Schema.{Payment, Merchant, PaymentDirection}
use achflow.Nacha.Generator.{has_direction, routing_sum}
use achflow.Nacha.Text.{Units, utf16, field, repeat, big_int, digits_value, is_digit}
use achflow.Nacha.Records.{
  batch, close_file, nacha_lines, pad_lines, replace_first, starts_with, nine, file_control,
  file_header, batch_lines, number,
}

pub length-repeat : (n c : ℕ) → length (repeat n c) ≡ n
unfolding repeat
length-repeat zero c = refl
length-repeat (suc n) c = omega (arith, length-repeat n c)

length-take : (n : ℕ) (s : Units) → length (take n s) ≤ n
length-take zero s = omega arith
length-take (suc n) [] = omega arith
length-take (suc n) (x ∷ s) = omega (arith, length-take n s)

pub length-field : (s : Units) (n : ℕ) → length (field s n) ≡ n
unfolding field
length-field s n = omega (
  arith,
  length-append (take n s) (repeat (n - length (take n s)) 32),
  length-repeat (n - length (take n s)) 32,
  length-take n s,
)

fields-All : (lines : List Units) → All (λ l. length l ≡ 94) (map (λ l. field l 94) lines)
fields-All [] = tt
fields-All (l ∷ lines) = (length-field l 94, fields-All lines)

length-map : (lines : List Units) → length (map (λ l. field l 94) lines) ≡ length lines
length-map [] = refl
length-map (l ∷ lines) = omega (arith, length-map lines)

length-replace_first :
    (c : Units) (lines : List Units) → length (replace_first c lines) ≡ length lines
unfolding replace_first
length-replace_first c [] = refl
length-replace_first c (l ∷ lines) = ground (arith, length-replace_first c lines)

-- Enough lines are pushed where the fuel is what is missing to the next block.
blocks-pad_lines :
    (fuel : ℕ) (lines : List Units)
    → (length lines % 10 ≡ 0) ⊎ (10 - length lines % 10 ≤ fuel)
    → (length (pad_lines fuel lines) % 10 ≡ 0) × (length lines ≤ length (pad_lines fuel lines))
unfolding pad_lines
blocks-pad_lines zero lines h = (omega (arith, h), omega arith)
blocks-pad_lines (suc fuel) lines h =
    let longer = length-append lines (repeat 94 nine ∷ []) in
    elim (Bool-cases (length lines % 10 == 0)) [
      | inl full ↦ ground (arith, full)
      | inr short ↦
          let size : (length (lines ++ (repeat 94 nine ∷ [])) % 10 ≡ 0)
              ⊎ (10 - length (lines ++ (repeat 94 nine ∷ [])) % 10 ≤ fuel) =
            next_size (length lines) fuel (length (lines ++ (repeat 94 nine ∷ []))) longer short
              h in
          ground (arith, short, longer, blocks-pad_lines fuel (lines ++ (repeat 94 nine ∷ [])) size)
    ]
  where
    next_size :
        (n fuel m : ℕ)
        → m ≡ n + 1
        → (n % 10 == 0) ≡ false
        → (n % 10 ≡ 0) ⊎ (10 - n % 10 ≤ suc fuel)
        → (m % 10 ≡ 0) ⊎ (10 - m % 10 ≤ fuel)
    next_size n fuel m e short h = ground (arith, e, short, h)

-- The shape that the format asks for.
abbrev pub IsBlocked : List Units → Type 0
IsBlocked lines = All (λ l. length l ≡ 94) lines × (length lines % 10 ≡ 0) × (0 < length lines)

close_file-IsBlocked :
    (hash : ℕ) (eligible : List Payment) (lines : List Units)
    → IsBlocked (close_file hash eligible lines)
unfolding close_file
close_file-IsBlocked hash eligible lines =
    let batches = length (select (starts_with 53) lines) in
    let first = file_control (utf16 "000000") batches hash eligible in
    let (blocks, longer) = blocks-pad_lines 10 (lines ++ (first ∷ [])) (inr (omega arith)) in
    let padded = pad_lines 10 (lines ++ (first ∷ [])) in
    let final = file_control (number (length padded / 10) 6) batches hash eligible in
    let size = length-map (replace_first final padded) ∙ length-replace_first final padded in
    (
      fields-All (replace_first final padded),
      rw size blocks,
      rw size (omega (arith, longer, length-append lines (first ∷ []))),
    )

-- A routing number that is made of digits, as `@Matches(/^\d{9}$/)` asks.
abbrev pub IsNumeric : Payment → Type 0
IsNumeric p = All (λ c. is_digit c ≡ true) (utf16 p.routing_number)

take-All :
    (n : ℕ) (s : Units) → All (λ c. is_digit c ≡ true) s → All (λ c. is_digit c ≡ true) (take n s)
take-All zero s h = tt
take-All (suc n) [] h = tt
take-All (suc n) (c ∷ s) h = (h.0, take-All n s h.1)

digits_read :
    (n : ℕ) (s : Units) → All (λ c. is_digit c ≡ true) s → (m : ℕ) × (digits_value n s ≡ some m)
unfolding digits_value
digits_read n [] h = (n, refl)
digits_read n (c ∷ s) h =
    let (m, e) = digits_read (n * 10 + (c - 48)) s h.1 in (m, ground (arith, h.0, e))

sum_read : (ps : List Payment) → All IsNumeric ps → (sum : ℕ) × (routing_sum ps ≡ some sum)
unfolding routing_sum big_int
sum_read [] h = (0, refl)
sum_read (p ∷ ps) h =
    let (n, e) = digits_read 0 (take 8 (utf16 p.routing_number)) (take-All 8 _ h.0) in
    let (sum, e') = sum_read ps h.1 in (n + sum, ground (arith, e, e'))

select-All :
    (q : Payment → Bool) (ps : List Payment) → All IsNumeric ps → All IsNumeric (select q ps)
unfolding select
select-All q [] h = tt
select-All q (p ∷ ps) h = elim (Bool-cases (q p)) [
  | inl y ↦ rw y (h.0, select-All q ps h.1)
  | inr n ↦ rw n (select-All q ps h.1)
]

batch_made :
    (d : PaymentDirection) (company : Merchant) (yymmdd : Units) (ps : List Payment)
    → All IsNumeric ps
    → (lines : List Units) × (batch d company yymmdd ps ≡ some lines)
unfolding batch
batch_made d company yymmdd ps h =
    let (sum, e) = sum_read (select (has_direction d) ps) (select-All (has_direction d) ps h) in
    elim (Bool-cases (length (select (has_direction d) ps) == 0)) [
      | inl empty ↦ ([], ground (arith, empty))
      | inr full ↦ (
        batch_lines d company yymmdd (select (has_direction d) ps) (sum % 10000000000),
        ground (arith, full, e),
      )
    ]

-- Where the routing numbers are made of digits, the file is made, and has the shape of the format:
-- every line is of 94 units, and the lines come in blocks of ten, one block at least.
pub nacha_lines-IsBlocked :
    (company : Merchant) (yymmdd : Units) (ps : List Payment)
    → All IsNumeric ps
    → (lines : List Units) × (nacha_lines company yymmdd ps ≡ some lines) × IsBlocked lines
unfolding nacha_lines
nacha_lines-IsBlocked company yymmdd ps h =
    let (sum, e) = sum_read ps h in
    let (debits, made) = batch_made PaymentDirection.debit company yymmdd ps h in
    let (credits, made') = batch_made PaymentDirection.credit company yymmdd ps h in
    let lines = close_file (sum % 10000000000) ps (file_header yymmdd ∷ (debits ++ credits)) in
    (
      lines,
      ground (arith, e, made, made'),
      close_file-IsBlocked (sum % 10000000000) ps (file_header yymmdd ∷ (debits ++ credits)),
    )
