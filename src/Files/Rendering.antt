-- ===== src/Files/Rendering.antt =====
-- `renderNacha` of the API's nacha-files/nacha-files.service.ts: the text of a file from its
-- payments, each with its own merchant. The API has its own copies of `field` and `cents`, which
-- are those of the worker. What JavaScript reads from the date of the file, two digits each of the
-- year, the month and the day, is an argument.
use achflow.Prelude.{
  ℕ, zero, suc, ◌+◌, ◌/◌, ◌%◌, Bool, Option, none, some, List, [], ◌∷◌, ◌++◌, length, take, map,
  select, ◌==◌, if◌then◌else◌, same,
}
use achflow.Prelude.Int.{ℤ, pos, ◌+ℤ◌}
use achflow.Schema.{Payment, Merchant, PaymentDirection, direction_discrete}
use achflow.Nacha.Records.{starts_with}
use achflow.Nacha.Text.{Units, utf16, drop, field, field_right, digits, cents, big_int, repeat}

-- A payment of a file with `include: { merchant: true }`.
pub record Exported : Type 0 where
  pub payment : Payment
  pub merchant : Merchant

abbrev pub goes : PaymentDirection → Exported → Bool
goes d x = same (direction_discrete x.payment.direction d)

-- `payments.filter((payment) => payment.direction === d).reduce((sum, payment) => …, BigInt(0))`
unfoldable pub sum_of : PaymentDirection → List Exported → ℤ
sum_of d [] = pos 0
sum_of d (x ∷ xs) =
    let rest = sum_of d xs in if goes d x then x.payment.amount_cents +ℤ rest else rest

-- The sum of `BigInt(payment.routingNumber.slice(0, 8))`.
unfoldable pub hash_of : List Exported → Option ℕ
unfolding big_int utf16
hash_of [] = some 0
hash_of (x ∷ xs) =
    let rest = hash_of xs in
    elim (big_int (take 8 (utf16 x.payment.routing_number))) [
      | none ↦ none
      | some n ↦ elim rest [ none ↦ none | some sum ↦ some (n + sum) ]
    ]

-- `payment.routingNumber[8] ?? '0'`
unfoldable pub ninth : Units → Units
unfolding drop
ninth routing = elim (drop 8 routing) [ [] ↦ 48 ∷ [] | c ∷ s ↦ c ∷ [] ]

-- `field(String(n), length, '0', true)`
abbrev pub padded_number : ℕ → (length : ℕ) → Units
padded_number n size = field_right (digits (suc n) n) size 48

unfoldable pub entry_line : PaymentDirection → Exported → (index : ℕ) → Units
unfolding utf16 field field_right digits cents ninth
entry_line direction x index =
    utf16 "6"
    ++ field_right
        (if same (direction_discrete direction PaymentDirection.debit)
          then utf16 "27"
          else utf16 "22")
        2 48
    ++ field_right (take 8 (utf16 x.payment.routing_number)) 8 48
    ++ ninth (utf16 x.payment.routing_number)
    ++ field (utf16 x.payment.receiver_account_ref) 17
    ++ cents x.payment.amount_cents
    ++ field [] 15
    ++ field (utf16 x.payment.receiver_name) 22
    ++ utf16 " 0"
    ++ padded_number (index + 1) 15

-- `group.forEach((payment, index) => lines.push(…))`
unfoldable pub entry_lines : PaymentDirection → (index : ℕ) → List Exported → List Units
unfolding entry_line
entry_lines direction index [] = []
entry_lines direction index (x ∷ xs) =
    entry_line direction x index ∷ entry_lines direction (suc index) xs

unfoldable pub opening_line : PaymentDirection → Merchant → (yymmdd : Units) → Units
unfolding utf16 field field_right
opening_line direction company yymmdd =
    utf16 "5"
    ++ field_right
        (if same (direction_discrete direction PaymentDirection.debit)
          then utf16 "225"
          else utf16 "220")
        3 48
    ++ field (utf16 company.legal_name) 16
    ++ field [] 20
    ++ field (utf16 company.merchant_code) 10
    ++ utf16 "PPD"
    ++ field [] 10
    ++ yymmdd
    ++ field [] 3
    ++ utf16 "1"
    ++ field_right (utf16 "12345678") 8 48
    ++ utf16 "0000001"

unfoldable pub closing_line : Merchant → List Exported → (hash : ℕ) → Units
unfolding utf16 field field_right digits cents sum_of
closing_line company group hash =
    utf16 "8"
    ++ field_right (utf16 "200") 3 48
    ++ padded_number (length group) 6
    ++ padded_number hash 10
    ++ cents (sum_of PaymentDirection.debit group)
    ++ cents (sum_of PaymentDirection.credit group)
    ++ field (utf16 company.merchant_code) 10
    ++ field [] 19
    ++ field [] 6
    ++ field_right (utf16 "12345678") 8 48
    ++ utf16 "0000001"

unfoldable pub group_lines :
    PaymentDirection → Merchant → (yymmdd : Units) → List Exported → (hash : ℕ) → List Units
unfolding opening_line entry_lines closing_line
group_lines direction company yymmdd group hash =
    opening_line direction company yymmdd
    ∷ (entry_lines direction 0 group ++ (closing_line company group hash ∷ []))

-- A round of the loop over the directions: what it pushes for the payments of the direction. The
-- company is the merchant of the first of them.
unfoldable pub lines_of_group :
    PaymentDirection → (yymmdd : Units) → List Exported → Option (List Units)
unfolding hash_of group_lines
lines_of_group direction yymmdd [] = some []
lines_of_group direction yymmdd (x ∷ xs) = elim (hash_of (x ∷ xs)) [
  | none ↦ none
  | some sum ↦ some (group_lines direction x.merchant yymmdd (x ∷ xs) (sum % 10000000000))
]

abbrev pub direction_lines :
    PaymentDirection → (yymmdd : Units) → List Exported → Option (List Units)
direction_lines direction yymmdd payments =
    lines_of_group direction yymmdd (select (goes direction) payments)

unfoldable pub last_line : (blocks : Units) → (batches : ℕ) → (hash : ℕ) → List Exported → Units
unfolding utf16 field field_right digits cents sum_of
last_line blocks batches hash payments =
    utf16 "9"
    ++ padded_number batches 6
    ++ blocks
    ++ padded_number (length payments) 8
    ++ padded_number hash 10
    ++ cents (sum_of PaymentDirection.debit payments)
    ++ cents (sum_of PaymentDirection.credit payments)
    ++ field [] 39

-- `while (lines.length % 10) lines.push('9'.repeat(94))`, on fuel; ten are enough.
unfoldable pub fill_block : (fuel : ℕ) → List Units → List Units
unfolding repeat
fill_block zero lines = lines
fill_block (suc fuel) lines =
    let rest = fill_block fuel (lines ++ (repeat 94 57 ∷ [])) in
    if length lines % 10 == 0 then lines else rest

-- `lines[lines.findIndex((line) => line.startsWith('9'))] = …`
unfoldable pub put_control : Units → List Units → List Units
put_control control [] = []
put_control control (l ∷ lines) =
    if starts_with 57 l then control ∷ lines else l ∷ put_control control lines

-- What follows the loop over the directions.
unfoldable pub finish_lines : (hash : ℕ) → List Exported → List Units → List Units
unfolding last_line fill_block put_control utf16 field_right digits field
finish_lines hash payments lines =
    let batches = length (select (starts_with 53) lines) in
    let filled = fill_block 10 (lines ++ (last_line (utf16 "000000") batches hash payments ∷ [])) in
    map (λ line. field line 94)
      (put_control (last_line (padded_number (length filled / 10) 6) batches hash payments) filled)

unfoldable pub render_nacha : List Exported → (yymmdd : Units) → Option (List Units)
unfolding hash_of lines_of_group finish_lines utf16
render_nacha payments yymmdd = elim (hash_of payments) [
  | none ↦ none
  | some sum ↦ elim (direction_lines PaymentDirection.debit yymmdd payments) [
    | none ↦ none
    | some debits ↦ elim (direction_lines PaymentDirection.credit yymmdd payments) [
      | none ↦ none
      | some credits ↦
          let opening =
            utf16 "101 123456789 987654321"
            ++ yymmdd
            ++ utf16 "0000A094101DESTINATION            ORIGIN                  " in
          some (finish_lines (sum % 10000000000) payments (opening ∷ (debits ++ credits)))
    ]
  ]
]
