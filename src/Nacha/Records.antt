-- ===== src/Nacha/Records.antt =====
-- The text of the file that `generate` of the worker's ach/nacha-file-generator.service.ts makes. The
-- last two digits of the year, the month and the day are an argument, as two digits each.
use achflow.Prelude.{
  ℕ, zero, suc, ◌+◌, ◌/◌, ◌%◌, Bool, Option, none, some, List, [], ◌∷◌, ◌++◌, length, take, map,
  select, ◌==◌, if◌then◌else◌, same,
}
use achflow.Schema.{Payment, Merchant, PaymentDirection, direction_discrete}
use achflow.Nacha.Generator.{has_direction, total, routing_sum}
use achflow.Nacha.Text.{Units, utf16, drop, field, field_right, digits, cents, repeat}

abbrev pub zero_unit : ℕ
zero_unit = 48

-- `field(String(n), length, '0', true)`
abbrev pub number : ℕ → (length : ℕ) → Units
number n size = field_right (digits (suc n) n) size zero_unit

unfoldable pub file_header : (yymmdd : Units) → Units
unfolding utf16
file_header yymmdd =
    utf16 "101 123456789 987654321"
    ++ yymmdd
    ++ utf16 "0000A094101DESTINATION            ORIGIN                  "

unfoldable pub batch_header : PaymentDirection → Merchant → (yymmdd : Units) → Units
unfolding utf16 field field_right
batch_header direction company yymmdd =
    utf16 "5"
    ++ field_right
        (if same (direction_discrete direction PaymentDirection.debit)
          then utf16 "225"
          else utf16 "220")
        3 zero_unit
    ++ field (utf16 company.legal_name) 16
    ++ field [] 20
    ++ field (utf16 company.merchant_code) 10
    ++ utf16 "PPD"
    ++ field [] 10
    ++ yymmdd
    ++ field [] 3
    ++ utf16 "1"
    ++ field_right (utf16 "12345678") 8 zero_unit
    ++ utf16 "0000001"

-- `p.routingNumber[8] ?? '0'`
abbrev check_digit : Units → Units
check_digit [] = zero_unit ∷ []
check_digit (c ∷ s) = c ∷ []

unfoldable pub entry_detail : PaymentDirection → Payment → (index : ℕ) → Units
unfolding utf16 field field_right digits cents drop
entry_detail direction p index =
    utf16 "6"
    ++ field_right
        (if same (direction_discrete direction PaymentDirection.debit)
          then utf16 "27"
          else utf16 "22")
        2 zero_unit
    ++ field_right (take 8 (utf16 p.routing_number)) 8 zero_unit
    ++ check_digit (drop 8 (utf16 p.routing_number))
    ++ field (utf16 p.receiver_account_ref) 17
    ++ cents p.amount_cents
    ++ field [] 15
    ++ field (utf16 p.receiver_name) 22
    ++ utf16 " 0"
    ++ number (index + 1) 15

-- The loop over the group.
unfoldable pub entry_details : PaymentDirection → (index : ℕ) → List Payment → List Units
unfolding entry_detail
entry_details direction index [] = []
entry_details direction index (p ∷ ps) =
    entry_detail direction p index ∷ entry_details direction (suc index) ps

unfoldable pub batch_control : Merchant → List Payment → (hash : ℕ) → Units
unfolding utf16 field field_right digits cents total
batch_control company group hash =
    utf16 "8"
    ++ field_right (utf16 "200") 3 zero_unit
    ++ number (length group) 6
    ++ number hash 10
    ++ cents (total PaymentDirection.debit group)
    ++ cents (total PaymentDirection.credit group)
    ++ field (utf16 company.merchant_code) 10
    ++ field [] 19
    ++ field [] 6
    ++ field_right (utf16 "12345678") 8 zero_unit
    ++ utf16 "0000001"

unfoldable pub batch_lines :
    PaymentDirection → Merchant → (yymmdd : Units) → List Payment → (hash : ℕ) → List Units
unfolding batch_header entry_details batch_control
batch_lines direction company yymmdd group hash =
    batch_header direction company yymmdd
    ∷ (entry_details direction 0 group ++ (batch_control company group hash ∷ []))

-- The lines of a batch; there are none where no payment has the direction.
unfoldable pub batch :
    PaymentDirection → Merchant → (yymmdd : Units) → List Payment → Option (List Units)
unfolding batch_lines routing_sum
batch direction company yymmdd eligible =
    let group = select (has_direction direction) eligible in
    if length group == 0 then some [] else elim (routing_sum group) [
      | none ↦ none
      | some sum ↦ some (batch_lines direction company yymmdd group (sum % 10000000000))
    ]

-- `line.startsWith(…)`, of one unit.
abbrev pub starts_with : ℕ → Units → Bool
starts_with c [] = Bool.false
starts_with c (x ∷ s) = x == c

abbrev pub nine : ℕ
nine = 57

unfoldable pub file_control : (blocks : Units) → (batches : ℕ) → (hash : ℕ) → List Payment → Units
unfolding utf16 field field_right digits cents total
file_control blocks batches hash eligible =
    utf16 "9"
    ++ number batches 6
    ++ blocks
    ++ number (length eligible) 8
    ++ number hash 10
    ++ cents (total PaymentDirection.debit eligible)
    ++ cents (total PaymentDirection.credit eligible)
    ++ field [] 39

-- `while (lines.length % 10) lines.push('9'.repeat(94))`, on fuel.
unfoldable pub pad_lines : (fuel : ℕ) → List Units → List Units
unfolding repeat
pad_lines zero lines = lines
pad_lines (suc fuel) lines =
    let rest = pad_lines fuel (lines ++ (repeat 94 nine ∷ [])) in
    if length lines % 10 == 0 then lines else rest

-- `lines[lines.findIndex(…)] = …`
unfoldable pub replace_first : Units → List Units → List Units
replace_first control [] = []
replace_first control (l ∷ lines) =
    if starts_with nine l then control ∷ lines else l ∷ replace_first control lines

-- The lines that follow from the batches.
unfoldable pub close_file : (hash : ℕ) → List Payment → List Units → List Units
unfolding file_control pad_lines replace_first utf16 field_right digits field
close_file hash eligible lines =
    let batches = length (select (starts_with 53) lines) in
    let padded =
      pad_lines 10 (lines ++ (file_control (utf16 "000000") batches hash eligible ∷ [])) in
    map (λ line. field line 94)
      (replace_first (file_control (number (length padded / 10) 6) batches hash eligible) padded)

unfoldable pub nacha_lines : Merchant → (yymmdd : Units) → List Payment → Option (List Units)
unfolding file_header batch routing_sum close_file
nacha_lines company yymmdd eligible = elim (routing_sum eligible) [
  | none ↦ none
  | some sum ↦ elim (batch PaymentDirection.debit company yymmdd eligible) [
    | none ↦ none
    | some debits ↦ elim (batch PaymentDirection.credit company yymmdd eligible) [
      | none ↦ none
      | some credits ↦
          some (close_file (sum % 10000000000) eligible (file_header yymmdd ∷ (debits ++ credits)))
    ]
  ]
]
