-- ===== src/Nacha/Made.antt =====
-- Where the transaction of `generate` of the worker's ach/nacha-file-generator.service.ts goes on past
-- the sum of the routing numbers, it has the text of the file.
use achflow.Prelude.{
  ℕ, ◌+◌, ◌%◌, ◌≡◌, refl, Bool, Option, some, List, [], ◌∷◌, ◌++◌, length, select, take, ◌==◌,
  arith, Bool-cases, Option-cases, inl, inr,
}
use achflow.Schema.{Db, Payment, Merchant, AchFile, PaymentDirection, ok}
use achflow.Nacha.Generator.{has_direction, routing_sum, eligible_payments, export_payments}
use achflow.Nacha.Text.{Units, big_int, utf16}
use achflow.Nacha.Records.{batch, batch_lines, close_file, file_header, nacha_lines}

sum_selected :
    (q : Payment → Bool) (ps : List Payment) (sum : ℕ)
    → routing_sum ps ≡ some sum
    → (part : ℕ) × (routing_sum (select q ps) ≡ some part)
unfolding routing_sum select
sum_selected q [] sum e = (0, refl)
sum_selected q (p ∷ ps) sum e = elim (Option-cases (big_int (take 8 (utf16 p.routing_number)))) [
  | inl unread ↦ absurd (ground (arith, unread, e))
  | inr (n, read) ↦ elim (Option-cases (routing_sum ps)) [
    | inl unread ↦ absurd (ground (arith, read, unread, e))
    | inr (rest, e') ↦
        let (part, summed) = sum_selected q ps rest e' in
        elim (Bool-cases (q p)) [
          | inl y ↦ (n + part, ground (arith, y, read, summed))
          | inr y ↦ (part, ground (arith, y, summed))
        ]
  ]
]

batch_made :
    (d : PaymentDirection) (company : Merchant) (yymmdd : Units) (ps : List Payment) (sum : ℕ)
    → routing_sum ps ≡ some sum
    → (lines : List Units) × (batch d company yymmdd ps ≡ some lines)
unfolding batch
batch_made d company yymmdd ps sum e =
    let (part, summed) = sum_selected (has_direction d) ps sum e in
    elim (Bool-cases (length (select (has_direction d) ps) == 0)) [
      | inl empty ↦ ([], ground (arith, empty))
      | inr full ↦ (
        batch_lines d company yymmdd (select (has_direction d) ps) (part % 10000000000),
        ground (arith, full, summed),
      )
    ]

pub lines_made :
    (company : Merchant) (yymmdd : Units) (ps : List Payment) (sum : ℕ)
    → routing_sum ps ≡ some sum
    → (lines : List Units) × (nacha_lines company yymmdd ps ≡ some lines)
unfolding nacha_lines
lines_made company yymmdd ps sum e =
    let (debits, d) = batch_made PaymentDirection.debit company yymmdd ps sum e in
    let (credits, c) = batch_made PaymentDirection.credit company yymmdd ps sum e in
    (
      close_file (sum % 10000000000) ps (file_header yymmdd ∷ (debits ++ credits)),
      ground (arith, e, d, c),
    )

pub export_summed :
    (merchant date : ℕ) (db db' : Db) (x : Option AchFile)
    → export_payments merchant date db ≡ ok (x, db')
    → (sum : ℕ) × (routing_sum (eligible_payments merchant db) ≡ some sum)
unfolding export_payments
export_summed merchant date db db' x h =
    elim (Option-cases (routing_sum (eligible_payments merchant db))) [
      | inl unread ↦ absurd (ground (arith, unread, h))
      | inr summed ↦ summed
    ]
