-- ===== src/Nacha/Generator.antt =====
-- `generate` of the worker's ach/nacha-file-generator.service.ts: which payments a file exports,
-- its totals, the sum of its routing numbers, and what it commits. The text of the file is in Records;
-- the entry hash, the name and the digest are left out of the row, and the sum is only made, since a
-- routing number that is no number ends the transaction there.
use achflow.Prelude.{
  ℕ, ◌*◌, ◌/◌, Bool, true, false, ◌&&◌, ◌||◌, not, Option, none, some, List, [], ◌∷◌, length,
  select, ltb, ◌==◌, min, ◌+◌, take, if◌then◌else◌, same,
}
use achflow.Prelude.Int.{ℤ, pos, ◌+ℤ◌}
use achflow.Schema.{
  Db, Payment, PaymentStatus, PaymentDirection, status_discrete, direction_discrete, AchFile,
  OutboxEventType, Tx, pure, gets, throw_if, ◌>>=◌, ◌>>◌, either_row, plain_error,
  eligible_payments_changed, or_throw, not_an_integer, update_payments, create_ach_file,
}
use achflow.Events.{create_lifecycle_event}
use achflow.Nacha.Text.{utf16, big_int}

abbrev pub has_direction : PaymentDirection → Payment → Bool
has_direction d p = same (direction_discrete p.direction d)

-- `status: VALIDATED, exportedAt: null`
abbrev pub is_unexported : Payment → Bool
is_unexported p =
    same (status_discrete p.status PaymentStatus.validated)
    && (elim p.exported_at [ none ↦ true | some t ↦ false ])

-- The condition of both queries.
abbrev pub is_exportable : Payment → Bool
is_exportable p =
    is_unexported p
    && (has_direction PaymentDirection.debit p || has_direction PaymentDirection.credit p)

-- The merchant of the row that `findFirst` gives, ordered by merchant and id.
unfoldable pub first_merchant : List Payment → Option ℕ
first_merchant [] = none
first_merchant (p ∷ ps) =
    let rest = first_merchant ps in
    if is_exportable p
    then some (elim rest [ none ↦ p.merchant_id | some m ↦ min p.merchant_id m ])
    else rest

abbrev pub is_eligible : ℕ → Payment → Bool
is_eligible merchant p = is_exportable p && p.merchant_id == merchant

-- `orderBy: { id: 'asc' }`
unfoldable pub insert : Payment → List Payment → List Payment
insert p [] = p ∷ []
insert p (x ∷ xs) = if ltb p.id x.id then p ∷ x ∷ xs else x ∷ insert p xs

unfoldable pub by_id : List Payment → List Payment
by_id [] = []
by_id (p ∷ ps) = insert p (by_id ps)

unfoldable pub eligible_payments : ℕ → Db → List Payment
eligible_payments merchant db = by_id (select (is_eligible merchant) db.payments)

-- `filter` by direction and `reduce` over the amounts.
unfoldable pub total : PaymentDirection → List Payment → ℤ
total d [] = pos 0
total d (p ∷ ps) = (if has_direction d p then p.amount_cents else pos 0) +ℤ total d ps

-- The sum of the first eight digits of the routing numbers; `BigInt` throws on other texts.
unfoldable pub routing_sum : List Payment → Option ℕ
unfolding big_int utf16
routing_sum [] = some 0
routing_sum (p ∷ ps) =
    let rest = routing_sum ps in
    elim (big_int (take 8 (utf16 p.routing_number))) [
      | none ↦ none
      | some n ↦ elim rest [ none ↦ none | some sum ↦ some (n + sum) ]
    ]

-- `id: { in: eligible.map((p) => p.id) }`
unfoldable pub is_among : List Payment → ℕ → Bool
is_among [] i = false
is_among (p ∷ ps) i = p.id == i || is_among ps i

abbrev pub mark_submitted : (now file : ℕ) → Payment → Payment
mark_submitted now file p = record p {
  status = PaymentStatus.submitted;
  exported_at = some now;
  ach_file_id = some file;
}

-- The loop over the submitted payments.
unfoldable pub announce_all : List Payment → (submitted_at : ℕ) → Tx (Unit {0})
announce_all [] at = pure tt
announce_all (p ∷ ps) at =
    create_lifecycle_event p OutboxEventType.payment_submitted at none >> announce_all ps at

-- The sums of the two batches are over some of the same payments, so that they are made where this
-- one is.
unfoldable pub export_payments : (merchant date : ℕ) → Tx (Option AchFile)
unfolding announce_all eligible_payments routing_sum
export_payments merchant date = do
  eligible ← gets (eligible_payments merchant)
  hash ← or_throw (routing_sum eligible) (plain_error not_an_integer)
  metadata ←
      create_ach_file merchant date "GENERATED" (length eligible)
        (total PaymentDirection.debit eligible) (total PaymentDirection.credit eligible)
  submitted_at ← gets (λ db. db.clock)
  updated ←
      update_payments (λ p. is_among eligible p.id && is_unexported p)
        (mark_submitted submitted_at metadata.id)
  throw_if (not (updated == length eligible)) (plain_error eligible_payments_changed)
  submitted ← gets (λ db. select (λ p. is_among eligible p.id) db.payments)
  announce_all submitted submitted_at
  pure (some metadata)

-- `generate`, where the effective date is cut to its day.
unfoldable pub generate : (effective_date : ℕ) → Tx (Option AchFile)
unfolding export_payments
generate effective_date = do
  first ← gets (λ db. first_merchant db.payments)
  either_row first (pure none) λ m. export_payments m (effective_date / 86400000 * 86400000)
