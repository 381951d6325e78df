-- ===== src/Files/Downloads.antt =====
-- `downloadForScope` and `toFileRow` of the API's nacha-files/nacha-files.service.ts. The digits that
-- JavaScript reads from a day are an argument; the name of the file, the entry hash and the digest,
-- which the rows of the worker's files hold beside the model, are left out.
use achflow.Prelude.{
  ℕ, ◌*◌, ◌/◌, Bool, true, false, ◌&&◌, not, Option, none, some, List, [], ◌∷◌, length, select,
  find, ◌==◌, str_eq, if◌then◌else◌, same,
}
use achflow.Prelude.Int.{ℤ, pos, ◌+ℤ◌}
use achflow.Schema.{
  Db, Payment, PaymentStatus, PaymentDirection, status_discrete, direction_discrete, AchFile, Tx,
  gets, or_throw, throw_if, ◌>>=◌, ◌>>◌, not_found, plain_error, record_missing,
  nacha_file_not_found, nacha_file_payments_not_found, not_an_integer, find_merchant,
}
use achflow.Nacha.Generator.{by_id}
use achflow.Nacha.Text.{Units}
use achflow.Files.Rendering.{Exported, render_nacha}

-- `merchantId ? { companyId: merchantId } : {}`, and so with the merchants of payments.
abbrev pub in_scope : Option ℕ → ℕ → Bool
in_scope none i = true
in_scope (some m) i = i == m

-- `include: { payments: { where, orderBy: { id: 'asc' } } }`
abbrev pub belongs : (scope : Option ℕ) → (file : ℕ) → Payment → Bool
belongs scope file p =
    (elim p.ach_file_id [ none ↦ false | some f ↦ f == file ]) && in_scope scope p.merchant_id

unfoldable pub payments_of : (scope : Option ℕ) → (file : ℕ) → Db → List Payment
unfolding by_id
payments_of scope file db = by_id (select (belongs scope file) db.payments)

-- `include: { merchant: true }`; Prisma fails where a required relation is missing.
unfoldable pub with_merchants : Db → List Payment → Option (List Exported)
with_merchants db [] = some []
with_merchants db (p ∷ ps) =
    let rest = with_merchants db ps in
    elim (find_merchant p.merchant_id db) [
      | none ↦ none
      | some m ↦ elim rest [
        | none ↦ none
        | some rows ↦ some (record { payment = p; merchant = m } ∷ rows)
      ]
    ]

abbrev pub find_file : (scope : Option ℕ) → (file : ℕ) → Db → Option AchFile
find_file scope file db = find (λ f. f.id == file && in_scope scope f.company_id) db.ach_files

-- `startOfUtcDay`
abbrev pub start_of_day : ℕ → ℕ
start_of_day t = t / 86400000 * 86400000

module _ (day_digits : (day : ℕ) → Units) where
  -- The lines of the contents; the admin API gives no merchant.
  unfoldable pub download : (scope : Option ℕ) → (file : ℕ) → Tx (List Units)
  unfolding payments_of with_merchants render_nacha
  download scope id = do
    found ← gets (find_file scope id)
    file ← or_throw found (not_found nacha_file_not_found)
    included ← gets (λ db. with_merchants db (payments_of scope id db))
    payments ← or_throw included record_missing
    throw_if (length payments == 0) (not_found nacha_file_payments_not_found)
    or_throw (render_nacha payments (day_digits (start_of_day file.effective_entry_date)))
        (plain_error not_an_integer)

pub data SubmissionStatus : Type 0 where
  failed pending submitted : SubmissionStatus

-- `toFileRow`, without the payments that it passes on.
pub record FileRow : Type 0 where
  pub id : ℕ
  pub created_at : ℕ
  pub effective_entry_date : ℕ
  pub submission_status : SubmissionStatus
  pub total_payments : ℕ
  pub total_amount_cents : ℤ
  pub debit_count : ℕ
  pub credit_count : ℕ
  pub debit_total_cents : ℤ
  pub credit_total_cents : ℤ

abbrev pub going : PaymentDirection → Payment → Bool
going d p = same (direction_discrete p.direction d)

unfoldable pub amounts : List Payment → ℤ
amounts [] = pos 0
amounts (p ∷ ps) = p.amount_cents +ℤ amounts ps

-- `file.payments.some((payment) => payment.status === PaymentStatus.VALIDATED)`
unfoldable pub some_validated : List Payment → Bool
some_validated [] = false
some_validated (p ∷ ps) =
    let rest = some_validated ps in
    if same (status_discrete p.status PaymentStatus.validated) then true else rest

unfoldable pub to_file_row : AchFile → List Payment → FileRow
unfolding amounts some_validated
to_file_row file payments =
    let debits = select (going PaymentDirection.debit) payments in
    let credits = select (going PaymentDirection.credit) payments in
    record {
      id = file.id;
      created_at = file.created_at;
      effective_entry_date = file.effective_entry_date;
      submission_status =
          if str_eq file.status "FAILED"
          then SubmissionStatus.failed
          else if some_validated payments
          then SubmissionStatus.pending
          else SubmissionStatus.submitted;
      total_payments = length payments;
      total_amount_cents = amounts debits +ℤ amounts credits;
      debit_count = length debits;
      credit_count = length credits;
      debit_total_cents = amounts debits;
      credit_total_cents = amounts credits;
    }

-- `fileStatusWhere`, of a file and all of its payments.
unfoldable pub has_file_status : Option SubmissionStatus → Db → AchFile → Bool
unfolding some_validated
has_file_status none db f = true
has_file_status (some SubmissionStatus.failed) db f = str_eq f.status "FAILED"
has_file_status (some SubmissionStatus.pending) db f =
    not (str_eq f.status "FAILED") && some_validated (select (belongs none f.id) db.payments)
has_file_status (some SubmissionStatus.submitted) db f =
    not (str_eq f.status "FAILED") && not (some_validated (select (belongs none f.id) db.payments))
