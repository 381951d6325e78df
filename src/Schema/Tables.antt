-- ===== src/Schema/Tables.antt =====
-- The calls of the Prisma client that the code makes, each on its table.
use achflow.Prelude.{
  ℕ, suc, String, Bool, ◌&&◌, Option, none, some, List, ◌∷◌, ◌==◌, str_eq, same, find, update,
  count,
}
use achflow.Prelude.Int.{ℤ}
use achflow.Schema.Enums.{
  EntryKey, EventKey, LedgerEntryType, ReservationStatus, OutboxEventStatus, OutboxEventType,
  entry_key_discrete, event_key_discrete,
}
use achflow.Schema.Rows.{
  Merchant, FundingAccount, LedgerEntry, Reservation, MerchantDailyUsage, Payment, Payload,
  ProcessedBankEvent, OutboxEvent, AchFile,
}
use achflow.Schema.Store.{Db, Tx, ok, err, unique_constraint, record_missing}

abbrev pub has_id : ℕ → Payment → Bool
has_id i p = p.id == i

abbrev pub for_payment : ℕ → Reservation → Bool
for_payment i r = r.payment_id == i

abbrev pub has_key : EntryKey → LedgerEntry → Bool
has_key k e = same (entry_key_discrete e.entry_key k)

abbrev pub has_event_key : EventKey → OutboxEvent → Bool
has_event_key k e = same (event_key_discrete e.event_key k)

-- `payment.findUnique({ where: { id } })`
abbrev pub find_payment : ℕ → Db → Option Payment
find_payment i db = find (has_id i) db.payments

abbrev pub find_merchant : ℕ → Db → Option Merchant
find_merchant i db = find (λ m. m.id == i) db.merchants

-- `reservation.findUnique({ where: { paymentId } })`
abbrev pub find_reservation : ℕ → Db → Option Reservation
find_reservation i db = find (for_payment i) db.reservations

-- `ledgerEntry.findUnique({ where: { entryKey } })`
abbrev pub find_entry : EntryKey → Db → Option LedgerEntry
find_entry k db = find (has_key k) db.ledger_entries

-- `fundingAccount.findUnique({ where: { merchantId_currency } })`
abbrev pub find_account : ℕ → String → Db → Option FundingAccount
find_account m c db = find (λ a. a.merchant_id == m && str_eq a.currency c) db.funding_accounts

-- `merchantDailyUsage.findUnique({ where: { merchantId_businessDate } })`
abbrev pub find_usage : ℕ → ℕ → Db → Option MerchantDailyUsage
find_usage m d db = find (λ u. u.merchant_id == m && u.business_date == d) db.daily_usage

abbrev pub find_bank_event : ℕ → Db → Option ProcessedBankEvent
find_bank_event b db = find (λ e. e.bank_event_id == b) db.bank_events

-- `payment.updateMany`, which also stamps `updatedAt`.
unfoldable pub update_payments : (Payment → Bool) → (Payment → Payment) → Tx ℕ
update_payments p f db = ok (
  count p db.payments,
  record db { payments = update p (λ x. record (f x) { updated_at = db.clock }) db.payments },
)

-- `payment.update({ where: { id } })`, which returns the new row.
unfoldable pub update_payment : ℕ → (Payment → Payment) → Tx Payment
update_payment i f db =
    let g : Payment → Payment = λ x. record (f x) { updated_at = db.clock } in
    elim (find (has_id i) db.payments) [
      | none ↦ err record_missing
      | some x ↦ ok (g x, record db { payments = update (has_id i) g db.payments })
    ]

unfoldable pub update_events : (OutboxEvent → Bool) → (OutboxEvent → OutboxEvent) → Tx ℕ
update_events p f db =
    ok (count p db.outbox_events, record db { outbox_events = update p f db.outbox_events })

-- `reservation.update({ where: { id } })`, which returns the new row.
unfoldable pub update_reservation : ℕ → (Reservation → Reservation) → Tx Reservation
update_reservation i f db = elim (find (λ r. r.id == i) db.reservations) [
  | none ↦ err record_missing
  | some x ↦ ok (f x, record db { reservations = update (λ r. r.id == i) f db.reservations })
]

unfoldable pub create_reservation : (payment account : ℕ) → ℤ → Tx Reservation
create_reservation payment account amount db =
    let r : Reservation = record {
      id = db.next_id;
      payment_id = payment;
      funding_account_id = account;
      amount = amount;
      status = ReservationStatus.active;
      released_at = none;
      settled_at = none;
      returned_at = none;
      return_code = none;
    } in
    elim (find (for_payment payment) db.reservations) [
      | some _ ↦ err unique_constraint
      | none ↦ ok (r, record db { next_id = suc db.next_id; reservations = r ∷ db.reservations })
    ]

unfoldable pub create_entry :
    EntryKey → (account : ℕ) → (payment : Option ℕ) → LedgerEntryType → ℤ → Tx LedgerEntry
create_entry key account payment type amount db =
    let e : LedgerEntry = record {
      id = db.next_id;
      entry_key = key;
      funding_account_id = account;
      payment_id = payment;
      entry_type = type;
      amount = amount;
      created_at = db.clock;
    } in
    elim (find (has_key key) db.ledger_entries) [
      | some _ ↦ err unique_constraint
      | none ↦
          ok (e, record db { next_id = suc db.next_id; ledger_entries = e ∷ db.ledger_entries })
    ]

unfoldable pub create_bank_event : ProcessedBankEvent → Tx ProcessedBankEvent
create_bank_event e db = elim (find (λ x. x.bank_event_id == e.bank_event_id) db.bank_events) [
  | some _ ↦ err unique_constraint
  | none ↦ ok (e, record db { bank_events = e ∷ db.bank_events })
]

unfoldable pub create_event : EventKey → OutboxEventType → ℕ → Payload → Tx OutboxEvent
create_event key type aggregate payload db =
    let e : OutboxEvent = record {
      id = db.next_id;
      event_key = key;
      event_type = type;
      aggregate_id = aggregate;
      payload = payload;
      status = OutboxEventStatus.pending;
      attempts = 0;
      available_at = db.clock;
      claimed_at = none;
      processed_at = none;
      last_error = none;
      created_at = db.clock;
    } in
    elim (find (has_event_key key) db.outbox_events) [
      | some _ ↦ err unique_constraint
      | none ↦ ok (e, record db { next_id = suc db.next_id; outbox_events = e ∷ db.outbox_events })
    ]

-- The rows after `merchantDailyUsage.update`, or after `create` where `findUnique` gave no row.
unfoldable pub usage_rows :
    Option MerchantDailyUsage
    → (merchant date : ℕ) → ℤ
    → (fresh : ℕ) → List MerchantDailyUsage
    → List MerchantDailyUsage
usage_rows (some u) merchant date amount fresh rows =
    update (λ v. v.id == u.id) (λ v. record v { utilized_amount = amount }) rows
usage_rows none merchant date amount fresh rows =
    record { id = fresh; merchant_id = merchant; business_date = date; utilized_amount = amount }
    ∷ rows

unfoldable pub save_usage : Option MerchantDailyUsage → (merchant date : ℕ) → ℤ → Tx (Unit {0})
save_usage usage merchant date amount db = ok (
  tt,
  record db {
    next_id = suc db.next_id;
    daily_usage = usage_rows usage merchant date amount db.next_id db.daily_usage;
  },
)

-- `achFile.create`
unfoldable pub create_ach_file :
    (company date : ℕ) → (status : String) → (entries : ℕ) → (debit credit : ℤ) → Tx AchFile
create_ach_file company date status entries debit credit db =
    let f : AchFile = record {
      id = db.next_id;
      company_id = company;
      effective_entry_date = date;
      status = status;
      total_entries = entries;
      debit_total_cents = debit;
      credit_total_cents = credit;
      created_at = db.clock;
    } in
    ok (f, record db { next_id = suc db.next_id; ach_files = f ∷ db.ach_files })
