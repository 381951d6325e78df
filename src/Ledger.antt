-- ===== src/Ledger.antt =====
-- The balances of a funding account, as the raw SQL of the worker's
-- payments/payment-lifecycle.repository.ts and the API's payments/payment-engine.service.ts sums
-- them, and `entryImpact` of the API's ledger/ledger.service.ts.
pub mod Sums
pub mod Listing
pub mod Totals
pub mod Shown
pub mod Listed
pub mod Running
use achflow.Prelude.{ℕ, Bool, ◌&&◌, List, [], ◌∷◌, ◌==◌, if◌then◌else◌, same}
use achflow.Prelude.Int.{ℤ, pos, ◌+ℤ◌, ◌-ℤ◌}
use achflow.Schema.{
  Db, LedgerEntry, LedgerEntryType, Reservation, ReservationStatus, reservation_status_discrete,
}

-- The `CASE` over the entry type.
unfoldable pub entry_impact : LedgerEntryType → ℤ → ℤ
entry_impact LedgerEntryType.initial_credit a = a
entry_impact LedgerEntryType.credit_posted a = a
entry_impact LedgerEntryType.return a = a
entry_impact LedgerEntryType.reversal a = a
entry_impact LedgerEntryType.adjustment a = a
entry_impact LedgerEntryType.debit_posted a = pos 0 -ℤ a
entry_impact LedgerEntryType.reservation a = pos 0
entry_impact LedgerEntryType.reservation_release a = pos 0
entry_impact LedgerEntryType.settlement a = pos 0

unfoldable pub sum_entries : ℕ → List LedgerEntry → ℤ
sum_entries account [] = pos 0
sum_entries account (e ∷ es) =
    (if e.funding_account_id == account then entry_impact e.entry_type e.amount else pos 0)
    +ℤ sum_entries account es

-- `SELECT COALESCE(SUM(...), 0) FROM "LedgerEntry" WHERE "fundingAccountId" = account`
unfoldable pub posted_balance : ℕ → Db → ℤ
posted_balance account db = sum_entries account db.ledger_entries

abbrev pub is_active : Reservation → Bool
is_active r = same (reservation_status_discrete r.status ReservationStatus.active)

unfoldable pub sum_active : ℕ → List Reservation → ℤ
sum_active account [] = pos 0
sum_active account (r ∷ rs) =
    (if r.funding_account_id == account && is_active r then r.amount else pos 0)
    +ℤ sum_active account rs

-- `reservation.aggregate({ where: { fundingAccountId, status: ACTIVE }, _sum: { amount } })`
unfoldable pub active_reserved : ℕ → Db → ℤ
active_reserved account db = sum_active account db.reservations

unfoldable pub available_balance : ℕ → Db → ℤ
available_balance account db = posted_balance account db -ℤ active_reserved account db
