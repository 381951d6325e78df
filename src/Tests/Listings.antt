-- ===== src/Tests/Listings.antt =====
-- Instances of the theorems on the listings.
use achflow.Prelude.{
  find, List, ◌≤◌, ◌≡◌, refl, String, Bool, true, false, none, some, [], ◌∷◌, length, select, All,
  arith,
}
use achflow.Prelude.Int.{ℤ, pos, ◌+ℤ◌}
use achflow.Schema.{
  Db, LedgerEntry, LedgerEntryType, Payment, PaymentStatus, PaymentDirection, status_discrete,
  direction_discrete, other_key, ok, err, entry_type_discrete,
}
use achflow.Ledger.{posted_balance}
use achflow.Listing.Ranges.{Range, ledger_date_range, payment_date_range, given_range}
use achflow.Listing.Pages.{page_rows, slice, skip}
use achflow.Ledger.Listing.{
  ListLedgerQueryDto, LedgerSort, is_listed, amount_where, insert_entry, in_time, ledger_rows,
}
use achflow.Ledger.Totals.{
  LedgerListing, list_for_scope, sort_ledger_rows, insert_row, compare_rows, credit_total,
  debit_total, reserved_of,
}
use achflow.Ledger.Running.{running_at, last_running}
use achflow.Ledger.Shown.{IsShown, Picked}
use achflow.Ledger.Listed.{impacts, listing_totals}
use achflow.Merchants.Details.{AccountBalance, funding}
use achflow.Merchants.Balances.{IsBalance, total_of, funding_balances}
use achflow.Dashboard.Volume.{sum_of_amounts, is_financial_amount, get_dashboard}
use achflow.Dashboard.Week.{total_count, total_amount, week_of, week_volume}
use achflow.Payments.Listing.{
  ListPaymentsQueryDto, PaymentSort, PaymentListing, is_listed_payment, is_up_to, insert_payment,
  order_payments, list_payments,
}
use achflow.Payments.Listed.{IsShown as IsShownPayment, listed_page}
use achflow.Tests.Sample.{store, payment}

abbrev debit : LedgerEntry
debit = record {
  id = 4;
  entry_key = other_key 4;
  funding_account_id = 2;
  payment_id = none;
  entry_type = LedgerEntryType.debit_posted;
  amount = pos 250;
  created_at = 5;
}

abbrev other : LedgerEntry
other = record {
  id = 5;
  entry_key = other_key 5;
  funding_account_id = 9;
  payment_id = none;
  entry_type = LedgerEntryType.credit_posted;
  amount = pos 70;
  created_at = 6;
}

abbrev opening : LedgerEntry
opening = record {
  id = 3;
  entry_key = other_key 3;
  funding_account_id = 2;
  payment_id = none;
  entry_type = LedgerEntryType.initial_credit;
  amount = pos 10000;
  created_at = 0;
}

abbrev ledger_store : Db
ledger_store = record store { ledger_entries = other ∷ debit ∷ opening ∷ [] }

last_running_example :
    running_at 1 (ledger_rows (λ i. pos 0) (in_time ledger_store.ledger_entries))
    ≡ some (posted_balance 2 ledger_store)
unfolding in_time insert_entry
last_running_example = last_running ledger_store (opening ∷ []) (other ∷ []) debit refl (refl, tt)

abbrev query : ListLedgerQueryDto
query = record {
  dates = record { start_date = some 0; end_date = some 100; date_range = none };
  entry_type = none;
  min_amount_cents = none;
  max_amount_cents = some (pos 9000);
  sort_by = LedgerSort.by_amount_cents;
  ascending = true;
  page = none;
  page_size = some 10;
}

abbrev locale : String → String → ℤ
locale s t = pos 0

abbrev matches : LedgerEntry → Bool
matches e = true

-- Names what the listing computes through.
unfoldable listing : Unit {0}
unfolding list_for_scope sort_ledger_rows insert_row compare_rows credit_total debit_total
    reserved_of slice skip ledger_date_range given_range is_listed amount_where in_time insert_entry
    ledger_rows select entry_type_discrete ◌+ℤ◌
listing = tt

abbrev listed : LedgerListing
listed = elim (list_for_scope locale matches query (some 1) 50 ledger_store) [
  | ok (l, db) ↦ l
  | err e ↦ record {
    data_rows = [];
    page = 0;
    page_size = 0;
    total = 0;
    pages = 0;
    total_credits_cents = pos 0;
    total_debits_cents = pos 0;
    net_position_cents = pos 0;
    outstanding_reserved_amount_cents = pos 0;
  }
]

listing_totals_example :
    (range : Range) × (ledger_date_range 50 query.dates ≡ ok range)
    × ((chosen : List LedgerEntry) × Picked
          (IsShown matches (some 1) query range ledger_store)
          (other ∷ debit ∷ opening ∷ [])
          chosen
        × (listed.total ≡ length chosen)
        × (listed.net_position_cents ≡ impacts chosen))
unfolding listing find
listing_totals_example =
    listing_totals locale matches query (some 1) 50 ledger_store ledger_store listed refl

abbrev payments_query : ListPaymentsQueryDto
payments_query = record {
  dates = record { start_date = none; end_date = none; date_range = none };
  status = some PaymentStatus.submitted;
  direction = none;
  sort_by = some PaymentSort.by_amount_cents;
  ascending = false;
  page = none;
  page_size = none;
  limit = some 1;
}

abbrev any_payment : Payment → Bool
any_payment p = true

-- Names what the listing of payments computes through.
unfoldable paging : Unit {0}
unfolding list_payments payment_date_range given_range is_listed_payment order_payments
    insert_payment is_up_to page_rows skip select status_discrete direction_discrete
paging = tt

abbrev page : PaymentListing
page = record {
  data_rows = payment 10 PaymentDirection.credit PaymentStatus.submitted 4000 ∷ [];
  page = 1;
  page_size = 1;
  total = 2;
  pages = 2;
}

listed_page_example :
    (range : Range) × (payment_date_range 100000000 payments_query.dates ≡ ok range)
    × All (IsShownPayment (some 1) payments_query range) page.data_rows
    × (1 ≤ 1)
    × (2
        ≡ length
            (select (is_listed_payment any_payment (some 1) payments_query range) store.payments))
    × (store ≡ store)
unfolding paging
listed_page_example =
    listed_page any_payment payments_query (some 1) 100000000 store store page refl

funding_balances_example :
    let f = funding 1 ledger_store in
    All (IsBalance ledger_store) f.accounts
    × (f.posted_balance_cents ≡ total_of AccountBalance.posted_balance_cents f.accounts)
    × (f.reserved_balance_cents ≡ total_of AccountBalance.reserved_balance_cents f.accounts)
    × (f.available_balance_cents ≡ total_of AccountBalance.available_balance_cents f.accounts)
funding_balances_example = funding_balances 1 ledger_store

week_volume_example :
    let d = get_dashboard (some 1) 600000000 store in
    (total_count d.daily_volume ≡ length (week_of (some 1) 600000000 store))
    × (total_amount d.daily_volume
        ≡ sum_of_amounts (select is_financial_amount (week_of (some 1) 600000000 store)))
week_volume_example = week_volume (some 1) 600000000 store (omega arith)
