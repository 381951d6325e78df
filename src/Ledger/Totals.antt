-- ===== src/Ledger/Totals.antt =====
-- The answer of `listForScope` of the API's ledger/ledger.service.ts: its rows in the order asked for,
-- the page, and the totals.
use achflow.Prelude.{
  ℕ, ◌*◌, ◌-◌, String, Bool, false, ltb, Option, none, some, List, [], ◌∷◌, length, select, ◌==◌,
  if◌then◌else◌,
}
use achflow.Prelude.Int.{ℤ, pos, negsuc, ◌+ℤ◌, ◌-ℤ◌, leb_ℤ, ltb_ℤ}
use achflow.Schema.{
  Db, LedgerEntry, LedgerEntryType, FundingAccount, ok, err, bad_request, amount_range_invalid, Tx,
  find_merchant,
}
use achflow.Ledger.{sum_active}
use achflow.Listing.Ranges.{ledger_date_range, or_else}
use achflow.Listing.Pages.{slice, total_pages}
use achflow.Ledger.Listing.{
  LedgerSort, ListLedgerQueryDto, LedgerRow, account_of, is_listed, in_time, ledger_rows,
}

abbrev entry_type_text : LedgerEntryType → String
entry_type_text LedgerEntryType.initial_credit = "INITIAL_CREDIT"
entry_type_text LedgerEntryType.credit_posted = "CREDIT_POSTED"
entry_type_text LedgerEntryType.return = "RETURN"
entry_type_text LedgerEntryType.reversal = "REVERSAL"
entry_type_text LedgerEntryType.adjustment = "ADJUSTMENT"
entry_type_text LedgerEntryType.debit_posted = "DEBIT_POSTED"
entry_type_text LedgerEntryType.reservation = "RESERVATION"
entry_type_text LedgerEntryType.reservation_release = "RESERVATION_RELEASE"
entry_type_text LedgerEntryType.settlement = "SETTLEMENT"

-- The code of the merchant of the row's account, which the foreign keys keep in the table.
abbrev row_merchant : Db → LedgerRow → String
row_merchant db r = elim (account_of r.entry db) [
  | none ↦ ""
  | some a ↦ elim (find_merchant a.merchant_id db) [ none ↦ "" | some m ↦ m.merchant_code ]
]

-- The sign of a comparison.
abbrev sign_of : (less more : Bool) → ℤ
sign_of less more = if less then negsuc 0 else if more then pos 1 else pos 0

-- `creditTotalCents` and `debitTotalCents` of the reduction.
unfoldable pub credit_total : List LedgerRow → ℤ
credit_total [] = pos 0
credit_total (r ∷ rs) = r.credit_amount_cents +ℤ credit_total rs

unfoldable pub debit_total : List LedgerRow → ℤ
debit_total [] = pos 0
debit_total (r ∷ rs) = r.debit_amount_cents +ℤ debit_total rs

-- The sum of the active reservations of the accounts.
unfoldable pub reserved_of : List FundingAccount → Db → ℤ
unfolding sum_active
reserved_of [] db = pos 0
reserved_of (a ∷ accounts) db = sum_active a.id db.reservations +ℤ reserved_of accounts db

abbrev accounts_of : (scope : Option ℕ) → Db → List FundingAccount
accounts_of none db = db.funding_accounts
accounts_of (some m) db = select (λ a. a.merchant_id == m) db.funding_accounts

pub record LedgerListing : Type 0 where
  pub data_rows : List LedgerRow
  pub page : ℕ
  pub page_size : ℕ
  pub total : ℕ
  pub pages : ℕ
  pub total_credits_cents : ℤ
  pub total_debits_cents : ℤ
  pub net_position_cents : ℤ
  pub outstanding_reserved_amount_cents : ℤ

module _ (locale_compare : String → String → ℤ) where
  unfoldable pub compare_rows : LedgerSort → Db → LedgerRow → LedgerRow → ℤ
  compare_rows LedgerSort.by_created_at db x y =
      sign_of (ltb x.entry.created_at y.entry.created_at)
        (ltb y.entry.created_at x.entry.created_at)
  compare_rows LedgerSort.by_amount_cents db x y =
      sign_of (ltb_ℤ x.entry.amount y.entry.amount) (ltb_ℤ y.entry.amount x.entry.amount)
  compare_rows LedgerSort.by_entry_type db x y =
      locale_compare (entry_type_text x.entry.entry_type) (entry_type_text y.entry.entry_type)
  compare_rows LedgerSort.by_merchant db x y =
      locale_compare (row_merchant db x) (row_merchant db y)

  -- A row stays before the rows that compare equal.
  abbrev stays_before : LedgerSort → (ascending : Bool) → Db → LedgerRow → LedgerRow → Bool
  stays_before sort ascending db x y =
      if ascending
      then leb_ℤ (compare_rows sort db x y) (pos 0)
      else leb_ℤ (pos 0) (compare_rows sort db x y)

  unfoldable pub insert_row : LedgerSort → Bool → Db → LedgerRow → List LedgerRow → List LedgerRow
  unfolding compare_rows
  insert_row sort ascending db r [] = r ∷ []
  insert_row sort ascending db r (x ∷ xs) =
      if stays_before sort ascending db r x
      then r ∷ x ∷ xs
      else x ∷ insert_row sort ascending db r xs

  -- `sortLedgerRows`, as a stable sort.
  unfoldable pub sort_ledger_rows : LedgerSort → Bool → Db → List LedgerRow → List LedgerRow
  unfolding insert_row
  sort_ledger_rows sort ascending db [] = []
  sort_ledger_rows sort ascending db (r ∷ rs) =
      insert_row sort ascending db r (sort_ledger_rows sort ascending db rs)

  -- `minimum !== null && maximum !== null && minimum > maximum`
  abbrev crossed : Option ℤ → Option ℤ → Bool
  crossed (some lo) (some hi) = ltb_ℤ hi lo
  crossed _ _ = false

  abbrev answer : ListLedgerQueryDto → (scope : Option ℕ) → Db → List LedgerRow → LedgerListing
  answer query scope db rows =
      let page = or_else query.page 1 in
      let page_size = or_else query.page_size 25 in
      record {
        data_rows = slice ((page - 1) * page_size) (page * page_size) rows;
        page = page;
        page_size = page_size;
        total = length rows;
        pages = total_pages (length rows) page_size;
        total_credits_cents = credit_total rows;
        total_debits_cents = debit_total rows;
        net_position_cents = credit_total rows -ℤ debit_total rows;
        outstanding_reserved_amount_cents = reserved_of (accounts_of scope db) db;
      }

  unfoldable pub list_for_scope :
      (matches : LedgerEntry → Bool)
      → ListLedgerQueryDto
      → (scope : Option ℕ) → (now : ℕ) → Tx LedgerListing
  unfolding is_listed in_time ledger_rows sort_ledger_rows credit_total debit_total reserved_of
      slice ledger_date_range
  list_for_scope matches query scope now db = elim (ledger_date_range now query.dates) [
    | err e ↦ err e
    | ok range ↦
        if crossed query.min_amount_cents query.max_amount_cents
        then err (bad_request amount_range_invalid)
        else let entries =
            in_time (select (is_listed matches scope query range db) db.ledger_entries) in
          let rows =
            sort_ledger_rows query.sort_by query.ascending db (ledger_rows (λ i. pos 0) entries) in
          ok (answer query scope db rows, db)
  ]
