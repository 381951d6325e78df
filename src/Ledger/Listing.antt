-- ===== src/Ledger/Listing.antt =====
-- `listForScope` of the API's ledger/ledger.service.ts. What the database finds by a search text, and
-- the sign that `localeCompare` gives of two texts, are arguments; times are compared in place of
-- their ISO texts. The payment and the reservation that a row shows beside its entry are left out.
use achflow.Prelude.{
  ℕ, Bool, true, false, ◌&&◌, ◌||◌, Option, none, some, List, [], ◌∷◌, find, ◌==◌, ltb, leb,
  if◌then◌else◌, same,
}
use achflow.Prelude.Int.{ℤ, pos, ◌+ℤ◌, leb_ℤ}
use achflow.Schema.{Db, LedgerEntry, LedgerEntryType, FundingAccount, entry_type_discrete}
use achflow.Ledger.{entry_impact}
use achflow.Listing.Ranges.{DateQuery, Range, in_range}

pub data LedgerSort : Type 0 where
  by_created_at by_amount_cents by_entry_type by_merchant : LedgerSort

-- The search text is an argument of the listing.
pub record ListLedgerQueryDto : Type 0 where
  pub dates : DateQuery
  pub entry_type : Option LedgerEntryType
  pub min_amount_cents : Option ℤ
  pub max_amount_cents : Option ℤ
  pub sort_by : LedgerSort
  pub ascending : Bool
  pub page : Option ℕ
  pub page_size : Option ℕ

abbrev pub account_of : LedgerEntry → Db → Option FundingAccount
account_of e db = find (λ a. a.id == e.funding_account_id) db.funding_accounts

-- `fundingAccount: { is: { merchantId } }`
abbrev pub of_scope : (scope : Option ℕ) → Db → LedgerEntry → Bool
of_scope none db e = true
of_scope (some m) db e = elim (account_of e db) [ none ↦ false | some a ↦ a.merchant_id == m ]

-- The two conditions on the amount are spread into one object, where the second replaces the first.
unfoldable pub amount_where : (minimum maximum : Option ℤ) → ℤ → Bool
amount_where minimum (some hi) a = leb_ℤ a hi
amount_where (some lo) none a = leb_ℤ lo a
amount_where none none a = true

abbrev pub type_where : Option LedgerEntryType → LedgerEntryType → Bool
type_where none t = true
type_where (some wanted) t = same (entry_type_discrete t wanted)

unfoldable pub is_listed :
    (matches : LedgerEntry → Bool)
    → (scope : Option ℕ) → ListLedgerQueryDto
    → Range
    → Db
    → LedgerEntry
    → Bool
unfolding amount_where
is_listed matches scope query range db e =
    of_scope scope db e
    && type_where query.entry_type e.entry_type
    && amount_where query.min_amount_cents query.max_amount_cents e.amount
    && in_range range e.created_at
    && matches e

-- `orderBy: [{ createdAt: 'asc' }, { id: 'asc' }]`
abbrev pub is_earlier : LedgerEntry → LedgerEntry → Bool
is_earlier x y = ltb x.created_at y.created_at || x.created_at == y.created_at && leb x.id y.id

unfoldable pub insert_entry : LedgerEntry → List LedgerEntry → List LedgerEntry
insert_entry e [] = e ∷ []
insert_entry e (x ∷ xs) = if is_earlier e x then e ∷ x ∷ xs else x ∷ insert_entry e xs

unfoldable pub in_time : List LedgerEntry → List LedgerEntry
unfolding insert_entry
in_time [] = []
in_time (e ∷ es) = insert_entry e (in_time es)

-- `creditEntryTypes`
abbrev pub is_credit_type : LedgerEntryType → Bool
is_credit_type LedgerEntryType.initial_credit = true
is_credit_type LedgerEntryType.credit_posted = true
is_credit_type LedgerEntryType.return = true
is_credit_type LedgerEntryType.reversal = true
is_credit_type LedgerEntryType.adjustment = true
is_credit_type LedgerEntryType.debit_posted = false
is_credit_type LedgerEntryType.reservation = false
is_credit_type LedgerEntryType.reservation_release = false
is_credit_type LedgerEntryType.settlement = false

abbrev pub is_debit_type : LedgerEntryType → Bool
is_debit_type t = same (entry_type_discrete t LedgerEntryType.debit_posted)

pub record LedgerRow : Type 0 where
  pub entry : LedgerEntry
  pub debit_amount_cents : ℤ
  pub credit_amount_cents : ℤ
  pub balance_impact_cents : ℤ
  pub running_balance_cents : ℤ

-- `balancesByFundingAccount.get(…) ?? BigInt(0)` and `set`.
abbrev pub set_balance : (account : ℕ) → ℤ → (ℕ → ℤ) → ℕ → ℤ
set_balance account value balances i = if i == account then value else balances i

-- `entries.map(…)`, with the map of balances as it is before the first of them.
unfoldable pub ledger_rows : (balances : ℕ → ℤ) → List LedgerEntry → List LedgerRow
unfolding entry_impact
ledger_rows balances [] = []
ledger_rows balances (e ∷ es) =
    let impact = entry_impact e.entry_type e.amount in
    let running_balance = balances e.funding_account_id +ℤ impact in
    record {
      entry = e;
      debit_amount_cents = if is_debit_type e.entry_type then e.amount else pos 0;
      credit_amount_cents = if is_credit_type e.entry_type then e.amount else pos 0;
      balance_impact_cents = impact;
      running_balance_cents = running_balance;
    }
    ∷ ledger_rows (set_balance e.funding_account_id running_balance balances) es
