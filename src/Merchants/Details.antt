-- ===== src/Merchants/Details.antt =====
-- `detail` and `row` of the API's admin/admin-merchants.service.ts: the balances and the counts that an
-- administrator reads of a merchant. What the answer copies from the rows is left out.
use achflow.Prelude.{
  ℕ, suc, Bool, ◌||◌, List, [], ◌∷◌, ◌++◌, length, leb, take, select, map, ◌==◌, if◌then◌else◌,
  same,
}
use achflow.Prelude.Int.{ℤ, pos, ◌+ℤ◌, ◌-ℤ◌}
use achflow.Schema.{
  Db, LedgerEntry, LedgerEntryType, FundingAccount, Reservation, ReservationStatus, Payment,
  PaymentStatus, entry_type_discrete, reservation_status_discrete, status_discrete,
}

abbrev pub is_type : LedgerEntryType → LedgerEntry → Bool
is_type t e = same (entry_type_discrete e.entry_type t)

unfoldable pub ledger_balance_impact : LedgerEntry → ℤ
ledger_balance_impact e =
    if is_type LedgerEntryType.debit_posted e
    then pos 0 -ℤ e.amount
    else if is_type LedgerEntryType.initial_credit e
        || is_type LedgerEntryType.credit_posted e
        || is_type LedgerEntryType.return e
        || is_type LedgerEntryType.reversal e
        || is_type LedgerEntryType.adjustment e
    then e.amount
    else pos 0

-- `fundingAccounts: { include: { reservations: true, entries: true } }`
abbrev pub entries_of : Db → FundingAccount → List LedgerEntry
entries_of db a = select (λ e. e.funding_account_id == a.id) db.ledger_entries

abbrev pub reservations_of : Db → FundingAccount → List Reservation
reservations_of db a = select (λ r. r.funding_account_id == a.id) db.reservations

unfoldable pub sum_impacts : List LedgerEntry → ℤ
unfolding ledger_balance_impact
sum_impacts [] = pos 0
sum_impacts (e ∷ es) = ledger_balance_impact e +ℤ sum_impacts es

abbrev pub is_reserved : Reservation → Bool
is_reserved r = same (reservation_status_discrete r.status ReservationStatus.active)

unfoldable pub sum_reserved : List Reservation → ℤ
sum_reserved [] = pos 0
sum_reserved (r ∷ rs) = r.amount +ℤ sum_reserved rs

-- `flatMap`
unfoldable pub flat_map : {A B : Type 0} → (A → List B) → List A → List B
flat_map f [] = []
flat_map f (x ∷ xs) = f x ++ flat_map f xs

pub record AccountBalance : Type 0 where
  pub id : ℕ
  pub posted_balance_cents : ℤ
  pub reserved_balance_cents : ℤ
  pub available_balance_cents : ℤ

unfoldable pub account_balance : Db → FundingAccount → AccountBalance
unfolding sum_impacts sum_reserved
account_balance db a =
    let posted = sum_impacts (entries_of db a) in
    let reserved = sum_reserved (select is_reserved (reservations_of db a)) in
    record {
      id = a.id;
      posted_balance_cents = posted;
      reserved_balance_cents = reserved;
      available_balance_cents = posted -ℤ reserved;
    }

-- The part `funding` of the answer, of the accounts of the merchant.
pub record Funding : Type 0 where
  pub account_count : ℕ
  pub posted_balance_cents : ℤ
  pub reserved_balance_cents : ℤ
  pub available_balance_cents : ℤ
  pub accounts : List AccountBalance

abbrev pub accounts_of_merchant : ℕ → Db → List FundingAccount
accounts_of_merchant m db = select (λ a. a.merchant_id == m) db.funding_accounts

unfoldable pub funding : (merchant : ℕ) → Db → Funding
unfolding account_balance flat_map sum_impacts sum_reserved
funding m db =
    let accounts = accounts_of_merchant m db in
    let posted = sum_impacts (flat_map (entries_of db) accounts) in
    let reserved = sum_reserved (select is_reserved (flat_map (reservations_of db) accounts)) in
    record {
      account_count = length accounts;
      posted_balance_cents = posted;
      reserved_balance_cents = reserved;
      available_balance_cents = posted -ℤ reserved;
      accounts = map (account_balance db) accounts;
    }

-- The volume of `row`, over all the payments of the merchant.
unfoldable pub processed_volume : List Payment → ℤ
processed_volume [] = pos 0
processed_volume (p ∷ ps) =
    (if same (status_discrete p.status PaymentStatus.settled) then p.amount_cents else pos 0)
    +ℤ processed_volume ps

abbrev pub volume_in_row : (merchant : ℕ) → Db → ℤ
volume_in_row m db = processed_volume (select (λ p. p.merchant_id == m) db.payments)

-- `counts[p.status] = (counts[p.status] ?? 0) + 1`
unfoldable pub count_up : PaymentStatus → List (PaymentStatus × ℕ) → List (PaymentStatus × ℕ)
count_up s [] = (s, 1) ∷ []
count_up s ((t, n) ∷ counts) =
    if same (status_discrete t s) then (t, suc n) ∷ counts else (t, n) ∷ count_up s counts

unfoldable pub count_statuses_from :
    List (PaymentStatus × ℕ) → List Payment → List (PaymentStatus × ℕ)
unfolding count_up
count_statuses_from counts [] = counts
count_statuses_from counts (p ∷ ps) = count_statuses_from (count_up p.status counts) ps

abbrev pub count_statuses : List Payment → List (PaymentStatus × ℕ)
count_statuses ps = count_statuses_from [] ps

-- `payments: { orderBy: { createdAt: 'desc' }, take: 10 }`, from which the answer of `details` also
-- has its volume and its counts.
unfoldable pub insert_newest : Payment → List Payment → List Payment
insert_newest p [] = p ∷ []
insert_newest p (x ∷ xs) =
    if leb x.created_at p.created_at then p ∷ x ∷ xs else x ∷ insert_newest p xs

unfoldable pub newest_first : List Payment → List Payment
unfolding insert_newest
newest_first [] = []
newest_first (p ∷ ps) = insert_newest p (newest_first ps)

abbrev pub recent_payments : (merchant : ℕ) → Db → List Payment
recent_payments m db = take 10 (newest_first (select (λ p. p.merchant_id == m) db.payments))

abbrev pub volume_in_detail : (merchant : ℕ) → Db → ℤ
volume_in_detail m db = processed_volume (recent_payments m db)

abbrev pub status_breakdown : (merchant : ℕ) → Db → List (PaymentStatus × ℕ)
status_breakdown m db = count_statuses (recent_payments m db)
