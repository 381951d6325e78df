-- ===== src/Ledger/Listed.antt =====
-- The totals of a listing against the entries it lists: `listForScope` of the API's
-- ledger/ledger.service.ts, whatever the order asked for.
use achflow.Prelude.{
  ℕ, suc, ◌≡◌, ◌∙◌, refl, String, Bool, Option, List, [], ◌∷◌, length, select, arith, if◌then◌else◌,
}
use achflow.Prelude.Int.{ℤ, pos, ◌+ℤ◌, ◌-ℤ◌, int_laws}
use achflow.Schema.{Db, LedgerEntry, LedgerEntryType, Result, ok, err, entry_type_discrete}
use achflow.Ledger.{entry_impact}
use achflow.Listing.Ranges.{Range, ledger_date_range}
use achflow.Ledger.Listing.{
  LedgerSort, ListLedgerQueryDto, LedgerRow, is_listed, is_credit_type, is_debit_type, insert_entry,
  in_time, ledger_rows, set_balance,
}
use achflow.Ledger.Shown.{IsShown, Picked, listed-Picked}
use achflow.Ledger.Totals.{
  LedgerListing, credit_total, debit_total, insert_row, sort_ledger_rows, list_for_scope,
}

-- What entries do to the balances of their accounts.
unfoldable pub impacts : List LedgerEntry → ℤ
impacts [] = pos 0
impacts (e ∷ es) = entry_impact e.entry_type e.amount +ℤ impacts es

impacts-insert :
    (e : LedgerEntry) (es : List LedgerEntry) → impacts (insert_entry e es) ≡ impacts (e ∷ es)
unfolding impacts insert_entry
impacts-insert e [] = refl
impacts-insert e (x ∷ es) = grind (int_laws, impacts-insert e es)

impacts-in_time : (es : List LedgerEntry) → impacts (in_time es) ≡ impacts es
unfolding impacts in_time
impacts-in_time [] = refl
impacts-in_time (e ∷ es) = grind (int_laws, impacts-insert e (in_time es), impacts-in_time es)

length-insert :
    (e : LedgerEntry) (es : List LedgerEntry) → length (insert_entry e es) ≡ suc (length es)
unfolding insert_entry
length-insert e [] = refl
length-insert e (x ∷ es) = ground (arith, length-insert e es)

length-in_time : (es : List LedgerEntry) → length (in_time es) ≡ length es
unfolding in_time
length-in_time [] = refl
length-in_time (e ∷ es) = ground (arith, length-insert e (in_time es), length-in_time es)

-- The map of balances after an entry.
abbrev after_entry : (ℕ → ℤ) → LedgerEntry → ℕ → ℤ
after_entry balances e =
    set_balance e.funding_account_id
      (balances e.funding_account_id +ℤ entry_impact e.entry_type e.amount) balances

length-rows :
    (balances : ℕ → ℤ) (es : List LedgerEntry) → length (ledger_rows balances es) ≡ length es
unfolding ledger_rows
length-rows balances [] = refl
length-rows balances (e ∷ es) = ground (arith, length-rows (after_entry balances e) es)

-- An amount is in the column that its impact says.
column :
    (t : LedgerEntryType) (a : ℤ)
    → (if is_credit_type t then a else pos 0) -ℤ (if is_debit_type t then a else pos 0)
      ≡ entry_impact t a
unfolding entry_impact entry_type_discrete
column LedgerEntryType.initial_credit a = grind int_laws
column LedgerEntryType.credit_posted a = grind int_laws
column LedgerEntryType.return a = grind int_laws
column LedgerEntryType.reversal a = grind int_laws
column LedgerEntryType.adjustment a = grind int_laws
column LedgerEntryType.debit_posted a = grind int_laws
column LedgerEntryType.reservation a = grind int_laws
column LedgerEntryType.reservation_release a = grind int_laws
column LedgerEntryType.settlement a = grind int_laws

net-rows :
    (balances : ℕ → ℤ) (es : List LedgerEntry)
    → credit_total (ledger_rows balances es) -ℤ debit_total (ledger_rows balances es) ≡ impacts es
unfolding ledger_rows credit_total debit_total impacts
net-rows balances [] = grind int_laws
net-rows balances (e ∷ es) =
    grind (int_laws, column e.entry_type e.amount, net-rows (after_entry balances e) es)

module _ (locale : String → String → ℤ) (sort : LedgerSort) (ascending : Bool) (db : Db) where
  totals-insert :
      (r : LedgerRow) (rs : List LedgerRow)
      → let inserted = insert_row locale sort ascending db r rs in
        (credit_total inserted ≡ credit_total (r ∷ rs))
        × (debit_total inserted ≡ debit_total (r ∷ rs))
        × (length inserted ≡ suc (length rs))
  unfolding insert_row credit_total debit_total
  totals-insert r [] = (refl, refl, refl)
  totals-insert r (x ∷ rs) =
      let (c, d, l) = totals-insert r rs in
      (grind (int_laws, c), grind (int_laws, d), ground (arith, l))

  totals-sort :
      (rs : List LedgerRow)
      → let sorted = sort_ledger_rows locale sort ascending db rs in
        (credit_total sorted ≡ credit_total rs)
        × (debit_total sorted ≡ debit_total rs)
        × (length sorted ≡ length rs)
  unfolding sort_ledger_rows credit_total debit_total
  totals-sort [] = (refl, refl, refl)
  totals-sort (r ∷ rs) =
      let (c, d, l) = totals-sort rs in
      let (ci, di, li) = totals-insert r (sort_ledger_rows locale sort ascending db rs) in
      (grind (int_laws, c, ci), grind (int_laws, d, di), ground (arith, l, li))

-- Whatever the order asked for, the total of a listing of the ledger is the number of the entries
-- that are of an account of the merchant that asks (of any account for an administrator), of the
-- type asked for, in the range of dates, found by the search, and up to the maximum amount, or
-- without a maximum from the minimum up, since a minimum beside a maximum is not looked at; and the
-- net position is the sum of what these entries do to the balances.
pub listing_totals :
    (locale : String → String → ℤ) (matches : LedgerEntry → Bool) (query : ListLedgerQueryDto)
    (scope : Option ℕ) (now : ℕ) (db db' : Db) (l : LedgerListing)
    → list_for_scope locale matches query scope now db ≡ ok (l, db')
    → (range : Range) × (ledger_date_range now query.dates ≡ ok range)
      × ((listed : List LedgerEntry) × Picked
            (IsShown matches scope query range db)
            db.ledger_entries
            listed
          × (l.total ≡ length listed)
          × (l.net_position_cents ≡ impacts listed))
unfolding list_for_scope
listing_totals locale matches query scope now db db' l h =
    go (ledger_date_range now query.dates) refl
  where
    go :
        (r : Result Range)
        → ledger_date_range now query.dates ≡ r
        → (range : Range) × (ledger_date_range now query.dates ≡ ok range)
          × ((listed : List LedgerEntry) × Picked
                (IsShown matches scope query range db)
                db.ledger_entries
                listed
              × (l.total ≡ length listed)
              × (l.net_position_cents ≡ impacts listed))
    go (err x) e = absurd (ground (arith, e, h))
    go (ok range) e =
        let listed = select (is_listed matches scope query range db) db.ledger_entries in
        let rows = ledger_rows (λ i. pos 0) (in_time listed) in
        let (c, d, n) = totals-sort locale query.sort_by query.ascending db rows in
        let net = net-rows (λ i. pos 0) (in_time listed) in
        let sorted = sort_ledger_rows locale query.sort_by query.ascending db rows in
        let counted : l.total ≡ length sorted = ground (arith, e, h) in
        let balanced : l.net_position_cents ≡ credit_total sorted -ℤ debit_total sorted =
          ground (arith, e, h) in
        (
          range,
          e,
          (
            listed,
            listed-Picked matches scope query range db db.ledger_entries,
            omega (
              arith,
              counted,
              n,
              length-rows (λ i. pos 0) (in_time listed),
              length-in_time listed,
            ),
            rw (balanced, c, d) (net ∙ impacts-in_time listed),
          ),
        )
