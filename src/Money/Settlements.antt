-- ===== src/Money/Settlements.antt =====
-- The balances after a settlement.
use achflow.Prelude.{ℕ, ◌≡◌, Option, none, some, ◌==◌, if◌then◌else◌, arith}
use achflow.Prelude.Int.{pos, ◌+ℤ◌, ◌-ℤ◌, int_laws}
use achflow.Schema.{
  Db, Payment, PaymentStatus, Reservation, ReservationStatus, FundingAccount, ok, find_reservation,
  find_payment, find_account, update_reservation, update_payments, update_payment, create_entry,
  create_event,
}
use achflow.Schema.Ids.{WellFormed}
use achflow.Events.{create_lifecycle_event}
use achflow.Ledger.{posted_balance, active_reserved, sum_entries, entry_impact}
use achflow.Ledger.Sums.{held, sum_active-update}
use achflow.Lifecycle.Settling.{mark_settled, settle_reservation, settle_active}

held-settled : (a now : ℕ) (r : Reservation) → held a (mark_settled now r) ≡ pos 0
unfolding held
held-settled a now r = ground arith

active-balances :
    (a id : ℕ) (db db' : Db) (r : Reservation) (x : Option Reservation)
    → WellFormed db
    → find_reservation id db ≡ some r
    → settle_active id r db ≡ ok (x, db')
    → (posted_balance a db' ≡ posted_balance a db)
      × (active_reserved a db' +ℤ held a r ≡ active_reserved a db)
unfolding settle_active update_reservation update_payments create_entry create_event
    create_lifecycle_event posted_balance active_reserved sum_entries entry_impact
active-balances a id db db' r x w e h = grind (
  int_laws,
  held-settled a db.clock r,
  sum_active-update a db.next_id id (mark_settled db.clock) db.reservations r w.reservations_below
      e,
)

-- The settlement of a submitted debit subtracts its amount from the posted balance of the
-- merchant's account in its currency, and changes no other balance.
pub debit-balances :
    (a id : ℕ) (db db' : Db) (p : Payment) (account : FundingAccount) (x : Option Reservation)
    → find_reservation id db ≡ none
    → find_payment id db ≡ some p
    → p.status ≡ PaymentStatus.submitted
    → find_account p.merchant_id p.currency db ≡ some account
    → settle_reservation id db ≡ ok (x, db')
    → (posted_balance a db'
        ≡ posted_balance a db -ℤ (if account.id == a then p.amount_cents else pos 0))
      × (active_reserved a db' ≡ active_reserved a db)
unfolding settle_reservation update_payment create_entry create_event create_lifecycle_event
    posted_balance active_reserved sum_entries entry_impact
debit-balances a id db db' p account x e ep s ea h = grind int_laws

held_balances :
    (a id : ℕ) (db db' : Db) (r : Reservation) (x : Option Reservation)
    → r.status ≡ ReservationStatus.active
    → find_reservation id db ≡ some r
    → settle_reservation id db ≡ ok (x, db')
    → settle_active id r db ≡ ok (x, db')
unfolding settle_reservation
held_balances a id db db' r x s e h = ground arith

-- The settlement of an active reservation, of a credit, leaves every posted balance as it is and
-- frees the amount that was held.
pub credit-balances :
    (a id : ℕ) (db db' : Db) (r : Reservation) (x : Option Reservation)
    → WellFormed db
    → find_reservation id db ≡ some r
    → r.status ≡ ReservationStatus.active
    → settle_reservation id db ≡ ok (x, db')
    → (posted_balance a db' ≡ posted_balance a db)
      × (active_reserved a db' +ℤ held a r ≡ active_reserved a db)
credit-balances a id db db' r x w e s h =
    active-balances a id db db' r x w e (held_balances a id db db' r x s e h)
