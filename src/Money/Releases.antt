-- ===== src/Money/Releases.antt =====
-- The balances after the release of a reservation.
use achflow.Prelude.{ℕ, ◌≡◌, ◌≢◌, some, arith}
use achflow.Prelude.Int.{pos, ◌+ℤ◌, int_laws}
use achflow.Schema.{
  Db, Reservation, ReservationStatus, ok, find_reservation, update_reservation, create_entry,
}
use achflow.Schema.Ids.{WellFormed}
use achflow.Ledger.{posted_balance, active_reserved, sum_entries, entry_impact}
use achflow.Ledger.Sums.{held, sum_active-update}
use achflow.Lifecycle.Releasing.{mark_released, release_reservation}

held-released : (a now : ℕ) (r : Reservation) → held a (mark_released now r) ≡ pos 0
unfolding held
held-released a now r = ground arith

-- The release of a reservation that is not released leaves every posted balance as it is and frees
-- what the reservation held.
pub release-balances :
    (a id : ℕ) (db db' : Db) (r r' : Reservation)
    → WellFormed db
    → find_reservation id db ≡ some r
    → r.status ≢ ReservationStatus.released
    → release_reservation id db ≡ ok (r', db')
    → (posted_balance a db' ≡ posted_balance a db)
      × (active_reserved a db' +ℤ held a r ≡ active_reserved a db)
unfolding release_reservation update_reservation create_entry posted_balance active_reserved
    sum_entries entry_impact
release-balances a id db db' r r' w e s h = grind (
  int_laws,
  held-released a db.clock r,
  sum_active-update a db.next_id id (mark_released db.clock) db.reservations r w.reservations_below
      e,
)
