-- ===== src/Lifecycle/Releasing.antt =====
-- `releaseReservationForPayment` of the worker's payments/payment-lifecycle.repository.ts.
use achflow.Prelude.{ℕ, some, if◌then◌else◌, same}
use achflow.Schema.{
  Reservation, ReservationStatus, reservation_status_discrete, LedgerEntryType, release_key, Tx,
  pure, gets, or_throw, ◌>>=◌, ◌>>◌, when◌then◌else◌, outbox_processing, reservation_not_found,
  find_reservation, update_reservation, create_entry,
}

-- `{ status: RELEASED, releasedAt: new Date() }`
abbrev pub mark_released : ℕ → Reservation → Reservation
mark_released now r = record r { status = ReservationStatus.released; released_at = some now }

release_held : ℕ → Reservation → Tx Reservation
release_held id r =
    when same (reservation_status_discrete r.status ReservationStatus.released) then pure r else do
      now ← gets (λ db. db.clock)
      released ← update_reservation r.id (mark_released now)
      create_entry (release_key id) released.funding_account_id (some released.payment_id)
          LedgerEntryType.reservation_release released.amount
      pure released

unfoldable pub release_reservation : ℕ → Tx Reservation
unfolding release_held
release_reservation id = do
  found ← gets (find_reservation id)
  r ← or_throw found (outbox_processing reservation_not_found)
  release_held id r
