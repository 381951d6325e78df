-- ===== src/Payments/Adding.antt =====
-- What the creation of a payment leaves: `createWithOutboxAndIdempotency` of the API's
-- payments/payments.repository.ts.
use achflow.Prelude.{ℕ, suc, ◌≡◌, refl, some, none, String, [], ◌∷◌, find, arith}
use achflow.Schema.{
  Db, Payment, PaymentStatus, Reservation, OutboxEvent, MerchantDailyUsage, OutboxEventType,
  OutboxEventStatus, payment_event, lifecycle, ok, has_id, create_event,
}
use achflow.Schema.Ids.{WellFormed, Below-mono, find-lt, find-holds}
use achflow.Schema.Keeping.{Kept}
use achflow.Events.{create_lifecycle_event}
use achflow.Payments.Requests.{CreatePaymentRecord}
use achflow.Payments.Creation.{
  new_payment, create_payment, create_idempotency_record, create_with_outbox_and_idempotency,
}

-- The event of a payment that is created.
abbrev received_event : CreatePaymentRecord → Db → OutboxEvent
received_event r db = record {
  id = suc db.next_id;
  event_key = payment_event db.next_id OutboxEventType.payment_received;
  event_type = OutboxEventType.payment_received;
  aggregate_id = db.next_id;
  payload = lifecycle (record {
    payment_id = db.next_id;
    merchant_id = r.merchant_id;
    payment_status = PaymentStatus.received;
    amount_cents = r.amount_cents;
    currency = r.currency;
    direction = r.direction;
    validation_code = none;
    return_code = none;
    occurred_at = db.clock;
  });
  status = OutboxEventStatus.pending;
  attempts = 0;
  available_at = db.clock;
  claimed_at = none;
  processed_at = none;
  last_error = none;
  created_at = db.clock;
}

pub older :
    (r : CreatePaymentRecord) (j : ℕ) (x : Payment) (db : Db)
    → WellFormed db
    → find (has_id j) db.payments ≡ some x
    → find (has_id j) (new_payment r db ∷ db.payments) ≡ some x
unfolding find
older r j x db w e = ground (
  arith,
  find-lt Payment.id (has_id j) db.next_id db.payments x w.payments_below e,
  find-holds (has_id j) db.payments x e,
  e,
)

module _ (r : CreatePaymentRecord) (key : String) (p : Payment) (db db' : Db) where
  pub created_rows :
      create_with_outbox_and_idempotency r key db ≡ ok (p, db')
      → (db'.payments ≡ new_payment r db ∷ db.payments) × (db'.reservations ≡ db.reservations)
  unfolding create_with_outbox_and_idempotency create_payment create_idempotency_record create_event
      create_lifecycle_event
  created_rows h = (ground arith, ground arith)

  created_events :
      create_with_outbox_and_idempotency r key db ≡ ok (p, db')
      → (db'.next_id ≡ suc (suc (suc db.next_id)))
        × (db'.daily_usage ≡ db.daily_usage)
        × (db'.outbox_events ≡ received_event r db ∷ db.outbox_events)
  unfolding create_with_outbox_and_idempotency create_payment create_idempotency_record create_event
      create_lifecycle_event
  created_events h = (ground arith, ground arith, ground arith)

  pub create-WellFormed :
      WellFormed db → create_with_outbox_and_idempotency r key db ≡ ok (p, db') → WellFormed db'
  create-WellFormed w h =
      let (ps, rs) = created_rows h in
      let (supply, usage, events) = created_events h in
      record {
        payments_below = rw (ps, supply) (omega arith, w.payments_below);
        reservations_below =
            rw (rs, supply)
              (Below-mono Reservation.id db.next_id _ db.reservations (omega arith)
                w.reservations_below);
        usage_below =
            rw (usage, supply)
              (Below-mono MerchantDailyUsage.id db.next_id _ db.daily_usage (omega arith)
                w.usage_below);
        events_below =
            rw (events, supply)
              (
                omega arith,
                Below-mono OutboxEvent.id db.next_id (suc db.next_id) db.outbox_events (omega arith)
                    w.events_below,
              );
      }

  created_entries :
      create_with_outbox_and_idempotency r key db ≡ ok (p, db')
      → db'.ledger_entries ≡ db.ledger_entries
  unfolding create_with_outbox_and_idempotency create_payment create_idempotency_record create_event
      create_lifecycle_event
  created_entries h = ground arith

  pub create-Kept : create_with_outbox_and_idempotency r key db ≡ ok (p, db') → Kept db db'
  create-Kept h = record {
    ordered = λ w. create-WellFormed w h;
    entries = ([], created_entries h);
    payments = λ w j x e.
        (x, rw ((created_rows h).0) (older r j x db w e), (refl, refl, refl, refl, refl, refl));
  }
