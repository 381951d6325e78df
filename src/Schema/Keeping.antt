-- ===== src/Schema/Keeping.antt =====
-- Transactions that keep the store well formed, from the calls of the client upwards.
mod Combinators
unfoldable pub use Combinators.*
use achflow.Prelude.{
  String, ℕ, suc, Bool, true, false, ◌≡◌, refl, Option, none, some, List, [], ◌∷◌, ◌++◌, subst, ap,
  sym, ◌∙◌, if◌then◌else◌, arith, ◌==◌, find, update,
}
use achflow.Prelude.Int.{ℤ}
use achflow.Schema.Enums.{EntryKey, EventKey, LedgerEntryType, OutboxEventType}
use mathlib.Core.List.{append_assoc}
use achflow.Schema.Rows.{
  LedgerEntry, Payment, Reservation, MerchantDailyUsage, OutboxEvent, Payload, ProcessedBankEvent,
}
use achflow.Schema.Store.{
  Db, Tx, Result, Error, ok, err, pure, throw, gets, or_throw, throw_if, ◌>>=◌, ◌>>◌,
  when◌then◌else◌, either_row,
}
use achflow.Schema.Tables.{
  has_id, update_payments, update_payment, update_events, update_reservation, create_reservation,
  create_entry, create_event, create_bank_event, create_ach_file, save_usage, usage_rows,
}
use achflow.Schema.Ids.{Below, Below-mono, update-Below, find-update_any, WellFormed}

pub same_rows :
    (db db' : Db)
    → (WellFormed db → WellFormed db')
    → db'.ledger_entries ≡ db.ledger_entries
    → db'.payments ≡ db.payments
    → Kept db db'
same_rows db db' o e p = record {
  ordered = o;
  entries = ([], e);
  payments = λ w j x h. (x, rw p h, (refl, refl, refl, refl, refl, refl));
}

stamped : (Payment → Payment) → Db → Payment → Payment
stamped f db x = record (f x) { updated_at = db.clock }

changed_payments :
    (db db' : Db) (q : Payment → Bool) (f : Payment → Payment)
    → ((x : Payment) → SameTerms x (f x))
    → db' ≡ record db { payments = update q (stamped f db) db.payments }
    → Kept db db'
unfolding stamped
changed_payments db db' q f k e = rw e (record {
  ordered = λ w. record {
    payments_below =
        update-Below Payment.id db.next_id q (stamped f db) db.payments (λ x. (k x).0)
          w.payments_below;
    reservations_below = w.reservations_below;
    usage_below = w.usage_below;
    events_below = w.events_below;
  };
  entries = ([], refl);
  payments = λ w j x h. (
    (if q x then stamped f db x else x),
    find-update_any (has_id j) q (stamped f db) db.payments x (λ y. ground (arith, k y)) h,
    ground (arith, k x),
  );
})

pub update_payments-Keeps :
    (p : Payment → Bool) (f : Payment → Payment)
    → ((x : Payment) → SameTerms x (f x))
    → Keeps (update_payments p f)
unfolding update_payments stamped
update_payments-Keeps p f k = record {
  apply = λ db db' b h. changed_payments db db' p f k (ground arith);
}

pub update_payment-Keeps :
    (i : ℕ) (f : Payment → Payment)
    → ((x : Payment) → SameTerms x (f x))
    → Keeps (update_payment i f)
unfolding update_payment stamped
update_payment-Keeps i f k = record {
  apply = λ db db' b h. changed_payments db db' (has_id i) f k (ground arith);
}

pub update_events-Keeps :
    (p : OutboxEvent → Bool) (f : OutboxEvent → OutboxEvent)
    → ((x : OutboxEvent) → OutboxEvent.id (f x) ≡ x.id)
    → Keeps (update_events p f)
unfolding update_events
update_events-Keeps p f k = record {
  apply = λ db db' b h.
      same_rows db db'
        (λ w.
          ground
            (arith, update-Below OutboxEvent.id db.next_id p f db.outbox_events k w.events_below))
        (ground arith) (ground arith);
}

pub update_reservation-Keeps :
    (i : ℕ) (f : Reservation → Reservation)
    → ((x : Reservation) → Reservation.id (f x) ≡ x.id)
    → Keeps (update_reservation i f)
unfolding update_reservation
update_reservation-Keeps i f k = record {
  apply = λ db db' b h.
      same_rows db db'
        (λ w. ground (
          arith,
          update-Below Reservation.id db.next_id (λ r. r.id == i) f db.reservations k
              w.reservations_below,
        ))
        (ground arith) (ground arith);
}

-- The supply may grow.
pub grow : (db : Db) → WellFormed db → WellFormed (record db { next_id = suc db.next_id })
grow db w = record {
  payments_below =
      Below-mono Payment.id db.next_id (suc db.next_id) db.payments (omega arith) w.payments_below;
  reservations_below =
      Below-mono Reservation.id db.next_id (suc db.next_id) db.reservations (omega arith)
        w.reservations_below;
  usage_below =
      Below-mono MerchantDailyUsage.id db.next_id (suc db.next_id) db.daily_usage (omega arith)
        w.usage_below;
  events_below =
      Below-mono OutboxEvent.id db.next_id (suc db.next_id) db.outbox_events (omega arith)
        w.events_below;
}

pub create_reservation-Keeps :
    (payment account : ℕ) (amount : ℤ) → Keeps (create_reservation payment account amount)
unfolding create_reservation
create_reservation-Keeps payment account amount = record {
  apply =
      λ db db' b h. same_rows db db' (λ w. ground (arith, grow db w)) (ground arith) (ground arith);
}

pub create_entry-Keeps :
    (key : EntryKey) (account : ℕ) (payment : Option ℕ) (type : LedgerEntryType) (amount : ℤ)
    → Keeps (create_entry key account payment type amount)
unfolding create_entry
create_entry-Keeps key account payment type amount = record {
  apply = λ db db' b h. record {
    ordered = λ w. ground (arith, grow db w);
    entries = (b ∷ [], ground arith);
    payments = λ w j x e. (x, ground arith, (refl, refl, refl, refl, refl, refl));
  };
}

pub create_event-Keeps :
    (key : EventKey) (type : OutboxEventType) (aggregate : ℕ) (payload : Payload)
    → Keeps (create_event key type aggregate payload)
unfolding create_event
create_event-Keeps key type aggregate payload = record {
  apply =
      λ db db' b h. same_rows db db' (λ w. ground (arith, grow db w)) (ground arith) (ground arith);
}

pub create_bank_event-Keeps : (e : ProcessedBankEvent) → Keeps (create_bank_event e)
unfolding create_bank_event
create_bank_event-Keeps e = record {
  apply = λ db db' b h. same_rows db db' (λ w. ground arith) (ground arith) (ground arith);
}

pub create_ach_file-Keeps :
    (company date : ℕ) (status : String) (entries : ℕ) (debit credit : ℤ)
    → Keeps (create_ach_file company date status entries debit credit)
unfolding create_ach_file
create_ach_file-Keeps company date status entries debit credit = record {
  apply =
      λ db db' b h. same_rows db db' (λ w. ground (arith, grow db w)) (ground arith) (ground arith);
}

usage_rows-Below :
    (u : Option MerchantDailyUsage) (m d : ℕ) (amount : ℤ) (n : ℕ) (rows : List MerchantDailyUsage)
    → Below MerchantDailyUsage.id n rows
    → Below MerchantDailyUsage.id (suc n) (usage_rows u m d amount n rows)
unfolding usage_rows
usage_rows-Below none m d amount n rows b = (omega arith, b)
usage_rows-Below (some u) m d amount n rows b =
    update-Below MerchantDailyUsage.id (suc n) (λ v. v.id == u.id)
      (λ v. record v { utilized_amount = amount }) rows (λ x. refl)
      (Below-mono MerchantDailyUsage.id n (suc n) rows (omega arith) b)

pub save_usage-Keeps :
    (u : Option MerchantDailyUsage) (m d : ℕ) (amount : ℤ) → Keeps (save_usage u m d amount)
unfolding save_usage
save_usage-Keeps u m d amount = record {
  apply = λ db db' b h.
      same_rows db db'
        (λ w.
          ground (
            arith,
            grow db w,
            usage_rows-Below u m d amount db.next_id db.daily_usage w.usage_below,
          ))
        (ground arith) (ground arith);
}

pub ruleset keeping = (
  bind-Keeps, then-Keeps, either-Keeps, pure-Keeps, throw-Keeps, gets-Keeps, or_throw-Keeps,
  when-Keeps, throw_if-Keeps, update_payments-Keeps, update_payment-Keeps, update_events-Keeps,
  update_reservation-Keeps, create_reservation-Keeps, create_entry-Keeps, create_event-Keeps,
  create_bank_event-Keeps, save_usage-Keeps, create_ach_file-Keeps,
)
