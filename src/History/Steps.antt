-- ===== src/History/Steps.antt =====
-- The steps of the store, in whatever order the worker, the API and the clock take them.
use achflow.Prelude.{ℕ, String, ◌≡◌, refl, Option, some, List, ◌++◌}
use achflow.Schema.{
  AchFile, Db, Payment, Reservation, LedgerEntry, ProcessedBankEvent, ok, find_payment,
}
use achflow.Schema.Ids.{WellFormed}
use achflow.Schema.Keeping.{Kept, Kept-refl, Kept-trans, SameTerms}
use achflow.Lifecycle.Transition.{ValidationResult, PaymentForValidation, transition_transaction}
use achflow.Lifecycle.Reserving.{reserve_daily_usage}
use achflow.Lifecycle.Releasing.{release_reservation}
use achflow.Lifecycle.Settling.{settle_reservation}
use achflow.Lifecycle.Returning.{return_settlement}
use achflow.Lifecycle.BankEvents.{process_bank_event}
use achflow.Nacha.Generator.{generate}
use achflow.Engine.Validating.{commit_validated}
use achflow.Engine.Reserving.{reserve}
use achflow.Engine.Settling.{settle}
use achflow.Engine.Returning.{return_settlement as api_return}
use achflow.Payments.Requests.{CreatePaymentRecord}
use achflow.Payments.Creation.{create_with_outbox_and_idempotency}
use achflow.Payments.Adding.{create-Kept}
use achflow.History.Upkeep.{Upkeep, Upkeep-Kept}
use achflow.History.Order.{
  release-Keeps, settle-Keeps, return-Keeps, bank_event-Keeps, transition_transaction-Keeps,
  reserve_daily-Keeps, commit-Keeps, api_reserve-Keeps, api_settle-Keeps, api_return-Keeps,
  generate-Keeps,
}

-- One committed transaction of those that write payments, reservations, ledger entries, daily usage or
-- outbox events, or a creation, a rotation or a change of the status of a merchant, or a tick of the
-- clock. `createWithOutbox` of payments.repository.ts has no caller. A transaction that fails is no
-- step, since it is rolled back.
pub data Step (db db' : Db) : Type 0 where
  ticks : (now : ℕ) → db' ≡ record db { clock = now } → Step db db'
  api_creates :
      (r : CreatePaymentRecord) (key : String) (p : Payment)
      → create_with_outbox_and_idempotency r key db ≡ ok (p, db')
      → Step db db'
  upkeep : Upkeep db db' → Step db db'
  worker_refuses :
      (id : ℕ) (result : ValidationResult) (n : ℕ)
      → transition_transaction id result db ≡ ok (n, db')
      → Step db db'
  worker_reserves :
      (pv : PaymentForValidation) (event : ℕ) (result : ValidationResult)
      → reserve_daily_usage pv event db ≡ ok (result, db')
      → Step db db'
  worker_releases :
      (id : ℕ) (r : Reservation) → release_reservation id db ≡ ok (r, db') → Step db db'
  worker_settles :
      (id : ℕ) (x : Option Reservation) → settle_reservation id db ≡ ok (x, db') → Step db db'
  worker_returns :
      (id : ℕ) (code : String) (x : Option Reservation)
      → return_settlement id code db ≡ ok (x, db')
      → Step db db'
  bank_reports :
      (event stored : ProcessedBankEvent)
      → process_bank_event event db ≡ ok (stored, db')
      → Step db db'
  worker_submits : (date : ℕ) (f : Option AchFile) → generate date db ≡ ok (f, db') → Step db db'
  api_validates : (id : ℕ) (p : Payment) → commit_validated id db ≡ ok (p, db') → Step db db'
  api_reserves : (id : ℕ) (x : Option Reservation) → reserve id db ≡ ok (x, db') → Step db db'
  api_settles : (id : ℕ) (x : Option Reservation) → settle id db ≡ ok (x, db') → Step db db'
  api_returns :
      (id : ℕ) (code : String) (x : Option Reservation)
      → api_return id code db ≡ ok (x, db')
      → Step db db'

pub data Reach (db : Db) : Db → Type 0 where
  here : Reach db db
  next : {db1 db2 : Db} → Reach db db1 → Step db1 db2 → Reach db db2

pub ticks-Kept : (db : Db) (now : ℕ) → Kept db (record db { clock = now })
ticks-Kept db now = record {
  ordered = λ w. record {
    payments_below = w.payments_below;
    reservations_below = w.reservations_below;
    usage_below = w.usage_below;
    events_below = w.events_below;
  };
  entries = (List.[], refl);
  payments = λ w j p h. (p, h, (refl, refl, refl, refl, refl, refl));
}

Step-Kept : {db db' : Db} → Step db db' → Kept db db'
Step-Kept {db} {db'} (ticks now e) = rw e (ticks-Kept db now)
Step-Kept {db} {db'} (api_creates r key p e) = create-Kept r key p db db' e
Step-Kept (upkeep u) = Upkeep-Kept u
Step-Kept {db} {db'} (worker_refuses id result n e) =
    (transition_transaction-Keeps id result).apply db db' n e
Step-Kept {db} {db'} (worker_reserves pv event result e) =
    (reserve_daily-Keeps pv event).apply db db' result e
Step-Kept {db} {db'} (worker_releases id r e) = (release-Keeps id).apply db db' r e
Step-Kept {db} {db'} (worker_settles id x e) = (settle-Keeps id).apply db db' x e
Step-Kept {db} {db'} (worker_returns id code x e) = (return-Keeps id code).apply db db' x e
Step-Kept {db} {db'} (bank_reports event stored e) = (bank_event-Keeps event).apply db db' stored e
Step-Kept {db} {db'} (worker_submits date f e) = (generate-Keeps date).apply db db' f e
Step-Kept {db} {db'} (api_validates id p e) = (commit-Keeps id).apply db db' p e
Step-Kept {db} {db'} (api_reserves id x e) = (api_reserve-Keeps id).apply db db' x e
Step-Kept {db} {db'} (api_settles id x e) = (api_settle-Keeps id).apply db db' x e
Step-Kept {db} {db'} (api_returns id code x e) = (api_return-Keeps id code).apply db db' x e

Reach-Kept : {db db' : Db} → Reach db db' → Kept db db'
Reach-Kept {db} here = Kept-refl db db refl
Reach-Kept {db} {db' = db2} (next {db1} r s) = Kept-trans db db1 db2 (Reach-Kept r) (Step-Kept s)

-- Over any history of committed creations, validations, reservations, settlements, returns and
-- releases of payments, generations of files, bank reports, claims, recoveries and marks of outbox
-- events, tests of endpoints, demo fundings, creations, key rotations and status changes of
-- merchants, and ticks of the clock, the ledger only grows: the entries that were there stay, in
-- their order.
pub history_append_only :
    (db db' : Db)
    → Reach db db'
    → (new : List LedgerEntry) × (db'.ledger_entries ≡ new ++ db.ledger_entries)
history_append_only db db' r = (Reach-Kept r).entries

-- Over any history, from a well-formed store, of committed creations, validations, reservations,
-- settlements, returns and releases of payments, generations of files, bank reports, claims,
-- recoveries and marks of outbox events, tests of endpoints, demo fundings, creations, key
-- rotations and status changes of merchants, and ticks of the clock, a payment stays, with its
-- amount, currency, direction, merchant and routing number as they were.
pub history_terms :
    (db db' : Db) (j : ℕ) (p : Payment)
    → WellFormed db
    → Reach db db'
    → find_payment j db ≡ some p
    → (p' : Payment) × (find_payment j db' ≡ some p') × SameTerms p p'
history_terms db db' j p w r e = (Reach-Kept r).payments w j p e

-- Over any history the rows stay in the order of their ids, under the supply of ids.
history-WellFormed : (db db' : Db) → Reach db db' → WellFormed db → WellFormed db'
history-WellFormed db db' r w = (Reach-Kept r).ordered w
