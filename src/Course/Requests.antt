-- ===== src/Course/Requests.antt =====
-- The requests to the store, each run whole and alone, and the machine that they implement.
use achflow.Prelude.{ℕ, String, ◌≡◌, refl, sym, ap, Option, some, true, subst, arith}
use achflow.Schema.{
  AchFile, Db, Payment, Reservation, ReservationStatus, ProcessedBankEvent, Result, ok,
  find_payment, find_reservation, status_discrete, create_bank_event,
}
use achflow.Schema.Ids.{WellFormed}
use achflow.Lifecycle.Releasing.{release_reservation}
use achflow.Lifecycle.Settling.{settle_reservation}
use achflow.Lifecycle.Returning.{is_returnable, return_settlement}
use achflow.Lifecycle.BankEvents.{process_bank_event}
use achflow.Validation.{validate}
use achflow.Nacha.Generator.{generate}
use achflow.Engine.Validating.{validate as api_validate}
use achflow.Engine.Reserving.{reserve}
use achflow.Engine.Settling.{settle}
use achflow.Engine.Returning.{return_settlement as api_return}
use achflow.Payments.Requests.{CreatePaymentRecord}
use achflow.Payments.Adding.{create-WellFormed}
use achflow.Payments.Creation.{create_with_outbox_and_idempotency}
use achflow.Agreement.Settlement.{committed, settle_agrees}
use achflow.Agreement.Returns.{return_agrees}
use achflow.History.Order.{
  release-Keeps, settle-Keeps, return-Keeps, bank_event-Keeps, transition_transaction-Keeps,
  reserve_daily-Keeps, commit-Keeps, api_reserve-Keeps, api_settle-Keeps, api_return-Keeps,
  generate-Keeps,
}
use achflow.History.Upkeep.{Upkeep, Upkeep-Kept, leaves_payments}
use achflow.History.Steps.{ticks-Kept}
use achflow.Course.Machine.{Coherent}
use achflow.Course.Settling.{Course, Course-same, settle-Course}
use achflow.Course.Returning.{return-Course, release-Course}
use achflow.Course.Validating.{
  validate_ends, validate-Course, api_validate_ends, api_validate-Course, reserve-Course,
}
use achflow.Course.Submitting.{generate-Course, create-Course}

-- A call of the worker or of the API that writes payments, reservations, ledger entries, daily usage
-- or outbox events, a creation, a rotation or a change of the status of a merchant, or a tick of the
-- clock. A validation is the whole call: the read that it goes by, and the transaction. What writes
-- only endpoints, deliveries and runs of the simulator is left out.
pub data Request (db db' : Db) : Type 0 where
  ticks : (now : ℕ) → db' ≡ record db { clock = now } → Request db db'
  upkeep : Upkeep db db' → Request db db'
  api_creates :
      (r : CreatePaymentRecord) (key : String) (p : Payment)
      → create_with_outbox_and_idempotency r key db ≡ ok (p, db')
      → Request db db'
  worker_validates : (id event : ℕ) → db' ≡ (validate id event db).1 → Request db db'
  worker_settles :
      (id : ℕ) (x : Option Reservation) → settle_reservation id db ≡ ok (x, db') → Request db db'
  worker_returns :
      (id : ℕ) (code : String) (x : Option Reservation)
      → return_settlement id code db ≡ ok (x, db')
      → Request db db'
  worker_releases :
      (id : ℕ) (r : Reservation) → release_reservation id db ≡ ok (r, db') → Request db db'
  worker_submits : (date : ℕ) (f : Option AchFile) → generate date db ≡ ok (f, db') → Request db db'
  bank_reports :
      (event stored : ProcessedBankEvent)
      → process_bank_event event db ≡ ok (stored, db')
      → Request db db'
  api_validates : (id : ℕ) → db' ≡ (api_validate id db).1 → Request db db'
  api_reserves : (id : ℕ) (x : Option Reservation) → reserve id db ≡ ok (x, db') → Request db db'
  api_settles : (id : ℕ) (x : Option Reservation) → settle id db ≡ ok (x, db') → Request db db'
  api_returns :
      (id : ℕ) (code : String) (x : Option Reservation)
      → api_return id code db ≡ ok (x, db')
      → Request db db'

-- What the store is like between requests.
pub record Sound (db : Db) : Type 0 where
  pub ordered : WellFormed db
  pub coherent : Coherent db

committed-ok :
    {A : Type 0} (r s : Result A) (a : A) → committed r ≡ committed s → s ≡ ok a → r ≡ ok a
unfolding committed
committed-ok r s a e h = ground arith

-- A settled reservation is of a payment that may be returned.
returnable :
    (id : ℕ) (db : Db) (r : Reservation) (p : Payment)
    → Coherent db
    → find_reservation id db ≡ some r
    → r.status ≡ ReservationStatus.settled
    → find_payment id db ≡ some p
    → is_returnable p.status ≡ true
unfolding status_discrete
returnable id db r p co e s found =
    let (q, same_found, q_settled) = co id r e s in let row : p ≡ q = cc in rw (row, q_settled) refl

-- Between requests the worker and the API return the same payments in the same way.
pub returns_agree :
    (id : ℕ) (code : String) (db : Db)
    → Sound db
    → committed (return_settlement id code db) ≡ committed (api_return id code db)
returns_agree id code db s =
    return_agrees id code db s.ordered
      (λ r p e settled found. returnable id db r p s.coherent e settled found)

bank_event-Course :
    (event stored : ProcessedBankEvent) (db db' : Db)
    → Coherent db
    → process_bank_event event db ≡ ok (stored, db')
    → Course db db'
unfolding process_bank_event create_bank_event
bank_event-Course event stored db db' co h = Course-same db db' co (ground arith) (ground arith)

pub Request-Course : {db db' : Db} → Sound db → Request db db' → Course db db'
Request-Course {db} {db'} s (ticks now e) =
    Course-same db db' s.coherent (ap Db.payments e) (ap Db.reservations e)
Request-Course {db} {db'} s (upkeep u) =
    let (ps, rs) = leaves_payments u in Course-same db db' s.coherent ps rs
Request-Course {db} {db'} s (api_creates r key p e) =
    create-Course r key p db db' s.ordered s.coherent e
Request-Course {db} {db'} s (worker_validates id event e) =
    subst (Course db) (sym e) (validate-Course id event db s.coherent)
Request-Course {db} {db'} s (worker_settles id x e) =
    settle-Course id x db db' s.ordered s.coherent e
Request-Course {db} {db'} s (worker_returns id code x e) =
    return-Course id code x db db' s.ordered s.coherent e
Request-Course {db} {db'} s (worker_releases id r e) =
    release-Course id r db db' s.ordered s.coherent e
Request-Course {db} {db'} s (worker_submits date f e) = generate-Course date f db db' s.coherent e
Request-Course {db} {db'} s (bank_reports event stored e) =
    bank_event-Course event stored db db' s.coherent e
Request-Course {db} {db'} s (api_validates id e) =
    subst (Course db) (sym e) (api_validate-Course id db s.coherent)
Request-Course {db} {db'} s (api_reserves id x e) = reserve-Course id x db db' s.coherent e
Request-Course {db} {db'} s (api_settles id x e) = settle-Course id x db db' s.ordered s.coherent (
    committed-ok (settle_reservation id db) (settle id db) (x, db') (settle_agrees id db s.ordered)
      e)
Request-Course {db} {db'} s (api_returns id code x e) =
    return-Course id code x db db' s.ordered s.coherent (
      committed-ok (return_settlement id code db) (api_return id code db) (x, db')
        (returns_agree id code db s) e)

pub Request-WellFormed : {db db' : Db} → WellFormed db → Request db db' → WellFormed db'
Request-WellFormed {db} {db'} w (ticks now e) = rw e ((ticks-Kept db now).ordered w)
Request-WellFormed w (upkeep u) = (Upkeep-Kept u).ordered w
Request-WellFormed {db} {db'} w (api_creates r key p e) = create-WellFormed r key p db db' w e
Request-WellFormed {db} {db'} w (worker_validates id event e) = subst WellFormed (sym e) (
    validate_ends WellFormed id event db w
      (λ pv result d h. ((reserve_daily-Keeps pv event).apply db d result h).ordered w)
      (λ i result n d _ h. ((transition_transaction-Keeps i result).apply db d n h).ordered w))
Request-WellFormed {db} {db'} w (worker_settles id x e) =
    ((settle-Keeps id).apply db db' x e).ordered w
Request-WellFormed {db} {db'} w (worker_returns id code x e) =
    ((return-Keeps id code).apply db db' x e).ordered w
Request-WellFormed {db} {db'} w (worker_releases id r e) =
    ((release-Keeps id).apply db db' r e).ordered w
Request-WellFormed {db} {db'} w (worker_submits date f e) =
    ((generate-Keeps date).apply db db' f e).ordered w
Request-WellFormed {db} {db'} w (bank_reports event stored e) =
    ((bank_event-Keeps event).apply db db' stored e).ordered w
Request-WellFormed {db} {db'} w (api_validates id e) = subst WellFormed (sym e) (
    api_validate_ends WellFormed id db w
      (λ p v d _ _ h. ((commit-Keeps id).apply db d v h).ordered w))
Request-WellFormed {db} {db'} w (api_reserves id x e) =
    ((api_reserve-Keeps id).apply db db' x e).ordered w
Request-WellFormed {db} {db'} w (api_settles id x e) =
    ((api_settle-Keeps id).apply db db' x e).ordered w
Request-WellFormed {db} {db'} w (api_returns id code x e) =
    ((api_return-Keeps id code).apply db db' x e).ordered w
