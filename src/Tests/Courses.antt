-- ===== src/Tests/Courses.antt =====
-- Instances of the theorems on the machine of a payment.
use achflow.Prelude.{◌≡◌, refl, some, find, update, count, arith, ℕ_discrete, String_discrete}
use achflow.Prelude.Int.{◌+ℤ◌, ◌-ℤ◌}
use achflow.Schema.{
  Db, Payment, PaymentDirection, PaymentStatus, status_discrete, direction_discrete,
  event_type_discrete, entry_key_discrete, event_key_discrete, reservation_status_discrete,
  entry_type_discrete, find_payment, update_payments, update_reservation, create_entry,
  create_event,
}
use achflow.Events.{create_lifecycle_event}
use achflow.Lifecycle.Settling.{settle_reservation}
use achflow.Lifecycle.Returning.{return_settlement}
use achflow.Engine.Returning.{return_settlement as api_return}
use achflow.Agreement.Settlement.{committed}
use achflow.Course.Machine.{Route, Coherent}
use achflow.Course.Requests.{Sound, worker_settles, worker_returns, returns_agree}
use achflow.Course.Histories.{Served, none_yet, serve, Served-Sound, Served-Route}
use achflow.Tests.Sample.{store, left, payment}

unfoldable runs : Unit {0}
unfolding settle_reservation return_settlement update_payments update_reservation create_entry
    create_event create_lifecycle_event find update count status_discrete direction_discrete
    entry_key_discrete event_key_discrete reservation_status_discrete entry_type_discrete
    event_type_discrete ℕ_discrete String_discrete ◌+ℤ◌ ◌-ℤ◌
runs = tt

store-Coherent : Coherent store
unfolding find
store-Coherent j r e s =
    (payment 13 PaymentDirection.credit PaymentStatus.settled 700, ground (arith, e, s), refl)

store-Sound : Sound store
store-Sound = record { ordered = omega arith; coherent = store-Coherent }

-- Payment 10 is settled and returned.
abbrev after_settlement : Db
after_settlement = left (settle_reservation 10) store

abbrev after_return : Db
after_return = left (return_settlement 10 "R01") after_settlement

settled_and_returned : Served store after_return
unfolding runs
settled_and_returned =
    serve (serve none_yet (worker_settles 10 _ refl)) (worker_returns 10 "R01" _ refl)

Served-Sound_example : Sound after_return
Served-Sound_example = Served-Sound store-Sound settled_and_returned

Served-Route_example :
    (p : Payment) × (find_payment 10 after_return ≡ some p) × Route PaymentStatus.submitted p.status
unfolding runs
Served-Route_example =
    Served-Route 10 (payment 10 PaymentDirection.credit PaymentStatus.submitted 4000) store-Sound
      settled_and_returned refl

returns_agree_example :
    committed (return_settlement 10 "R01" after_settlement)
    ≡ committed (api_return 10 "R01" after_settlement)
unfolding runs
returns_agree_example =
    returns_agree 10 "R01" after_settlement
      (Served-Sound store-Sound (serve none_yet (worker_settles 10 _ refl)))

-- Payment 10 is asked to be returned again, under another code.
abbrev twice_returned : Db
twice_returned = left (return_settlement 10 "R02") after_return
