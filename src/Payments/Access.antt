-- ===== src/Payments/Access.antt =====
-- The operations of the API's payments/payments.service.ts on a payment of the merchant that asks:
-- `findOwnedPayment`, `findOne`, `validate`, `reserve`, `settle` and `returnSettlement`. A payment
-- that is serialized is its row, with the key that is shown.
use achflow.Prelude.{ℕ, String, not, Option, none, some, ◌==◌, if◌then◌else◌, str_eq, find}
use achflow.Schema.{
  Db, Payment, Reservation, PaymentIdempotencyRecord, Result, ok, err, Action, transact,
  payment_id_not_found, find_payment,
}
use achflow.Engine.Validating.{validate as engine_validate}
use achflow.Engine.Reserving.{reserve as engine_reserve}
use achflow.Engine.Settling.{settle as engine_settle}
use achflow.Engine.Returning.{return_settlement as engine_return}

-- The payment's own key is shown where `none` stands for the key.
pub record PaymentResponse : Type 0 where
  pub payment : Payment
  pub idempotency_key : Option String

unfoldable pub find_owned_payment : (id authenticated : ℕ) → Db → Result Payment
find_owned_payment id authenticated db = elim (find_payment id db) [
  | none ↦ err (payment_id_not_found id)
  | some p ↦ if not (p.merchant_id == authenticated) then err (payment_id_not_found id) else ok p
]

-- `findIdempotencyRecordByPaymentId`
abbrev pub find_record_by_payment : ℕ → Db → Option PaymentIdempotencyRecord
find_record_by_payment id db = find (λ r. r.payment_id == id) db.idempotency_records

-- `idempotencyKey ? { idempotencyKey } : {}`
abbrev pub shown_key : Option PaymentIdempotencyRecord → Option String
shown_key none = none
shown_key (some r) = if str_eq r.idempotency_key "" then none else some r.idempotency_key

unfoldable pub find_one : (id authenticated : ℕ) → Db → Result PaymentResponse
unfolding find_owned_payment
find_one id authenticated db = elim (find_owned_payment id authenticated db) [
  | err e ↦ err e
  | ok p ↦ ok (record { payment = p; idempotency_key = shown_key (find_record_by_payment p.id db) })
]

-- An operation of the engine, after the test of the owner.
unfoldable pub for_owner : {A : Type 0} → (id authenticated : ℕ) → Action A → Action A
unfolding find_owned_payment
for_owner id authenticated action db = elim (find_owned_payment id authenticated db) [
  | err e ↦ (err e, db)
  | ok p ↦ action db
]

unfoldable pub validate_owned : (id authenticated : ℕ) → Action PaymentResponse
unfolding for_owner find_one
validate_owned id authenticated db =
    let (r, db') = for_owner id authenticated (engine_validate id) db in
    elim r [ err e ↦ (err e, db') | ok p ↦ (find_one id authenticated db', db') ]

unfoldable pub reserve_owned : (id authenticated : ℕ) → Action (Option Reservation)
unfolding for_owner
reserve_owned id authenticated = for_owner id authenticated (transact (engine_reserve id))

-- What is answered: a reservation, or the payment where there is none.
pub data Answer : Type 0 where
  of_reservation : Reservation → Answer
  of_payment : PaymentResponse → Answer

unfoldable pub answer_with :
    (id authenticated : ℕ) → Result (Option Reservation) × Db → Result Answer × Db
unfolding find_one
answer_with id authenticated (r, db') = elim r [
  | err e ↦ (err e, db')
  | ok (some x) ↦ (ok (of_reservation x), db')
  | ok none ↦ elim (find_one id authenticated db') [
    | err e ↦ (err e, db')
    | ok response ↦ (ok (of_payment response), db')
  ]
]

unfoldable pub settle_owned : (id authenticated : ℕ) → Action Answer
unfolding for_owner answer_with
settle_owned id authenticated db =
    answer_with id authenticated (for_owner id authenticated (transact (engine_settle id)) db)

unfoldable pub return_owned : (id : ℕ) (code : String) (authenticated : ℕ) → Action Answer
unfolding for_owner answer_with
return_owned id code authenticated db =
    answer_with id authenticated (for_owner id authenticated (transact (engine_return id code)) db)
