-- ===== src/Tests/Creations.antt =====
-- Instances of the theorems on the API's payments.
use achflow.Prelude.{
  ℕ, ◌∷◌, String, ◌≡◌, refl, true, some, none, find, ℕ_discrete, String_discrete, trim, trim_end,
  is_blank, is_space,
}
use achflow.Schema.{
  Payment, PaymentStatus, find_payment, Db, PaymentDirection, Result, err, conflict,
  idempotency_key_reused, direction_discrete, client_key, event_type_discrete, event_key_discrete,
  payment_key_discrete, create_event, transact,
}
use achflow.Events.{create_lifecycle_event}
use achflow.Payments.Requests.{
  CreatePaymentDto, CanonicalRequest, canonical_request, map_create_payment,
}
use achflow.Payments.Creation.{
  create_payment, create_idempotency_record, create_with_outbox_and_idempotency, create_for, create,
  CreatePaymentResult, new_payment,
}
use achflow.Payments.Idempotency.{create_again}
use achflow.Payments.Access.{settle_owned}
use achflow.Payments.Isolation.{others_stay, settles}
use achflow.Tests.Sample.{store, payment}

abbrev order : CreatePaymentDto
order = record {
  external_reference = some "order";
  direction = PaymentDirection.credit;
  amount_cents = 2500;
  currency = none;
  merchant_code = "acme";
  receiver_name = "Receiver";
  receiver_account_ref = "acct";
  routing_number = "021000021";
  description = none;
}

abbrev larger_order : CreatePaymentDto
larger_order = record order { amount_cents = 2600 }

-- The code as it is, for texts in upper case and a digest that tells amounts apart.
abbrev upper : String → String
upper s = s

abbrev amount_digest : CanonicalRequest → ℕ
amount_digest c = c.amount_cents

unfoldable runs : Unit {0}
unfolding create create_for create_with_outbox_and_idempotency create_payment
    create_idempotency_record canonical_request map_create_payment create_event
    create_lifecycle_event transact find direction_discrete event_type_discrete event_key_discrete
    payment_key_discrete ℕ_discrete String_discrete trim trim_end is_blank is_space
runs = tt

abbrev first_answer : Result CreatePaymentResult × Db
first_answer = create upper amount_digest order (some " k1 ") 1 (λ _. store) store

abbrev first_result : CreatePaymentResult
first_result = record {
  payment = new_payment (map_create_payment upper order 2500 1 (client_key 1 "k1")) store;
  idempotency_key = "k1";
  created = true;
}

create_again_example :
    create upper amount_digest larger_order (some " k1 ") 1 (λ _. first_answer.1) first_answer.1
    ≡ (err (conflict idempotency_key_reused), first_answer.1)
unfolding runs
create_again_example =
    create_again upper amount_digest order larger_order " k1 " 1 (λ _. store) (λ _. first_answer.1)
      store first_answer.1 first_result refl refl refl refl

-- A store with a payment of another merchant, where payment 10 is settled.
abbrev others_payment : Payment
others_payment = record (payment 40 PaymentDirection.debit PaymentStatus.submitted 100) {
  merchant_id = 2;
}

abbrev shared_store : Db
shared_store = record store { payments = others_payment ∷ store.payments }

others_stay_example : find_payment 40 (settle_owned 10 1 shared_store).1 ≡ some others_payment
unfolding find
others_stay_example =
    others_stay 10 1 40 shared_store (settle_owned 10 1 shared_store).1 others_payment
      (settles refl) refl refl
