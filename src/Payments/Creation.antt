-- ===== src/Payments/Creation.antt =====
-- `create` of the API's payments/payments.service.ts, with what it calls in
-- payments.repository.ts, merchants.repository.ts and payment-visibility-retry.util.ts.
use achflow.Prelude.{
  ℕ, suc, String, Bool, true, false, ◌&&◌, not, Option, none, some, List, [], ◌∷◌, ◌==◌,
  if◌then◌else◌, same, str_eq, trim, is_blank, find,
}
use achflow.Schema.{
  Db, Payment, Merchant, PaymentStatus, PaymentKey, client_key, payment_key_discrete,
  PaymentIdempotencyRecord, OutboxEventType, Result, ok, err, Tx, pure, ◌>>=◌, ◌>>◌, Action,
  transact, find_payment, bad_request, not_found, conflict, internal, unique_constraint,
  idempotency_key_required, idempotency_key_reused, payment_unreadable, merchant_code_not_found,
}
use achflow.Events.{create_lifecycle_event}
use achflow.Payments.Requests.{
  CreatePaymentDto, CanonicalRequest, CreatePaymentRecord, canonical_request, map_create_payment,
}

abbrev pub has_key : PaymentKey → Payment → Bool
has_key k p = same (payment_key_discrete p.idempotency_key k)

abbrev pub new_payment : CreatePaymentRecord → Db → Payment
new_payment r db = record {
  id = db.next_id;
  idempotency_key = r.idempotency_key;
  request_fingerprint = r.request_fingerprint;
  external_reference = r.external_reference;
  direction = r.direction;
  status = PaymentStatus.received;
  amount_cents = r.amount_cents;
  currency = r.currency;
  merchant_id = r.merchant_id;
  receiver_name = r.receiver_name;
  receiver_account_ref = r.receiver_account_ref;
  routing_number = r.routing_number;
  description = r.description;
  failure_code = none;
  failure_reason = none;
  validation_code = none;
  validation_message = none;
  validated_at = none;
  created_at = db.clock;
  updated_at = db.clock;
  exported_at = none;
  ach_file_id = none;
}

-- `payment.create`, whose idempotency key is unique.
unfoldable pub create_payment : CreatePaymentRecord → Tx Payment
create_payment r db = elim (find (has_key r.idempotency_key) db.payments) [
  | some _ ↦ err unique_constraint
  | none ↦ ok (
    new_payment r db,
    record db { next_id = suc db.next_id; payments = new_payment r db ∷ db.payments },
  )
]

abbrev pub is_record_of : ℕ → String → PaymentIdempotencyRecord → Bool
is_record_of merchant key r = r.merchant_id == merchant && str_eq r.idempotency_key key

-- `paymentIdempotencyRecord.create`, unique in merchant and key, and in the payment.
unfoldable pub create_idempotency_record : ℕ → String → (fingerprint payment : ℕ) → Tx (Unit {0})
create_idempotency_record merchant key fingerprint payment db =
    let r : PaymentIdempotencyRecord = record {
      id = db.next_id;
      merchant_id = merchant;
      idempotency_key = key;
      request_fingerprint = fingerprint;
      payment_id = payment;
    } in
    elim (find (is_record_of merchant key) db.idempotency_records) [
      | some _ ↦ err unique_constraint
      | none ↦ elim (find (λ x. x.payment_id == payment) db.idempotency_records) [
        | some _ ↦ err unique_constraint
        | none ↦ ok (
          tt,
          record db { next_id = suc db.next_id; idempotency_records = r ∷ db.idempotency_records },
        )
      ]
    ]

-- `createWithOutboxAndIdempotency`
unfoldable pub create_with_outbox_and_idempotency : CreatePaymentRecord → String → Tx Payment
unfolding create_payment create_idempotency_record
create_with_outbox_and_idempotency r key = do
  payment ← create_payment r
  create_lifecycle_event payment OutboxEventType.payment_received payment.created_at none
  create_idempotency_record r.merchant_id key r.request_fingerprint payment.id
  pure payment

-- `findIdempotencyRecord`, with its payment.
unfoldable pub find_idempotency_record :
    ℕ → String → Db → Option (PaymentIdempotencyRecord × Payment)
find_idempotency_record merchant key db =
    elim (find (is_record_of merchant key) db.idempotency_records) [
      | none ↦ none
      | some r ↦ elim (find_payment r.payment_id db) [ none ↦ none | some p ↦ some (r, p) ]
    ]

-- `paymentVisibilityRetryDelaysMs`
abbrev pub retry_delays_ms : List ℕ
retry_delays_ms = 10 ∷ 25 ∷ 50 ∷ []

-- The loop of `findPaymentWithVisibilityRetry`, over what each read gives.
unfoldable pub retry {ℓ} : {A : Type ℓ} → (ℕ → Option A) → (attempt : ℕ) → List ℕ → Option A
retry read attempt [] = none
retry read attempt (delay ∷ delays) =
    let rest = retry read (suc attempt) delays in
    elim (read attempt) [ some a ↦ some a | none ↦ rest ]

unfoldable pub find_with_visibility_retry {ℓ} : {A : Type ℓ} → (ℕ → Option A) → Option A
unfolding retry
find_with_visibility_retry read = elim (read 0) [
  | some a ↦ some a
  | none ↦ retry read 1 retry_delays_ms
]

pub record CreatePaymentResult : Type 0 where
  pub payment : Payment
  pub idempotency_key : String
  pub created : Bool

-- `merchantsRepository.findByCode`
abbrev pub find_by_code : String → Db → Option Merchant
find_by_code code db = find (λ m. str_eq m.merchant_code code) db.merchants

-- `handleIdempotencyConflict`, where `views` is the database at each read.
unfoldable pub handle_idempotency_conflict :
    ℕ → String → (fingerprint : ℕ) → (views : ℕ → Db) → Result CreatePaymentResult
unfolding find_with_visibility_retry find_idempotency_record
handle_idempotency_conflict merchant key fingerprint views =
    elim (find_with_visibility_retry (λ n. find_idempotency_record merchant key (views n))) [
      | none ↦ err (internal payment_unreadable)
      | some (r, p) ↦
          if not (r.request_fingerprint == fingerprint)
          then err (conflict idempotency_key_reused)
          else ok (record { payment = p; idempotency_key = r.idempotency_key; created = false })
    ]

module _ (to_upper_case : String → String) (digest : CanonicalRequest → ℕ) where
  -- What `create` does for the merchant that sends the request.
  unfoldable pub create_for :
      CreatePaymentDto → String → ℕ → (views : ℕ → Db) → Action CreatePaymentResult
  unfolding canonical_request map_create_payment create_with_outbox_and_idempotency transact
  create_for dto key merchant views db =
      let fingerprint = digest (canonical_request to_upper_case dto merchant) in
      let data_record =
        map_create_payment to_upper_case dto fingerprint merchant (client_key merchant key) in
      let (r, db') = transact (create_with_outbox_and_idempotency data_record key) db in
      elim r [
        | ok p ↦ (ok (record { payment = p; idempotency_key = key; created = true }), db')
        | err unique_constraint ↦ (handle_idempotency_conflict merchant key fingerprint views, db')
        | err e ↦ (err e, db')
      ]

  -- `create`, for a request that authenticates as a merchant.
  unfoldable pub create :
      CreatePaymentDto
      → Option String
      → (authenticated : ℕ) → (views : ℕ → Db) → Action CreatePaymentResult
  unfolding create_for trim
  create dto none authenticated views db = (err (bad_request idempotency_key_required), db)
  create dto (some client) authenticated views db =
      if is_blank client
      then (err (bad_request idempotency_key_required), db)
      else elim (find_by_code dto.merchant_code db) [
        | none ↦ (err (not_found (merchant_code_not_found dto.merchant_code)), db)
        | some m ↦
            if not (m.id == authenticated)
            then (err (not_found (merchant_code_not_found dto.merchant_code)), db)
            else create_for dto (trim client) m.id views db
      ]
