-- ===== src/Tests/Sample.antt =====
-- A store with one merchant, its funding account of 10000 cents, and four payments.
use achflow.Prelude.{ℕ, true, none, some, [], ◌∷◌}
use achflow.Prelude.Int.{pos}
use achflow.Schema.{
  Db, Payment, Merchant, FundingAccount, LedgerEntry, Reservation, OutboxEvent, PaymentStatus,
  PaymentDirection, MerchantStatus, FundingAccountStatus, ReservationStatus, LedgerEntryType,
  OutboxEventStatus, OutboxEventType, other_key, client_key, payment_event, malformed, Tx, ok, err,
}

abbrev pub merchant : Merchant
merchant = record {
  id = 1;
  merchant_code = "acme";
  legal_name = "Acme Incorporated";
  display_name = "Acme";
  status = MerchantStatus.active;
  allow_ach_debit = true;
  allow_ach_credit = true;
  per_payment_limit = pos 5000;
  daily_amount_limit = pos 9000;
}

abbrev pub account : FundingAccount
account = record { id = 2; merchant_id = 1; currency = "USD"; status = FundingAccountStatus.active }

abbrev pub payment : ℕ → PaymentDirection → PaymentStatus → ℕ → Payment
payment i direction status amount = record {
  id = i;
  idempotency_key = client_key 1 "key";
  request_fingerprint = 0;
  external_reference = some "order";
  direction = direction;
  status = status;
  amount_cents = pos amount;
  currency = "USD";
  merchant_id = 1;
  receiver_name = "Receiver";
  receiver_account_ref = "acct";
  routing_number = "021000021";
  description = none;
  failure_code = none;
  failure_reason = none;
  validation_code = none;
  validation_message = none;
  validated_at = none;
  created_at = 100000000;
  updated_at = 0;
  exported_at = none;
  ach_file_id = none;
}

abbrev pub reservation : ℕ → ℕ → ReservationStatus → ℕ → Reservation
reservation i payment status amount = record {
  id = i;
  payment_id = payment;
  funding_account_id = 2;
  amount = pos amount;
  status = status;
  released_at = none;
  settled_at = none;
  returned_at = none;
  return_code = none;
}

abbrev entry : ℕ → LedgerEntryType → ℕ → LedgerEntry
entry i type amount = record {
  id = i;
  entry_key = other_key i;
  funding_account_id = 2;
  payment_id = none;
  entry_type = type;
  amount = pos amount;
  created_at = 0;
}

abbrev pub event : ℕ → ℕ → OutboxEventStatus → OutboxEvent
event i payment status = record {
  id = i;
  event_key = payment_event payment OutboxEventType.payment_received;
  event_type = OutboxEventType.payment_received;
  aggregate_id = payment;
  payload = malformed;
  status = status;
  attempts = 1;
  available_at = 0;
  claimed_at = some 0;
  processed_at = none;
  last_error = none;
  created_at = 0;
}

-- Payment 10 is a submitted credit with an active reservation, 11 a submitted debit, 12 a received
-- credit whose event 30 is being processed, and 13 a settled credit.
abbrev pub store : Db
store = record {
  clock = 1000;
  next_id = 100;
  merchants = merchant ∷ [];
  funding_accounts = account ∷ [];
  ledger_entries = entry 3 LedgerEntryType.initial_credit 10000 ∷ [];
  reservations =
      reservation 21 13 ReservationStatus.settled 700
      ∷ reservation 20 10 ReservationStatus.active 4000
      ∷ [];
  daily_usage = [];
  payments =
      payment 13 PaymentDirection.credit PaymentStatus.settled 700
      ∷ payment 12 PaymentDirection.credit PaymentStatus.received 3000
      ∷ payment 11 PaymentDirection.debit PaymentStatus.submitted 500
      ∷ payment 10 PaymentDirection.credit PaymentStatus.submitted 4000
      ∷ [];
  bank_events = [];
  outbox_events = event 30 12 OutboxEventStatus.processing ∷ [];
  webhook_endpoints = [];
  webhook_deliveries = [];
  ach_files = [];
  api_keys = [];
  idempotency_records = [];
}

-- What a run that commits leaves.
abbrev pub left : {A : Type 0} → Tx A → Db → Db
left m db = elim (m db) [ ok (a, db') ↦ db' | err e ↦ db ]
