-- ===== src/Schema/Rows.antt =====
-- The models of apps/api/prisma/schema.prisma as records. Ids, codes of rows (uuids) and texts
-- that are only compared are numbers; times are milliseconds since the epoch; `BigInt` is ℤ.
use achflow.Prelude.{ℕ, String, Bool, Option}
use achflow.Prelude.Int.{ℤ}
use achflow.Schema.Enums.{
  PaymentDirection, PaymentStatus, OutboxEventType, OutboxEventStatus, MerchantStatus,
  WebhookDeliveryStatus, FundingAccountStatus, LedgerEntryType, ReservationStatus, EntryKey,
  EventKey, PaymentKey,
}

-- The texts of `validationMessage` and `failureReason`; those with holes keep what fills them.
pub data Message : Type 0 where
  text : String → Message
  daily_limit_exceeded : (limit utilized requested : ℤ) → Message
  no_active_account : (currency : String) → Message
  insufficient : (available requested : ℤ) → (currency : String) → Message

pub record Merchant : Type 0 where
  pub id : ℕ
  pub merchant_code : String
  pub legal_name : String
  pub display_name : String
  pub status : MerchantStatus
  pub allow_ach_debit : Bool
  pub allow_ach_credit : Bool
  pub per_payment_limit : ℤ
  pub daily_amount_limit : ℤ

pub record FundingAccount : Type 0 where
  pub id : ℕ
  pub merchant_id : ℕ
  pub currency : String
  pub status : FundingAccountStatus

pub record LedgerEntry : Type 0 where
  pub id : ℕ
  pub entry_key : EntryKey
  pub funding_account_id : ℕ
  pub payment_id : Option ℕ
  pub entry_type : LedgerEntryType
  pub amount : ℤ
  pub created_at : ℕ

pub record Reservation : Type 0 where
  pub id : ℕ
  pub payment_id : ℕ
  pub funding_account_id : ℕ
  pub amount : ℤ
  pub status : ReservationStatus
  pub released_at : Option ℕ
  pub settled_at : Option ℕ
  pub returned_at : Option ℕ
  pub return_code : Option String

pub record MerchantApiKey : Type 0 where
  pub id : ℕ
  pub merchant_id : ℕ
  pub hashed_api_key : String

pub record MerchantDailyUsage : Type 0 where
  pub id : ℕ
  pub merchant_id : ℕ
  pub business_date : ℕ
  pub utilized_amount : ℤ

pub record Payment : Type 0 where
  pub id : ℕ
  pub idempotency_key : PaymentKey
  pub request_fingerprint : ℕ
  pub external_reference : Option String
  pub direction : PaymentDirection
  pub status : PaymentStatus
  pub amount_cents : ℤ
  pub currency : String
  pub merchant_id : ℕ
  pub receiver_name : String
  pub receiver_account_ref : String
  pub routing_number : String
  pub description : Option String
  pub failure_code : Option String
  pub failure_reason : Option Message
  pub validation_code : Option String
  pub validation_message : Option Message
  pub validated_at : Option ℕ
  pub created_at : ℕ
  pub updated_at : ℕ
  pub exported_at : Option ℕ
  pub ach_file_id : Option ℕ

pub record PaymentIdempotencyRecord : Type 0 where
  pub id : ℕ
  pub merchant_id : ℕ
  pub idempotency_key : String
  pub request_fingerprint : ℕ
  pub payment_id : ℕ

pub record ProcessedBankEvent : Type 0 where
  pub bank_event_id : ℕ
  pub payment_id : ℕ
  pub event_timestamp : ℕ

-- The payload of a lifecycle event.
pub record LifecyclePayload : Type 0 where
  pub payment_id : ℕ
  pub merchant_id : ℕ
  pub payment_status : PaymentStatus
  pub amount_cents : ℤ
  pub currency : String
  pub direction : PaymentDirection
  pub validation_code : Option String
  pub return_code : Option String
  pub occurred_at : ℕ

-- `OutboxEvent.payload` is JSON: a lifecycle payload, or a value without the string fields
-- `paymentId`, `merchantId` and `amountCents`.
pub data Payload : Type 0 where
  lifecycle : LifecyclePayload → Payload
  malformed : Payload

pub record OutboxEvent : Type 0 where
  pub id : ℕ
  pub event_key : EventKey
  pub event_type : OutboxEventType
  pub aggregate_id : ℕ
  pub payload : Payload
  pub status : OutboxEventStatus
  pub attempts : ℕ
  pub available_at : ℕ
  pub claimed_at : Option ℕ
  pub processed_at : Option ℕ
  pub last_error : Option String
  pub created_at : ℕ

-- The signing secret of an endpoint stays out of the model.
pub record MerchantWebhookEndpoint : Type 0 where
  pub id : ℕ
  pub merchant_id : ℕ
  pub url : String
  pub is_active : Bool

-- The payload of a delivery; its `id` is the pair of the ids of the event and the endpoint.
pub record DeliveryPayload : Type 0 where
  pub event : ℕ
  pub endpoint : ℕ
  pub type : String
  pub created_at : ℕ
  pub merchant_id : ℕ
  pub payment_id : ℕ
  pub payment_status : PaymentStatus
  pub amount_cents : ℤ
  pub currency : String
  pub direction : PaymentDirection
  pub validation_code : Option String
  pub return_code : Option String

-- What is delivered: a lifecycle event, or the test of an endpoint.
pub data DeliveryBody : Type 0 where
  payment_notice : DeliveryPayload → DeliveryBody
  test_notice : (event endpoint created_at merchant_id : ℕ) → DeliveryBody

-- `lastErrorCode`: NETWORK_ERROR, TIMEOUT or HTTP_<status>.
pub data DeliveryError : Type 0 where
  network_error timeout : DeliveryError
  http : ℕ → DeliveryError

pub record WebhookDelivery : Type 0 where
  pub id : ℕ
  pub merchant_id : ℕ
  pub webhook_endpoint_id : ℕ
  pub outbox_event_id : ℕ
  pub event_type : String
  pub payload : DeliveryBody
  pub status : WebhookDeliveryStatus
  pub attempt_count : ℕ
  pub next_attempt_at : Option ℕ
  pub last_attempt_at : Option ℕ
  pub delivered_at : Option ℕ
  pub response_status : Option ℕ
  pub last_error_code : Option DeliveryError
  pub claimed_at : Option ℕ
  pub claimed_by : Option String
  pub created_at : ℕ

-- `AchFile`, without what is computed from the text of the file.
pub record AchFile : Type 0 where
  pub id : ℕ
  pub company_id : ℕ
  pub effective_entry_date : ℕ
  pub status : String
  pub total_entries : ℕ
  pub debit_total_cents : ℤ
  pub credit_total_cents : ℤ
  pub created_at : ℕ
