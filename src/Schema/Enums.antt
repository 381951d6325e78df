-- ===== src/Schema/Enums.antt =====
-- The enums of apps/api/prisma/schema.prisma, with decidable equality.
use achflow.Prelude.{ℕ, String, ℕ_discrete, String_discrete}

pub data PaymentDirection : Type 0 where
  debit credit : PaymentDirection

pub data PaymentStatus : Type 0 where
  received validated validation_failed pending processing submitted : PaymentStatus
  settled returned failed cancelled unknown : PaymentStatus

pub data OutboxEventType : Type 0 where
  payment_received payment_validated payment_validation_failed : OutboxEventType
  payment_reserved payment_submitted payment_settled payment_returned : OutboxEventType
  webhook_test : OutboxEventType

pub data OutboxEventStatus : Type 0 where
  pending processing processed failed : OutboxEventStatus

pub data WebhookDeliveryStatus : Type 0 where
  pending processing delivered failed : WebhookDeliveryStatus

pub data SimulatorRunStatus : Type 0 where
  running paused stopped completed failed : SimulatorRunStatus

pub data MerchantStatus : Type 0 where
  active suspended closed : MerchantStatus

pub data FundingAccountStatus : Type 0 where
  active closed : FundingAccountStatus

pub data LedgerEntryType : Type 0 where
  initial_credit reservation reservation_release settlement : LedgerEntryType
  debit_posted credit_posted return reversal adjustment : LedgerEntryType

pub data ReservationStatus : Type 0 where
  active released settled returned : ReservationStatus

-- The deterministic ledger keys that the code writes, a constructor for each text template:
-- `reservation:<id>`, `reservation-release:<id>`, `settlement:<id>`, `debit-posted:<id>`,
-- `return:<id>`, `debit-return:<id>` and `demo-funding:<merchant>:<currency>`; `other_key` is any
-- key that none of them gives.
pub data EntryKey : Type 0 where
  reservation_key release_key settlement_key debit_posted_key : ℕ → EntryKey
  return_key debit_return_key : ℕ → EntryKey
  demo_funding_key : ℕ → String → EntryKey
  other_key : ℕ → EntryKey

-- `OutboxEvent.eventKey`: `payment:<id>:<event type>`, or the default, a fresh uuid.
pub data EventKey : Type 0 where
  payment_event : ℕ → OutboxEventType → EventKey
  generated : ℕ → EventKey
  webhook_test_key : (endpoint time : ℕ) → EventKey

-- `Payment.idempotencyKey`: `<merchant>:<client key>` where the API writes it, or another text.
pub data PaymentKey : Type 0 where
  client_key : ℕ → String → PaymentKey
  other_payment_key : ℕ → PaymentKey

unfoldable pub direction_discrete : Discrete PaymentDirection
direction_discrete = hlevel

unfoldable pub status_discrete : Discrete PaymentStatus
status_discrete = hlevel

unfoldable pub event_type_discrete : Discrete OutboxEventType
event_type_discrete = hlevel

unfoldable pub event_status_discrete : Discrete OutboxEventStatus
event_status_discrete = hlevel

unfoldable pub delivery_status_discrete : Discrete WebhookDeliveryStatus
delivery_status_discrete = hlevel

unfoldable pub run_status_discrete : Discrete SimulatorRunStatus
run_status_discrete = hlevel

unfoldable pub merchant_status_discrete : Discrete MerchantStatus
merchant_status_discrete = hlevel

unfoldable pub account_status_discrete : Discrete FundingAccountStatus
account_status_discrete = hlevel

unfoldable pub entry_type_discrete : Discrete LedgerEntryType
entry_type_discrete = hlevel

unfoldable pub reservation_status_discrete : Discrete ReservationStatus
reservation_status_discrete = hlevel

unfoldable pub entry_key_discrete : Discrete EntryKey
entry_key_discrete = hlevel (ℕ_discrete, String_discrete)

unfoldable pub event_key_discrete : Discrete EventKey
event_key_discrete = hlevel (ℕ_discrete, event_type_discrete)

unfoldable pub payment_key_discrete : Discrete PaymentKey
payment_key_discrete = hlevel (ℕ_discrete, String_discrete)
