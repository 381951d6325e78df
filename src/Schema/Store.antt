-- ===== src/Schema/Store.antt =====
-- The database as one value, and transactions as state passing with errors. A transaction runs
-- alone: the advisory locks that the code takes are what the database needs to make that so.
use achflow.Prelude.{ℕ, String, Bool, true, false, Option, none, some, List}
use achflow.Schema.Rows.{
  Merchant, FundingAccount, LedgerEntry, Reservation, MerchantDailyUsage, Payment,
  ProcessedBankEvent, OutboxEvent, MerchantWebhookEndpoint, WebhookDelivery, AchFile,
  PaymentIdempotencyRecord, MerchantApiKey,
}

-- `next_id` supplies the values of `@default(uuid())`, and `clock` those of `new Date()`.
pub record Db : Type 0 where
  pub clock : ℕ
  pub next_id : ℕ
  pub merchants : List Merchant
  pub funding_accounts : List FundingAccount
  pub ledger_entries : List LedgerEntry
  pub reservations : List Reservation
  pub daily_usage : List MerchantDailyUsage
  pub payments : List Payment
  pub bank_events : List ProcessedBankEvent
  pub outbox_events : List OutboxEvent
  pub webhook_endpoints : List MerchantWebhookEndpoint
  pub webhook_deliveries : List WebhookDelivery
  pub ach_files : List AchFile
  pub api_keys : List MerchantApiKey
  pub idempotency_records : List PaymentIdempotencyRecord

-- The texts of the errors that the code throws.
pub data Problem : Type 0 where
  payment_not_found payment_not_eligible requirements_not_met not_validated : Problem
  reservation_not_found reservation_not_active reservation_not_settled : Problem
  payment_not_submitted payment_not_settled posted_debit_invalid : Problem
  exceeds_daily_limit insufficient_funding : Problem
  bank_event_payment_not_found bank_event_payment_not_settled : Problem
  event_not_claimed unsupported_event invalid_received_payload invalid_payload : Problem
  not_webhook_eligible demo_funding_not_positive merchant_not_found : Problem
  funding_account_not_active eligible_payments_changed : Problem
  idempotency_key_required idempotency_key_reused payment_unreadable : Problem
  webhook_url_invalid webhook_url_not_https webhook_endpoint_not_found : Problem
  webhook_endpoint_disabled : Problem
  nacha_file_not_found nacha_file_payments_not_found not_an_integer : Problem
  merchant_code_exists bearer_key_required invalid_api_key : Problem
  date_range_invalid custom_range_incomplete amount_range_invalid : Problem
  no_active_funding_account merchant_code_not_found : String → Problem

-- `OutboxProcessingError`, the HTTP exceptions (with the id in the text of one of them), a plain `Error`, and the failures of Prisma itself: P2002 for a
-- unique constraint, P2025 for an update of a missing row.
pub data Error : Type 0 where
  outbox_processing bad_request unauthorized not_found conflict internal plain_error :
      Problem → Error
  unique_constraint record_missing : Error
  payment_id_not_found : ℕ → Error

pub data Result {ℓ} (A : Type ℓ) : Type ℓ where
  ok : A → Result A
  err : Error → Result A

abbrev pub Tx : Type 0 → Type 0
Tx A = Db → Result (A × Db)

module _ {A : Type 0} where
  abbrev pub pure : A → Tx A
  pure a db = ok (a, db)

  abbrev pub throw : Error → Tx A
  throw e db = err e

  -- A query.
  abbrev pub gets : (Db → A) → Tx A
  gets f db = ok (f db, db)

  -- `if (!value) throw e`.
  abbrev pub or_throw : Option A → Error → Tx A
  or_throw none e = throw e
  or_throw (some a) e = pure a

infixl 5 ◌>>=◌ ◌>>◌
abbrev pub ◌>>=◌ : {A B : Type 0} → Tx A → (A → Tx B) → Tx B
◌>>=◌ m f db = elim (m db) [ ok (a, db') ↦ f a db' | err e ↦ err e ]

abbrev pub ◌>>◌ : {A B : Type 0} → Tx A → Tx B → Tx B
◌>>◌ m k db = elim (m db) [ ok (a, db') ↦ k db' | err e ↦ err e ]

-- `if (condition) throw e`.
abbrev pub throw_if : Bool → Error → Tx (Unit {0})
throw_if true e db = err e
throw_if false e db = ok (tt, db)

-- A branch of a transaction, by a condition and by a row that may be there.
infix 1 when◌then◌else◌
abbrev pub when◌then◌else◌ : {A : Type 0} → Bool → Tx A → Tx A → Tx A
when◌then◌else◌ c m k db = elim c [ true ↦ m db | false ↦ k db ]

abbrev pub either_row : {A B : Type 0} → Option A → Tx B → (A → Tx B) → Tx B
either_row o m k db = elim o [ none ↦ m db | some a ↦ k a db ]

abbrev pub modify : (Db → Db) → Tx (Unit {0})
modify f db = ok (tt, f db)

-- What runs outside a transaction keeps what it wrote when it fails later.
abbrev pub Action : Type 0 → Type 0
Action A = Db → Result A × Db

-- `prisma.$transaction`: what was written stays if the transaction commits, and only then.
unfoldable pub transact : {A : Type 0} → Tx A → Action A
transact m db = elim (m db) [ ok (a, db') ↦ (ok a, db') | err e ↦ (err e, db) ]
