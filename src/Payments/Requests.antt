-- ===== src/Payments/Requests.antt =====
-- The request to create a payment: `CreatePaymentDto`, payment-fingerprint.util.ts and the
-- mapping of payment.mapper.ts in the API's payments. `toUpperCase` and the SHA-256 digest of the
-- canonical request are parameters.
use achflow.Prelude.{ℕ, String, Option, none, some}
use achflow.Prelude.Int.{ℤ, pos}
use achflow.Schema.{PaymentDirection, PaymentKey}

pub record CreatePaymentDto : Type 0 where
  pub external_reference : Option String
  pub direction : PaymentDirection
  pub amount_cents : ℕ
  pub currency : Option String
  pub merchant_code : String
  pub receiver_name : String
  pub receiver_account_ref : String
  pub routing_number : String
  pub description : Option String

-- `canonical`, of which the fingerprint is the digest.
pub record CanonicalRequest : Type 0 where
  pub amount_cents : ℕ
  pub currency : String
  pub description : Option String
  pub direction : PaymentDirection
  pub external_reference : Option String
  pub merchant_id : ℕ
  pub receiver_account_ref : String
  pub receiver_name : String
  pub routing_number : String

pub record CreatePaymentRecord : Type 0 where
  pub idempotency_key : PaymentKey
  pub request_fingerprint : ℕ
  pub external_reference : Option String
  pub direction : PaymentDirection
  pub amount_cents : ℤ
  pub currency : String
  pub merchant_id : ℕ
  pub receiver_name : String
  pub receiver_account_ref : String
  pub routing_number : String
  pub description : Option String

-- `dto.currency?.toUpperCase() ?? 'USD'`
abbrev pub currency_of : (String → String) → Option String → String
currency_of to_upper_case none = "USD"
currency_of to_upper_case (some c) = to_upper_case c

-- `(dto.currency ?? 'USD').toUpperCase()`
abbrev pub canonical_currency : (String → String) → Option String → String
canonical_currency to_upper_case none = to_upper_case "USD"
canonical_currency to_upper_case (some c) = to_upper_case c

unfoldable pub canonical_request : (String → String) → CreatePaymentDto → ℕ → CanonicalRequest
canonical_request to_upper_case dto merchant = record {
  amount_cents = dto.amount_cents;
  currency = canonical_currency to_upper_case dto.currency;
  description = dto.description;
  direction = dto.direction;
  external_reference = dto.external_reference;
  merchant_id = merchant;
  receiver_account_ref = dto.receiver_account_ref;
  receiver_name = dto.receiver_name;
  routing_number = dto.routing_number;
}

-- `mapCreatePaymentDtoToRecord`
unfoldable pub map_create_payment :
    (String → String)
    → CreatePaymentDto
    → (fingerprint merchant : ℕ) → PaymentKey
    → CreatePaymentRecord
map_create_payment to_upper_case dto fingerprint merchant key = record {
  idempotency_key = key;
  request_fingerprint = fingerprint;
  external_reference = dto.external_reference;
  direction = dto.direction;
  amount_cents = pos dto.amount_cents;
  currency = currency_of to_upper_case dto.currency;
  merchant_id = merchant;
  receiver_name = dto.receiver_name;
  receiver_account_ref = dto.receiver_account_ref;
  routing_number = dto.routing_number;
  description = dto.description;
}
