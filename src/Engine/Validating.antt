-- ===== src/Engine/Validating.antt =====
-- `validate` of the API's payments/payment-engine.service.ts.
use achflow.Prelude.{ℕ, Bool, ◌&&◌, ◌||◌, not, none, some, if◌then◌else◌, same, str_eq, is_blank}
use achflow.Prelude.Int.{pos, leb_ℤ, ltb_ℤ}
use achflow.Schema.{
  Payment, Merchant, PaymentStatus, status_discrete, OutboxEventType, ok, err, Tx, pure, gets,
  ◌>>=◌, ◌>>◌, Action, transact, bad_request, not_found, record_missing, payment_not_found,
  requirements_not_met, find_payment, find_merchant, update_payment,
}
use achflow.Events.{create_lifecycle_event}
use achflow.Validation.{is_missing, is_debit, pays_out, is_trading}

-- The condition under which the request is refused.
unfoldable pub fails_requirements : Payment → Merchant → Bool
fails_requirements p m =
    leb_ℤ p.amount_cents (pos 0)
    || not (str_eq p.currency "USD")
    || is_missing p.external_reference
    || is_blank p.receiver_account_ref
    || is_blank p.routing_number
    || not (is_trading m)
    || (is_debit p && not m.allow_ach_debit)
    || (pays_out p && not m.allow_ach_credit)
    || ltb_ℤ m.per_payment_limit p.amount_cents

-- The transaction, which updates the row by its id alone.
unfoldable pub commit_validated : ℕ → Tx Payment
commit_validated id = do
  now ← gets (λ db. db.clock)
  validated ← update_payment id λ p. record p {
    status = PaymentStatus.validated;
    validated_at = some now;
    validation_code = none;
    validation_message = none;
    failure_code = none;
    failure_reason = none;
  }
  create_lifecycle_event validated OutboxEventType.payment_validated validated.updated_at none
  pure validated

-- What the read before the transaction leads to.
pub data Verdict : Type 0 where
  refuse : Verdict
  unchanged : Payment → Verdict
  proceed : Verdict

unfoldable pub assess : Payment → Merchant → Verdict
unfolding fails_requirements
assess p m =
    if not (same (status_discrete p.status PaymentStatus.received))
    then unchanged p
    else if fails_requirements p m
    then refuse
    else proceed

abbrev act : ℕ → Verdict → Action Payment
act id refuse db = (err (bad_request requirements_not_met), db)
act id (unchanged p) db = (ok p, db)
act id proceed db = transact (commit_validated id) db

-- The merchant of a payment is there by its foreign key.
abbrev assess_payment : ℕ → Payment → Action Payment
assess_payment id p db = elim (find_merchant p.merchant_id db) [
  | none ↦ (err record_missing, db)
  | some m ↦ act id (assess p m) db
]

unfoldable pub validate : ℕ → Action Payment
validate id db = elim (find_payment id db) [
  | none ↦ (err (not_found payment_not_found), db)
  | some p ↦ assess_payment id p db
]
