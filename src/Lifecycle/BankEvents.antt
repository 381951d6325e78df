-- ===== src/Lifecycle/BankEvents.antt =====
-- `processBankSettlementEvent` of the worker's payments/payment-lifecycle.repository.ts. The type
-- of the event admits one `eventType`, 'SETTLED', so the row does not keep it.
use achflow.Prelude.{Bool, ◌||◌, not, same}
use achflow.Schema.{
  PaymentStatus, status_discrete, ProcessedBankEvent, Tx, pure, gets, or_throw, throw_if, ◌>>=◌,
  ◌>>◌, either_row, outbox_processing, bank_event_payment_not_found, bank_event_payment_not_settled,
  find_payment, find_bank_event, create_bank_event,
}

abbrev is_settled_or_returned : PaymentStatus → Bool
is_settled_or_returned s =
    same (status_discrete s PaymentStatus.settled)
    || same (status_discrete s PaymentStatus.returned)

record_bank_event : ProcessedBankEvent → Tx ProcessedBankEvent
record_bank_event event = do
  found ← gets (find_payment event.payment_id)
  p ← or_throw found (outbox_processing bank_event_payment_not_found)
  throw_if (not (is_settled_or_returned p.status))
      (outbox_processing bank_event_payment_not_settled)
  create_bank_event event

unfoldable pub process_bank_event : ProcessedBankEvent → Tx ProcessedBankEvent
unfolding record_bank_event
process_bank_event event = do
  existing ← gets (find_bank_event event.bank_event_id)
  either_row existing (record_bank_event event) λ e. pure e
