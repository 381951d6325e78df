-- ===== src/History/Order.antt =====
-- Every transaction keeps the rows in the order of their ids.
use achflow.Prelude.{ℕ, String, Option, none, List, [], ◌∷◌}
use achflow.Prelude.Int.{ℤ}
use achflow.Schema.{Reservation, ProcessedBankEvent, Payment, Merchant, OutboxEventType}
use achflow.Schema.Keeping.{Keeps, then-Keeps, keeping}
use achflow.Events.{create_lifecycle_event}
use achflow.Lifecycle.Transition.{
  ValidationResult, PaymentForValidation, transition_transaction, transition, complete_outbox,
}
use achflow.Lifecycle.Reserving.{
  check_limits, reserve_funds, reserve_and_transition, reserve_daily_usage,
}
use achflow.Lifecycle.Releasing.{release_reservation}
use achflow.Lifecycle.Settling.{
  settle_reservation, settle_debit_payment, settle_held, settle_active,
}
use achflow.Lifecycle.Returning.{
  return_settlement, return_debit_payment, return_held, return_settled,
}
use achflow.Lifecycle.BankEvents.{process_bank_event}
use achflow.Engine.Validating.{commit_validated}
use achflow.Nacha.Generator.{announce_all, export_payments, generate}
use achflow.Engine.Reserving.{reserve}
use achflow.Engine.Settling.{
  settle, settle_debit_payment as api_settle_debit, settle_held as api_settle_held,
  settle_active as api_settle_active,
}
use achflow.Engine.Returning.{
  return_settlement as api_return, return_debit_payment as api_return_debit,
  return_held as api_return_held, return_settled as api_return_settled,
}

pub event-Keeps :
    (p : Payment) (t : OutboxEventType) (now : ℕ) (code : Option String)
    → Keeps (create_lifecycle_event p t now code)
unfolding create_lifecycle_event
event-Keeps p t now code = search keeping

ruleset steps = (keeping, event-Keeps)

pub release-Keeps : (id : ℕ) → Keeps (release_reservation id)
unfolding release_reservation
release-Keeps id = search steps depth 12

active-Keeps : (id : ℕ) (r : Reservation) → Keeps (settle_active id r)
unfolding settle_active
active-Keeps id r = search steps depth 14

held-Keeps : (id : ℕ) (r : Reservation) → Keeps (settle_held id r)
unfolding settle_held
held-Keeps id r = search (steps, active-Keeps) depth 12

debit-Keeps : (id : ℕ) → Keeps (settle_debit_payment id)
unfolding settle_debit_payment
debit-Keeps id = search steps depth 16

pub settle-Keeps : (id : ℕ) → Keeps (settle_reservation id)
unfolding settle_reservation
settle-Keeps id = search (steps, debit-Keeps, held-Keeps) depth 6

settled-Keeps : (id : ℕ) (code : String) (r : Reservation) → Keeps (return_settled id code r)
unfolding return_settled
settled-Keeps id code r = search steps depth 16

return_held-Keeps : (id : ℕ) (code : String) (r : Reservation) → Keeps (return_held id code r)
unfolding return_held
return_held-Keeps id code r = search (steps, settled-Keeps) depth 12

return_debit-Keeps : (id : ℕ) (code : String) → Keeps (return_debit_payment id code)
unfolding return_debit_payment
return_debit-Keeps id code = search steps depth 18

pub return-Keeps : (id : ℕ) (code : String) → Keeps (return_settlement id code)
unfolding return_settlement
return-Keeps id code = search (steps, return_debit-Keeps, return_held-Keeps) depth 6

pub bank_event-Keeps : (e : ProcessedBankEvent) → Keeps (process_bank_event e)
unfolding process_bank_event
bank_event-Keeps e = search steps depth 12

pub transition-Keeps : (id : ℕ) (result : ValidationResult) → Keeps (transition id result)
unfolding transition
transition-Keeps id result = search steps depth 12

pub transition_transaction-Keeps :
    (id : ℕ) (result : ValidationResult) → Keeps (transition_transaction id result)
unfolding transition_transaction
transition_transaction-Keeps id result = search (steps, transition-Keeps) depth 12

complete-Keeps : (event : ℕ) → Keeps (complete_outbox event)
unfolding complete_outbox
complete-Keeps event = search steps depth 12

funds-Keeps : (p : Payment) → Keeps (reserve_funds p)
unfolding reserve_funds
funds-Keeps p = search steps depth 14

limits-Keeps : (p : Payment) (m : Merchant) (used : ℤ) → Keeps (check_limits p m used)
unfolding check_limits
limits-Keeps p m used = search (steps, funds-Keeps) depth 14

reserve_transition-Keeps :
    (p : Payment) (m : Merchant) (event : ℕ) → Keeps (reserve_and_transition p m event)
unfolding reserve_and_transition
reserve_transition-Keeps p m event =
    search (steps, limits-Keeps, transition-Keeps, complete-Keeps) depth 16

pub reserve_daily-Keeps :
    (pv : PaymentForValidation) (event : ℕ) → Keeps (reserve_daily_usage pv event)
unfolding reserve_daily_usage
reserve_daily-Keeps pv event = search (steps, complete-Keeps, reserve_transition-Keeps) depth 12

pub commit-Keeps : (id : ℕ) → Keeps (commit_validated id)
unfolding commit_validated
commit-Keeps id = search steps depth 12

pub api_reserve-Keeps : (id : ℕ) → Keeps (reserve id)
unfolding reserve
api_reserve-Keeps id = search steps depth 30

api_active-Keeps : (id : ℕ) (r : Reservation) → Keeps (api_settle_active id r)
unfolding api_settle_active
api_active-Keeps id r = search steps depth 18

api_held-Keeps : (id : ℕ) (r : Reservation) → Keeps (api_settle_held id r)
unfolding api_settle_held
api_held-Keeps id r = search (steps, api_active-Keeps) depth 12

api_debit-Keeps : (id : ℕ) → Keeps (api_settle_debit id)
unfolding api_settle_debit
api_debit-Keeps id = search steps depth 16

pub api_settle-Keeps : (id : ℕ) → Keeps (settle id)
unfolding settle
api_settle-Keeps id = search (steps, api_debit-Keeps, api_held-Keeps) depth 6

api_settled-Keeps :
    (id : ℕ) (code : String) (r : Reservation) → Keeps (api_return_settled id code r)
unfolding api_return_settled
api_settled-Keeps id code r = search steps depth 16

api_return_held-Keeps :
    (id : ℕ) (code : String) (r : Reservation) → Keeps (api_return_held id code r)
unfolding api_return_held
api_return_held-Keeps id code r = search (steps, api_settled-Keeps) depth 12

api_return_debit-Keeps : (id : ℕ) (code : String) → Keeps (api_return_debit id code)
unfolding api_return_debit
api_return_debit-Keeps id code = search steps depth 18

pub api_return-Keeps : (id : ℕ) (code : String) → Keeps (api_return id code)
unfolding api_return
api_return-Keeps id code = search (steps, api_return_debit-Keeps, api_return_held-Keeps) depth 6

announce_all-Keeps : (ps : List Payment) (at : ℕ) → Keeps (announce_all ps at)
unfolding announce_all
announce_all-Keeps [] at = search keeping depth 4
announce_all-Keeps (p ∷ ps) at =
    then-Keeps (create_lifecycle_event p OutboxEventType.payment_submitted at none)
      (announce_all ps at) (event-Keeps p OutboxEventType.payment_submitted at none)
      (announce_all-Keeps ps at)

export-Keeps : (m date : ℕ) → Keeps (export_payments m date)
unfolding export_payments
export-Keeps m date = search (steps, announce_all-Keeps) depth 16

pub generate-Keeps : (date : ℕ) → Keeps (generate date)
unfolding generate
generate-Keeps date = search (steps, export-Keeps) depth 10
