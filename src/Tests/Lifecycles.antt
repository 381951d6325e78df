-- ===== src/Tests/Lifecycles.antt =====
-- Instances of the theorems on agreement, repetition and balances.
use achflow.Prelude.{
  ◌++◌, ◌≡◌, refl, none, some, List, arith, find, update, count, not, ℕ_discrete, String_discrete,
}
use achflow.Prelude.Int.{pos, ◌+ℤ◌, ◌-ℤ◌, ◌≤ℤ◌}
use achflow.Schema.{
  Db, LedgerEntry, Payment, Merchant, ok, PaymentDirection, PaymentStatus, ReservationStatus,
  Reservation, ProcessedBankEvent, status_discrete, direction_discrete, event_type_discrete,
  entry_key_discrete, event_key_discrete, reservation_status_discrete, account_status_discrete,
  entry_type_discrete, merchant_status_discrete, event_status_discrete, update_payments,
  update_payment, update_reservation, create_reservation, create_entry, create_event,
  create_bank_event, update_events, save_usage, usage_rows, find_usage, find_reservation,
  find_payment,
}
use achflow.Schema.Ids.{WellFormed}
use achflow.Events.{create_lifecycle_event}
use achflow.Ledger.{
  posted_balance, active_reserved, available_balance, sum_entries, sum_active, entry_impact,
}
use achflow.Ledger.Sums.{held}
use achflow.Lifecycle.Transition.{
  PaymentForValidation, passed, is_validated, transition, complete_outbox,
}
use achflow.Lifecycle.Reserving.{
  reserve_daily_usage, reserve_and_transition, check_limits, reserve_funds, utilized,
  utc_business_date,
}
use achflow.Lifecycle.Releasing.{release_reservation}
use achflow.Lifecycle.Settling.{settle_reservation, mark_settled}
use achflow.Lifecycle.Returning.{return_settlement}
use achflow.Lifecycle.BankEvents.{process_bank_event}
use achflow.Engine.Settling.{settle}
use achflow.Engine.Returning.{return_settlement as engine_return}
use achflow.Engine.Validating.{fails_requirements}
use achflow.Validation.{validate_payment}
use achflow.Agreement.Settlement.{committed, settle_agrees}
use achflow.Agreement.Returns.{return_agrees}
use achflow.Agreement.Requirements.{requirements_agree}
use achflow.Repeats.{settle_twice}
use achflow.Money.Settlements.{credit-balances, debit-balances}
use achflow.Money.Releases.{release-balances}
use achflow.Money.Returns.{debit_round_trip}
use achflow.Money.Reserving.{reserve-balances}
use achflow.Limits.{daily_limit}
use achflow.History.Steps.{
  Reach, here, next, ticks, worker_settles, history_append_only, history_terms,
}
use achflow.Schema.Keeping.{SameTerms}
use achflow.Tests.Sample.{store, left, reservation, payment, account, merchant}

-- Names what the runs below compute through.
unfoldable runs : Unit {0}
unfolding settle_reservation release_reservation return_settlement reserve_daily_usage
    process_bank_event reserve_and_transition check_limits reserve_funds transition complete_outbox
    update_payments update_payment update_reservation create_reservation create_entry create_event
    create_bank_event update_events save_usage usage_rows create_lifecycle_event posted_balance
    active_reserved available_balance sum_entries sum_active entry_impact held find update count
    status_discrete direction_discrete entry_key_discrete event_key_discrete
    reservation_status_discrete account_status_discrete entry_type_discrete merchant_status_discrete
    event_status_discrete ℕ_discrete String_discrete ◌+ℤ◌ ◌-ℤ◌ event_type_discrete
runs = tt

store-WellFormed : WellFormed store
store-WellFormed = omega arith

abbrev after_settlement : Db
after_settlement = left (settle_reservation 10) store

abbrev after_release : Db
after_release = left (release_reservation 10) store

abbrev after_return : Db
after_return = left (return_settlement 13 "R01") store

abbrev after_debit : Db
after_debit = left (settle_reservation 11) store

abbrev after_debit_return : Db
after_debit_return = left (return_settlement 11 "R02") after_debit

abbrev held_credit : Reservation
held_credit = reservation 20 10 ReservationStatus.active 4000

abbrev settled_credit : Reservation
settled_credit = reservation 21 13 ReservationStatus.settled 700

abbrev submitted_debit : Payment
submitted_debit = payment 11 PaymentDirection.debit PaymentStatus.submitted 500

abbrev received_credit : Payment
received_credit = payment 12 PaymentDirection.credit PaymentStatus.received 3000

abbrev snapshot : PaymentForValidation
snapshot = record { payment = received_credit; merchant = some merchant }

abbrev after_validation : Db
after_validation = left (reserve_daily_usage snapshot 30) store

abbrev strict_merchant : Merchant
strict_merchant = record merchant { daily_amount_limit = pos 2000 }

abbrev strict_snapshot : PaymentForValidation
strict_snapshot = record { payment = received_credit; merchant = some strict_merchant }

abbrev after_refusal : Db
after_refusal = left (reserve_daily_usage strict_snapshot 30) store

abbrev report : ProcessedBankEvent
report = record { bank_event_id = 7; payment_id = 13; event_timestamp = 5 }

settle_agrees_example : committed (settle_reservation 10 store) ≡ committed (settle 10 store)
settle_agrees_example = settle_agrees 10 store store-WellFormed

only_settled :
    (r : Reservation) (p : Payment)
    → find_reservation 13 store ≡ some r
    → r.status ≡ ReservationStatus.settled
    → find_payment 13 store ≡ some p
    → p.status ≡ PaymentStatus.settled
unfolding find
only_settled r p e s f = ground arith

requirements_agree_example :
    is_validated (validate_payment snapshot).status
    ≡ not (fails_requirements received_credit merchant)
requirements_agree_example = requirements_agree snapshot merchant refl

settle_twice_example :
    settle_reservation 10 after_settlement
    ≡ ok (some (mark_settled 1000 held_credit), after_settlement)
unfolding runs
settle_twice_example = settle_twice 10 store after_settlement _ store-WellFormed refl

release-balances_example :
    (posted_balance 2 after_release ≡ posted_balance 2 store)
    × (active_reserved 2 after_release +ℤ held 2 held_credit ≡ active_reserved 2 store)
unfolding runs
release-balances_example =
    release-balances 2 10 store after_release held_credit _ store-WellFormed refl
      (λ e. ground arith) refl

credit-balances_example :
    (posted_balance 2 after_settlement ≡ posted_balance 2 store)
    × (active_reserved 2 after_settlement +ℤ held 2 held_credit ≡ active_reserved 2 store)
unfolding runs
credit-balances_example =
    credit-balances 2 10 store after_settlement held_credit _ store-WellFormed refl refl refl

debit-balances_example :
    (posted_balance 2 after_debit ≡ posted_balance 2 store -ℤ pos 500)
    × (active_reserved 2 after_debit ≡ active_reserved 2 store)
unfolding runs
debit-balances_example =
    debit-balances 2 11 store after_debit submitted_debit account none refl refl refl refl refl

debit_round_trip_example :
    (posted_balance 2 after_debit_return ≡ posted_balance 2 store)
    × (active_reserved 2 after_debit_return ≡ active_reserved 2 store)
unfolding runs
debit_round_trip_example =
    debit_round_trip 2 11 "R02" store after_debit after_debit_return submitted_debit account none
      none refl refl refl refl refl refl

reserve-balances_example :
    (posted_balance 2 after_validation ≡ posted_balance 2 store)
    × (active_reserved 2 after_validation ≡ active_reserved 2 store +ℤ pos 3000)
    × (pos 0 ≤ℤ available_balance 2 after_validation)
unfolding runs
reserve-balances_example =
    reserve-balances 2 30 snapshot merchant received_credit store after_validation account passed
      refl refl refl refl refl refl refl

daily_limit_example :
    (utilized (find_usage 1 (utc_business_date 100000000) after_validation)
      ≡ utilized (find_usage 1 (utc_business_date 100000000) store) +ℤ pos 3000)
    × (utilized (find_usage 1 (utc_business_date 100000000) after_validation) ≤ℤ pos 9000)
unfolding runs
daily_limit_example =
    daily_limit 30 snapshot merchant received_credit store after_validation passed store-WellFormed
      refl refl refl refl refl

return_agrees_example :
    committed (return_settlement 13 "R01" store) ≡ committed (engine_return 13 "R01" store)
unfolding runs
return_agrees_example =
    return_agrees 13 "R01" store store-WellFormed
      λ r p e s f. ground (arith, only_settled r p e s f)

settlement_history : Reach store (record after_settlement { clock = 2000 })
unfolding runs
settlement_history = next (next here (worker_settles 10 _ refl)) (ticks 2000 refl)

history_append_only_example :
    (new : List LedgerEntry) × ((record after_settlement { clock = 2000 }).ledger_entries
      ≡ new ++ store.ledger_entries)
history_append_only_example =
    history_append_only store (record after_settlement { clock = 2000 }) settlement_history

history_terms_example :
    (p : Payment) × (find_payment 11 (record after_settlement { clock = 2000 }) ≡ some p)
    × SameTerms submitted_debit p
unfolding runs
history_terms_example =
    history_terms store (record after_settlement { clock = 2000 }) 11 submitted_debit
      store-WellFormed settlement_history refl
