-- ===== src/Listing/Ranges.antt =====
-- The ranges of dates of the listings: `ledgerDateRange` of the API's ledger/ledger.service.ts,
-- `paymentDateRange` of payments/payments.service.ts, `dateRange` of nacha-files/nacha-files.service.ts
-- and `deliveryDateRange` of webhooks/merchant-webhook-endpoints.service.ts. Times are milliseconds
-- since the epoch; subtraction stops there.
use achflow.Prelude.{
  ℕ, ◌+◌, ◌-◌, ◌*◌, ◌/◌, ◌≤◌, ◌≡◌, ◌↔◌, Bool, true, ◌&&◌, Option, none, some, leb, ltb, arith,
  if◌then◌else◌,
}
use achflow.Schema.{Result, ok, err, bad_request, date_range_invalid, custom_range_incomplete}

pub data DateRange : Type 0 where
  all today last_7_days last_30_days custom : DateRange

pub record DateQuery : Type 0 where
  pub start_date : Option ℕ
  pub end_date : Option ℕ
  pub date_range : Option DateRange

-- `gte` of the start and `lt` of the end.
pub record Range : Type 0 where
  pub start : Option ℕ
  pub end : Option ℕ

abbrev pub start_of_utc_day : ℕ → ℕ
start_of_utc_day t = t / 86400000 * 86400000

abbrev pub after_days : ℕ → ℕ → ℕ
after_days n t = t + n * 86400000

abbrev pub before_days : ℕ → ℕ → ℕ
before_days n t = t - n * 86400000

-- The dates of the query, where it has one.
unfoldable pub given_range : DateQuery → Option (Result Range)
given_range query = elim query.start_date [
  | none ↦ elim query.end_date [
    | none ↦ none
    | some e ↦ some (ok (record { start = none; end = some (after_days 1 (start_of_utc_day e)) }))
  ]
  | some s ↦ elim query.end_date [
    | none ↦ some (ok (record { start = some (start_of_utc_day s); end = none }))
    | some e ↦
        if ltb (start_of_utc_day e) (start_of_utc_day s)
        then some (err (bad_request date_range_invalid))
        else some (
            ok (record {
              start = some (start_of_utc_day s);
              end = some (after_days 1 (start_of_utc_day e));
            }))
  ]
]

-- The whole days up to today.
abbrev days_until : (days now : ℕ) → Range
days_until days now = record {
  start = some (before_days days (start_of_utc_day now));
  end = some (after_days 1 (start_of_utc_day now));
}

abbrev named_range : (now : ℕ) → DateRange → Result Range
named_range now DateRange.all = ok (record { start = none; end = none })
named_range now DateRange.custom = err (bad_request custom_range_incomplete)
named_range now DateRange.today = ok (days_until 0 now)
named_range now DateRange.last_7_days = ok (days_until 6 now)
named_range now DateRange.last_30_days = ok (days_until 29 now)

abbrev pub or_else : {A : Type 0} → Option A → A → A
or_else none a = a
or_else (some b) a = b

unfoldable pub ledger_date_range : (now : ℕ) → DateQuery → Result Range
unfolding given_range
ledger_date_range now query =
    or_else (given_range query) (named_range now (or_else query.date_range DateRange.all))

unfoldable pub file_date_range : (now : ℕ) → DateQuery → Result Range
unfolding given_range
file_date_range now query =
    or_else (given_range query) (named_range now (or_else query.date_range DateRange.all))

-- Every range of payments but today and 7 days is the last 30 days.
abbrev named_payment_range : (now : ℕ) → DateRange → Result Range
named_payment_range now DateRange.all = ok (days_until 29 now)
named_payment_range now DateRange.custom = err (bad_request custom_range_incomplete)
named_payment_range now DateRange.today = ok (days_until 0 now)
named_payment_range now DateRange.last_7_days = ok (days_until 6 now)
named_payment_range now DateRange.last_30_days = ok (days_until 29 now)

-- Without a range, it is the last 30 days.
unfoldable pub payment_date_range : (now : ℕ) → DateQuery → Result Range
unfolding given_range
payment_date_range now query =
    or_else (given_range query)
      (named_payment_range now (or_else query.date_range DateRange.last_30_days))

-- The last days of deliveries end now, and begin as many times 24 hours before.
abbrev named_delivery_range : (now : ℕ) → DateRange → Result Range
named_delivery_range now DateRange.all = ok (record { start = none; end = none })
named_delivery_range now DateRange.custom = err (bad_request custom_range_incomplete)
named_delivery_range now DateRange.today = ok (days_until 0 now)
named_delivery_range now DateRange.last_7_days =
    ok (record { start = some (before_days 7 now); end = some now })
named_delivery_range now DateRange.last_30_days =
    ok (record { start = some (before_days 30 now); end = some now })

unfoldable pub delivery_date_range : (now : ℕ) → DateQuery → Result Range
unfolding given_range
delivery_date_range now query =
    or_else (given_range query) (named_delivery_range now (or_else query.date_range DateRange.all))

-- `{ createdAt: { gte, lt } }`
abbrev pub in_range : Range → ℕ → Bool
in_range r t =
    (elim r.start [ none ↦ true | some s ↦ leb s t ])
    && (elim r.end [ none ↦ true | some e ↦ ltb t e ])

-- The day of a time.
abbrev pub day_of : ℕ → ℕ
day_of t = t / 86400000

-- A range between two dates takes exactly the times of the days from the first to the second.
given_days :
    (now s e t : ℕ) (named : Option DateRange) (r : Range)
    → ledger_date_range now (record { start_date = some s; end_date = some e; date_range = named })
      ≡ ok r
    → (in_range r t ≡ true) ↔ ((day_of s ≤ day_of t) × (day_of t ≤ day_of e))
unfolding ledger_date_range given_range
given_days now s e t named r h = (λ i. ground arith, λ d. ground (arith, d))
