-- ===== src/Dashboard/Volume.antt =====
-- The API's dashboard/dashboard.service.ts: the summary of today, the volume of seven days and the
-- distribution over the statuses. A day is its number since the epoch; the recent payments, which are
-- copied for display, are left out.
use achflow.Prelude.{
  ℕ, zero, suc, ◌+◌, ◌-◌, ◌*◌, ◌/◌, Bool, ◌&&◌, not, Option, List, [], ◌∷◌, length, select, update,
  count, map, leb, ltb, ◌==◌, if◌then◌else◌, same,
}
use achflow.Prelude.Int.{ℤ, pos, ◌+ℤ◌}
use achflow.Schema.{
  Db, Payment, PaymentStatus, PaymentDirection, status_discrete, direction_discrete,
}
use achflow.Payments.Listing.{is_of_scope}

abbrev pub of_status : PaymentStatus → Payment → Bool
of_status s p = same (status_discrete p.status s)

abbrev pub pays_debit : Payment → Bool
pays_debit p = same (direction_discrete p.direction PaymentDirection.debit)

abbrev pays_credit : Payment → Bool
pays_credit p = same (direction_discrete p.direction PaymentDirection.credit)

abbrev pub is_financial_amount : Payment → Bool
is_financial_amount p = not (of_status PaymentStatus.validation_failed p)

unfoldable pub sum_of_amounts : List Payment → ℤ
sum_of_amounts [] = pos 0
sum_of_amounts (p ∷ ps) = p.amount_cents +ℤ sum_of_amounts ps

-- `paymentsBetween`
unfoldable pub payments_between : (scope : Option ℕ) → (start end : ℕ) → Db → List Payment
payments_between scope start end db =
    select (λ p. is_of_scope scope p && leb start p.created_at && ltb p.created_at end) db.payments

pub record Summary : Type 0 where
  pub payments_today : ℕ
  pub total_amount_cents : ℤ
  pub debit_amount_cents : ℤ
  pub credit_amount_cents : ℤ
  pub submitted_payments : ℕ
  pub settled_payments : ℕ
  pub returned_payments : ℕ

unfoldable pub build_summary : List Payment → Summary
unfolding sum_of_amounts
build_summary payments =
    let financial = select is_financial_amount payments in
    record {
      payments_today = length payments;
      total_amount_cents = sum_of_amounts financial;
      debit_amount_cents = sum_of_amounts (select pays_debit financial);
      credit_amount_cents = sum_of_amounts (select pays_credit financial);
      submitted_payments = length (select (of_status PaymentStatus.submitted) payments);
      settled_payments = length (select (of_status PaymentStatus.settled) payments);
      returned_payments = length (select (of_status PaymentStatus.returned) payments);
    }

-- A record of the map, under its day.
pub record DayRecord : Type 0 where
  pub date : ℕ
  pub debit : ℤ
  pub credit : ℤ
  pub debit_count : ℕ
  pub credit_count : ℕ

-- The records of as many days.
unfoldable pub empty_days : (start days : ℕ) → List DayRecord
empty_days start zero = []
empty_days start (suc days) =
    record { date = start; debit = pos 0; credit = pos 0; debit_count = 0; credit_count = 0 }
    ∷ empty_days (suc start) days

abbrev pub add_to_day : Payment → DayRecord → DayRecord
add_to_day p r =
    let amount = if is_financial_amount p then p.amount_cents else pos 0 in
    if pays_debit p
    then record r { debit_count = r.debit_count + 1; debit = r.debit +ℤ amount }
    else record r { credit_count = r.credit_count + 1; credit = r.credit +ℤ amount }

abbrev pub day_number : ℕ → ℕ
day_number t = t / 86400000

-- The loop over the payments; one of another day is passed over.
unfoldable pub add_payments : List DayRecord → List Payment → List DayRecord
add_payments records [] = records
add_payments records (p ∷ ps) =
    add_payments (update (λ r. r.date == day_number p.created_at) (add_to_day p) records) ps

pub record DailyVolume : Type 0 where
  pub date : ℕ
  pub debit_count : ℕ
  pub credit_count : ℕ
  pub total_count : ℕ
  pub debit_amount_cents : ℤ
  pub credit_amount_cents : ℤ
  pub total_amount_cents : ℤ

abbrev pub volume_of : DayRecord → DailyVolume
volume_of r = record {
  date = r.date;
  debit_count = r.debit_count;
  credit_count = r.credit_count;
  total_count = r.debit_count + r.credit_count;
  debit_amount_cents = r.debit;
  credit_amount_cents = r.credit;
  total_amount_cents = r.debit +ℤ r.credit;
}

unfoldable pub build_daily_volume : List Payment → (start : ℕ) → List DailyVolume
unfolding empty_days add_payments
build_daily_volume payments start =
    map volume_of (add_payments (empty_days (day_number start) 7) payments)

-- `groupBy` of the statuses, and the six that are shown.
unfoldable pub build_status_distribution : (scope : Option ℕ) → Db → List (PaymentStatus × ℕ)
build_status_distribution scope db =
    map (λ s. (s, count (λ p. is_of_scope scope p && of_status s p) db.payments))
      (PaymentStatus.received ∷ PaymentStatus.validated ∷ PaymentStatus.submitted
        ∷ PaymentStatus.settled ∷ PaymentStatus.returned ∷ PaymentStatus.validation_failed ∷ [])

pub record Dashboard : Type 0 where
  pub summary : Summary
  pub daily_volume : List DailyVolume
  pub status_distribution : List (PaymentStatus × ℕ)
  pub generated_at : ℕ

-- `getDashboardForMerchant`
unfoldable pub get_dashboard : (scope : Option ℕ) → (now : ℕ) → Db → Dashboard
unfolding payments_between build_summary build_daily_volume build_status_distribution
get_dashboard scope now db =
    let today_start = now / 86400000 * 86400000 in
    let tomorrow_start = today_start + 86400000 in
    let seven_days_start = today_start - 6 * 86400000 in
    record {
      summary = build_summary (payments_between scope today_start tomorrow_start db);
      daily_volume =
          build_daily_volume (payments_between scope seven_days_start tomorrow_start db)
            seven_days_start;
      status_distribution = build_status_distribution scope db;
      generated_at = now;
    }
