-- ===== src/Dashboard/Week.antt =====
-- The volume of the week against its payments: `buildDailyVolume` of the API's
-- dashboard/dashboard.service.ts.
use achflow.Prelude.{
  ℕ, zero, suc, ◌+◌, ◌-◌, ◌*◌, ◌/◌, ◌≤◌, ◌<◌, ◌≡◌, ◌∙◌, refl, ap, Bool, false, ◌&&◌, Option, List,
  [], ◌∷◌, length, select, update, map, arith, ◌==◌, leb, ltb, if◌then◌else◌, Bool-cases, inl, inr,
  All,
}
use achflow.Prelude.Int.{ℤ, pos, ◌+ℤ◌, int_laws}
use achflow.Schema.{Db, Payment}
use achflow.Payments.Listing.{is_of_scope}
use achflow.Dashboard.Volume.{
  is_financial_amount, pays_debit, sum_of_amounts, payments_between, DayRecord, empty_days,
  add_to_day, day_number, add_payments, DailyVolume, volume_of, build_daily_volume, get_dashboard,
}

-- The records of days one after another.
abbrev Consecutive : ℕ → List DayRecord → Type 0
Consecutive d [] = Unit {0}
Consecutive d (r ∷ rs) = (r.date ≡ d) × Consecutive (suc d) rs

abbrev counted : List DayRecord → ℕ
counted [] = 0
counted (r ∷ rs) = r.debit_count + r.credit_count + counted rs

abbrev summed : List DayRecord → ℤ
summed [] = pos 0
summed (r ∷ rs) = (r.debit +ℤ r.credit) +ℤ summed rs

abbrev amount_of : Payment → ℤ
amount_of p = if is_financial_amount p then p.amount_cents else pos 0

module _ (p : Payment) where
  abbrev its_day : DayRecord → Bool
  its_day r = r.date == day_number p.created_at

  untouched :
      (d : ℕ) (rs : List DayRecord)
      → Consecutive d rs
      → day_number p.created_at < d
      → update its_day (add_to_day p) rs ≡ rs
  unfolding update
  untouched d [] c h = refl
  untouched d (r ∷ rs) c h =
      let other : its_day r ≡ false = ground (arith, c.0, h) in
      rw (other, untouched (suc d) rs c.1 (omega (arith, h))) refl

  still-Consecutive :
      (d : ℕ) (rs : List DayRecord)
      → Consecutive d rs
      → Consecutive d (update its_day (add_to_day p) rs)
  unfolding update
  still-Consecutive d [] c = tt
  still-Consecutive d (r ∷ rs) c = (ground (arith, c.0), still-Consecutive (suc d) rs c.1)

  added :
      (d : ℕ) (rs : List DayRecord)
      → Consecutive d rs
      → d ≤ day_number p.created_at
      → day_number p.created_at < d + length rs
      → (counted (update its_day (add_to_day p) rs) ≡ suc (counted rs))
        × (summed (update its_day (add_to_day p) rs) ≡ amount_of p +ℤ summed rs)
  unfolding update
  added d [] c low high = absurd (omega (arith, low, high))
  added d (r ∷ rs) c low high = elim (Bool-cases (its_day r)) [
    | inl own ↦
        let rest = untouched (suc d) rs c.1 (ground (arith, own, c.0)) in
        rw (own, rest)
          (elim (Bool-cases (pays_debit p)) [
            | inl e ↦ rw e (omega arith, grind int_laws)
            | inr e ↦ rw e (omega arith, grind int_laws)
          ])
    | inr other ↦
        let (k, s) = added (suc d) rs c.1 (ground (arith, other, c.0, low)) (omega (arith, high)) in
        rw other (omega (arith, k), grind (int_laws, s))
  ]

length-update :
    (q : DayRecord → Bool) (f : DayRecord → DayRecord) (rs : List DayRecord)
    → length (update q f rs) ≡ length rs
unfolding update
length-update q f [] = refl
length-update q f (r ∷ rs) = ground (arith, length-update q f rs)

-- A payment of the days from one, as many as there are.
abbrev IsWithin : (d n : ℕ) → Payment → Type 0
IsWithin d n p = (d ≤ day_number p.created_at) × (day_number p.created_at < d + n)

All-added :
    (d n : ℕ) (rs : List DayRecord) (ps : List Payment)
    → Consecutive d rs
    → length rs ≡ n
    → All (IsWithin d n) ps
    → (counted (add_payments rs ps) ≡ counted rs + length ps)
      × (summed (add_payments rs ps) ≡ summed rs +ℤ sum_of_amounts (select is_financial_amount ps))
unfolding add_payments sum_of_amounts select
All-added d n rs [] c e a = (omega arith, grind int_laws)
All-added d n rs (p ∷ ps) c e a =
    let next = update (its_day p) (add_to_day p) rs in
    let (k, s) =
      All-added d n next ps (still-Consecutive p d rs c)
        (length-update (its_day p) (add_to_day p) rs ∙ e) a.1 in
    let (k1, s1) = added p d rs c a.0.0 (omega (arith, e, a.0.1)) in
    (omega (arith, k, k1), grind (int_laws, s, s1))

-- The records that the map starts with.
seven_days :
    (d n : ℕ)
    → Consecutive d (empty_days d n)
      × (length (empty_days d n) ≡ n)
      × (counted (empty_days d n) ≡ 0)
      × (summed (empty_days d n) ≡ pos 0)
unfolding empty_days
seven_days d zero = (tt, refl, refl, refl)
seven_days d (suc n) =
    let (c, l, k, s) = seven_days (suc d) n in
    ((refl, c), ground (arith, l), omega (arith, k), grind (int_laws, s))

zero_left : (x : ℤ) → pos 0 +ℤ x ≡ x
zero_left x = grind int_laws

-- The totals of the days.
abbrev pub total_count : List DailyVolume → ℕ
total_count [] = 0
total_count (v ∷ vs) = v.total_count + total_count vs

abbrev pub total_amount : List DailyVolume → ℤ
total_amount [] = pos 0
total_amount (v ∷ vs) = v.total_amount_cents +ℤ total_amount vs

shown_totals :
    (rs : List DayRecord)
    → (total_count (map volume_of rs) ≡ counted rs) × (total_amount (map volume_of rs) ≡ summed rs)
shown_totals [] = (refl, refl)
shown_totals (r ∷ rs) = let (k, s) = shown_totals rs in (omega (arith, k), grind (int_laws, s))

-- The week of a time: six days and the day itself.
abbrev pub week_of : (scope : Option ℕ) → (now : ℕ) → Db → List Payment
week_of scope now db =
    payments_between scope (now / 86400000 * 86400000 - 6 * 86400000)
      (now / 86400000 * 86400000 + 86400000) db

IsWithin-week :
    (scope : Option ℕ) (now : ℕ) (ps : List Payment)
    → 6 ≤ day_number now
    → All (IsWithin (day_number (now / 86400000 * 86400000 - 6 * 86400000)) 7) (
        select
          (λ p.
            is_of_scope scope p
            && leb (now / 86400000 * 86400000 - 6 * 86400000) p.created_at
            && ltb p.created_at (now / 86400000 * 86400000 + 86400000))
          ps)
unfolding select
IsWithin-week scope now [] h = tt
IsWithin-week scope now (p ∷ ps) h =
    elim (Bool-cases (
      is_of_scope scope p
      && leb (now / 86400000 * 86400000 - 6 * 86400000) p.created_at
      && ltb p.created_at (now / 86400000 * 86400000 + 86400000))) [
        | inl e ↦ rw e ((ground (arith, e, h), ground (arith, e, h)), IsWithin-week scope now ps h)
        | inr e ↦ rw e (IsWithin-week scope now ps h)
      ]

-- The daily volumes of a dashboard count every payment of the week, and sum the amounts of those
-- that did not fail their validation.
pub week_volume :
    (scope : Option ℕ) (now : ℕ) (db : Db)
    → 6 ≤ day_number now
    → let d = get_dashboard scope now db in
      (total_count d.daily_volume ≡ length (week_of scope now db))
      × (total_amount d.daily_volume
          ≡ sum_of_amounts (select is_financial_amount (week_of scope now db)))
unfolding get_dashboard build_daily_volume payments_between
week_volume scope now db h =
    let start = day_number (now / 86400000 * 86400000 - 6 * 86400000) in
    let week = week_of scope now db in
    let (c, l, k0, s0) = seven_days start 7 in
    let (k, s) =
      All-added start 7 (empty_days start 7) week c l (IsWithin-week scope now db.payments h) in
    let (kt, st) = shown_totals (add_payments (empty_days start 7) week) in
    let paid = sum_of_amounts (select is_financial_amount week) in
    (omega (arith, k, k0, kt), st ∙ (s ∙ (ap (λ z. z +ℤ paid) s0 ∙ zero_left paid)))
