-- ===== src/Simulator/Amounts.antt =====
-- The amounts of a run that the API accepted.
use achflow.Prelude.{ℕ, ◌+◌, ◌-◌, ◌%◌, ◌≤◌, ◌<◌, ◌≡◌, true, false, none, List, [], ◌∷◌, All, arith}
use achflow.Prelude.Int.{ℤ, pos, negsuc, ◌+ℤ◌, ◌-ℤ◌, ◌≤ℤ◌, int_laws}
use achflow.Simulator.Runs.{SimulatorRun, answer, selected, create_run}
use achflow.Simulator.Scenario.{
  RunConfig, SimulatorMerchant, validate, check_amount_range, validate_amount_ranges, percent,
  amount_for, cents, max_amount_cents, maximum_for, spread,
}

-- A payment that is to succeed is within the configured range and the merchant's limit; one that
-- is to fail is just above that limit, and within the simulator's maximum.
abbrev pub IsPlanned : RunConfig → ℕ → SimulatorMerchant → Type 0
IsPlanned c index m =
    (percent c.scenario.validation_failure_percent index ≡ false
      → (a : ℕ) × (amount_for c m index false ≡ cents (pos a))
        × (c.minimum_amount_cents ≤ a)
        × (a ≤ c.maximum_amount_cents)
        × (pos a ≤ℤ m.per_payment_limit))
    × (percent c.scenario.validation_failure_percent index ≡ true
        → (amount_for c m index true ≡ cents (m.per_payment_limit +ℤ pos 1))
          × (m.per_payment_limit +ℤ pos 1 ≤ℤ max_amount_cents))

not_picked : (p index : ℕ) → percent p index ≡ false → p < 100
unfolding percent
not_picked p index h = ground arith

is_picked : (p index : ℕ) → percent p index ≡ true → 0 < p
unfolding percent
is_picked p index h = ground arith

-- With a range that is not empty, the spread stays in it.
spread_in_range :
    (minimum index : ℕ) (maximum : ℤ)
    → pos minimum ≤ℤ maximum
    → (a : ℕ) × (spread minimum index (maximum -ℤ pos minimum +ℤ pos 1) ≡ cents (pos a))
      × (minimum ≤ a)
      × (pos a ≤ℤ maximum)
spread_in_range minimum index (pos n) h =
    let size : pos n -ℤ pos minimum +ℤ pos 1 ≡ pos (n - minimum + 1) = grind int_laws in
    (minimum + index % (n - minimum + 1), rw size (ground arith), omega arith, grind int_laws)
spread_in_range minimum index (negsuc n) h = absurd (grind int_laws)

range-IsPlanned :
    (c : RunConfig) (m : SimulatorMerchant) (index : ℕ)
    → validate c ≡ none
    → check_amount_range c m ≡ none
    → IsPlanned c index m
unfolding validate check_amount_range amount_for
range-IsPlanned c m index v h = (
  λ e.
      let low = not_picked c.scenario.validation_failure_percent index e in
      let fits : pos c.minimum_amount_cents ≤ℤ maximum_for c m = grind (int_laws, low) in
      let (a, made, above, below) =
        spread_in_range c.minimum_amount_cents index (maximum_for c m) fits in
      (a, made, above, grind (int_laws, below), grind (int_laws, below)),
  λ e.
      let some_fail = is_picked c.scenario.validation_failure_percent index e in
      (grind (int_laws, some_fail), grind (int_laws, some_fail)),
)

ranges-IsPlanned :
    (c : RunConfig) (merchants : List SimulatorMerchant) (index : ℕ)
    → validate c ≡ none
    → validate_amount_ranges c merchants ≡ none
    → All (IsPlanned c index) merchants
unfolding validate_amount_ranges
ranges-IsPlanned c [] index v h = tt
ranges-IsPlanned c (m ∷ ms) index v h =
    (range-IsPlanned c m index v (ground arith), ranges-IsPlanned c ms index v (ground arith))

-- In a run that the API created, each payment that is to succeed has an amount in the configured
-- range and within its merchant's limit, and each that is to fail has the amount just above that
-- limit, within the simulator's maximum.
pub created-IsPlanned :
    (fresh index : ℕ) (c : RunConfig) (merchants : List SimulatorMerchant)
    (runs runs' : List SimulatorRun) (r : SimulatorRun)
    → create_run fresh c merchants runs ≡ answer r runs'
    → All (IsPlanned c index) (selected c merchants)
unfolding create_run
created-IsPlanned fresh index c merchants runs runs' r h =
    ranges-IsPlanned c (selected c merchants) index (ground arith) (ground arith)
