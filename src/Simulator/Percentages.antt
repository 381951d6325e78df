-- ===== src/Simulator/Percentages.antt =====
-- How many of a run's payments a percentage picks.
use achflow.Prelude.{
  ℕ, suc, zero, ◌+◌, ◌*◌, ◌%◌, ◌≤◌, ◌<◌, ◌≡◌, refl, Bool, true, ◌&&◌, arith, ◌==◌, ℕ_discrete,
  if◌then◌else◌,
}
use achflow.Simulator.Scenario.{percent}

-- How many of the first indexes, counted from an offset, are picked.
unfoldable picked : (p offset : ℕ) → ℕ → ℕ
picked p offset zero = 0
picked p offset (suc n) =
    let rest = picked p offset n in if percent p (offset + n) then suc rest else rest

all_below : ℕ → (ℕ → Bool) → Bool
all_below zero f = true
all_below (suc n) f = f n && all_below n f

all_below_lem : (n k : ℕ) (f : ℕ → Bool) → all_below n f ≡ true → k < n → f k ≡ true
unfolding all_below
all_below_lem zero k f h l = absurd (omega arith)
all_below_lem (suc n) k f h l = elim (ℕ_discrete k n) [
  | yes e ↦ rw e (ground arith)
  | no ne ↦ all_below_lem n k f (ground arith) (omega arith)
]

percent_period : (p b i : ℕ) → percent p (b * 100 + i) ≡ percent p i
unfolding percent
percent_period p b i =
    let same_rest : ((b * 100 + i) * 37 + 17) % 100 ≡ (i * 37 + 17) % 100 = omega arith in
    rw same_rest refl

picked_period : (p b n : ℕ) → picked p (b * 100) n ≡ picked p 0 n
unfolding picked
picked_period p b zero = refl
picked_period p b (suc n) = ground (arith, percent_period p b n, picked_period p b n)

first_hundred : all_below 101 (λ p. picked p 0 100 == p) ≡ true
unfolding all_below picked percent
first_hundred = refl

-- Of every hundred payments in a row, from a multiple of a hundred on, a percentage picks as many
-- as it says.
picked-percent : (p block : ℕ) → p ≤ 100 → picked p (block * 100) 100 ≡ p
picked-percent p block h =
    let found = all_below_lem 101 p (λ q. picked q 0 100 == q) first_hundred (omega arith) in
    rw (picked_period p block 100) (ground (arith, found))
