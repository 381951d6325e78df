-- ===== src/Ledger/Sums.antt =====
-- What the two sums of a funding account become when a row is added or changed.
use achflow.Prelude.{
  ℕ, ◌≡◌, refl, ◌&&◌, some, List, [], ◌∷◌, arith, ◌==◌, if◌then◌else◌, find, update, Bool-cases,
  inl, inr,
}
use achflow.Prelude.Int.{ℤ, pos, ◌+ℤ◌, int_laws}
use achflow.Schema.{Reservation, for_payment}
use achflow.Schema.Ids.{Below, find-lt, update_above}
use achflow.Ledger.{is_active, sum_active}

-- What a reservation holds of an account.
unfoldable pub held : ℕ → Reservation → ℤ
held a r = if r.funding_account_id == a && is_active r then r.amount else pos 0

pub sum_active-cons :
    (a : ℕ) (r : Reservation) (rs : List Reservation)
    → sum_active a (r ∷ rs) ≡ held a r +ℤ sum_active a rs
unfolding sum_active held
sum_active-cons a r rs = refl

-- An update of one row replaces what it holds.
pub sum_active-update :
    (a n i : ℕ) (f : Reservation → Reservation) (rs : List Reservation) (r : Reservation)
    → Below Reservation.id n rs
    → find (for_payment i) rs ≡ some r
    → sum_active a (update (λ x. x.id == r.id) f rs) +ℤ held a r ≡ sum_active a rs +ℤ held a (f r)
unfolding find update
sum_active-update a n i f [] r b e = cc
sum_active-update a n i f (x ∷ rs) r b e = elim (Bool-cases (x.payment_id == i)) [
  | inl own ↦
      let here : x ≡ r = ground arith in
      let rest = update_above Reservation.id x.id x.id f rs b.1 (omega arith) in
      let changed : update (λ y. y.id == r.id) f (x ∷ rs) ≡ f r ∷ rs =
        ground (arith, here, update_above Reservation.id x.id r.id f rs b.1) in
      rw (changed, here, sum_active-cons a (f r) rs, sum_active-cons a r rs) (omega int_laws)
  | inr other ↦
      let found : find (for_payment i) rs ≡ some r = ground arith in
      let changed : update (λ y. y.id == r.id) f (x ∷ rs) ≡ x ∷ update (λ y. y.id == r.id) f rs =
        ground (arith, find-lt Reservation.id (for_payment i) x.id rs r b.1 found) in
      rw (changed, sum_active-cons a x rs, sum_active-cons a x (update (λ y. y.id == r.id) f rs))
        (grind (int_laws, sum_active-update a x.id i f rs r b.1 found))
]
