-- ===== src/Nacha/Selection.antt =====
-- A row is among the selected ones exactly where it passes the test.
use achflow.Prelude.{
  ℕ, ◌≤◌, ◌≡◌, refl, Bool, false, ◌||◌, some, List, [], ◌∷◌, find, select, arith, ◌==◌, Bool-cases,
  inl, inr,
}
use achflow.Schema.{Payment, has_id}
use achflow.Schema.Ids.{Below}
use achflow.Nacha.Generator.{insert, by_id, is_among}

among-insert :
    (p : Payment) (ps : List Payment) (i : ℕ)
    → is_among (insert p ps) i ≡ (p.id == i || is_among ps i)
unfolding insert is_among
among-insert p [] i = refl
among-insert p (x ∷ ps) i = ground (arith, among-insert p ps i)

among-by_id : (ps : List Payment) (i : ℕ) → is_among (by_id ps) i ≡ is_among ps i
unfolding by_id is_among
among-by_id [] i = refl
among-by_id (p ∷ ps) i = ground (arith, among-insert p (by_id ps) i, among-by_id ps i)

module _ (q : Payment → Bool) where
  none_above :
      (n i : ℕ) (ps : List Payment)
      → Below Payment.id n ps
      → n ≤ i
      → is_among (select q ps) i ≡ false
  unfolding is_among select
  none_above n i [] b h = refl
  none_above n i (p ∷ ps) b h = ground (arith, none_above p.id i ps b.1)

  among-found :
      (n i : ℕ) (ps : List Payment) (p : Payment)
      → Below Payment.id n ps
      → find (has_id i) ps ≡ some p
      → is_among (select q ps) i ≡ q p
  unfolding is_among select find
  among-found n i [] p b e = cc
  among-found n i (x ∷ ps) p b e = elim (Bool-cases (x.id == i)) [
    | inl own ↦ ground (arith, own, e, none_above x.id i ps b.1)
    | inr other ↦ ground (arith, other, among-found x.id i ps p b.1)
  ]

  -- The payment of an id is among the selected ones, in order, exactly where it passes the test.
  pub among-selected :
      (n i : ℕ) (ps : List Payment) (p : Payment)
      → Below Payment.id n ps
      → find (has_id i) ps ≡ some p
      → is_among (by_id (select q ps)) i ≡ q p
  among-selected n i ps p b e = rw (among-by_id (select q ps) i) (among-found n i ps p b e)
