-- ===== src/Course/Tables.antt =====
-- What keeps the rows coherent, and moves payments along edges.
use achflow.Prelude.{
  ℕ, ◌≡◌, refl, sym, Bool, true, false, inl, inr, some, List, ◌∷◌, find, update, Bool-cases, arith,
  if◌then◌else◌, ◌==◌, ==_iff,
}
use achflow.Schema.{Payment, PaymentStatus, Reservation, ReservationStatus, for_payment, has_id}
use achflow.Schema.Ids.{Below, find-holds, find-update_any, find-update_own, find-update_other}
use achflow.Course.Machine.{Move, CoherentRows, MovedRows}

-- A change that stays with the id.
abbrev pub KeepsId : (Payment → Payment) → Type 0
KeepsId g = (p : Payment) → Payment.id (g p) ≡ p.id

has_id-kept :
    (g : Payment → Payment) (j : ℕ) → KeepsId g → (p : Payment) → has_id j (g p) ≡ has_id j p
has_id-kept g j k p = rw (k p) refl

-- A payment that is found under two ids is the same.
pub same_row :
    (ps : List Payment) (i j : ℕ) (p y : Payment)
    → find (has_id i) ps ≡ some p
    → find (has_id j) ps ≡ some y
    → has_id i y ≡ true
    → y ≡ p
same_row ps i j p y found at t =
    let own : (y.id == j) ≡ true = find-holds (has_id j) ps y at in
    let same_id : i ≡ j = ground (arith, own, t) in
    let there : find (has_id i) ps ≡ some y = rw same_id at in cc

module _ (c : Payment → Bool) (g : Payment → Payment) (ps : List Payment) where
  pub found_after :
      (j : ℕ) (p : Payment)
      → KeepsId g
      → find (has_id j) ps ≡ some p
      → find (has_id j) (update c g ps) ≡ some (if c p then g p else p)
  found_after j p k e = find-update_any (has_id j) c g ps p (has_id-kept g j k) e

  pub update-MovedRows :
      KeepsId g
      → ((j : ℕ) (p : Payment)
          → find (has_id j) ps ≡ some p
          → c p ≡ true
          → Move p.status (Payment.status (g p)))
      → MovedRows ps (update c g ps)
  update-MovedRows k h j p e = elim (Bool-cases (c p)) [
    | inl yes_c ↦ (g p, ground (arith, found_after j p k e, yes_c), h j p e yes_c)
    | inr no_c ↦ (p, ground (arith, found_after j p k e, no_c), inl refl)
  ]

  -- A change that leaves what is settled settled.
  pub settled_stays :
      (rs : List Reservation)
      → KeepsId g
      → ((p : Payment)
          → p.status ≡ PaymentStatus.settled
          → c p ≡ true
          → Payment.status (g p) ≡ PaymentStatus.settled)
      → CoherentRows ps rs
      → CoherentRows (update c g ps) rs
  settled_stays rs k h co j r e s =
      let (p, found, is_settled) = co j r e s in
      elim (Bool-cases (c p)) [
        | inl yes_c ↦ (g p, ground (arith, found_after j p k found, yes_c), h p is_settled yes_c)
        | inr no_c ↦ (p, ground (arith, found_after j p k found, no_c), is_settled)
      ]

  -- A change of one payment, whose reservation is not settled.
  pub unsettled_changes :
      (i : ℕ) (rs : List Reservation)
      → KeepsId g
      → ((p : Payment) → c p ≡ true → p.id ≡ i)
      → ((r : Reservation)
          → find (for_payment i) rs ≡ some r
          → r.status ≡ ReservationStatus.settled
          → ⊥)
      → CoherentRows ps rs
      → CoherentRows (update c g ps) rs
  unsettled_changes i rs k own h co j r e s =
      let (p, found, is_settled) = co j r e s in
      let at : (p.id == j) ≡ true = find-holds (has_id j) ps p found in
      elim (Bool-cases (c p)) [
        | inl yes_c ↦
            let same_id : j ≡ i = ground (arith, at, own p yes_c) in
            absurd (h r (rw (sym same_id) e) s)
        | inr no_c ↦ (p, ground (arith, found_after j p k found, no_c), is_settled)
      ]

module _ (ps : List Payment) (rs : List Reservation) where
  -- A reservation that is new and active.
  pub active_added :
      (r : Reservation)
      → r.status ≡ ReservationStatus.active
      → CoherentRows ps rs
      → CoherentRows ps (r ∷ rs)
  unfolding find
  active_added r a co j x e s = elim (Bool-cases (for_payment j r)) [
    | inl own ↦ absurd (ground (arith, own, e, a, s))
    | inr other ↦ co j x (ground (arith, other, e)) s
  ]

  module _ (n i : ℕ) (f : Reservation → Reservation) (r : Reservation) where
    -- The reservations after a change of the row of a payment.
    abbrev pub changed : List Reservation
    changed = update (λ x. x.id == r.id) f rs

    pub changed_own :
        Below Reservation.id n rs
        → ((x : Reservation) → Reservation.payment_id (f x) ≡ x.payment_id)
        → find (for_payment i) rs ≡ some r
        → find (for_payment i) changed ≡ some (f r)
    changed_own b k e =
        find-update_own Reservation.id (for_payment i) n f rs r b (λ x. rw (k x) refl) e

    pub changed_other :
        (j : ℕ)
        → Below Reservation.id n rs
        → ((x : Reservation) → Reservation.payment_id (f x) ≡ x.payment_id)
        → find (for_payment i) rs ≡ some r
        → (i == j) ≡ false
        → find (for_payment j) changed ≡ find (for_payment j) rs
    changed_other j b k e ne =
        let own : (r.payment_id == i) ≡ true = find-holds (for_payment i) rs r e in
        find-update_other Reservation.id (for_payment i) (for_payment j) n f rs r b
          (λ x. rw (k x) refl) e (ground (arith, own, ne))

    -- A reservation changes to one that is settled only where its payment is.
    pub changed-CoherentRows :
        Below Reservation.id n rs
        → ((x : Reservation) → Reservation.payment_id (f x) ≡ x.payment_id)
        → find (for_payment i) rs ≡ some r
        → (Reservation.status (f r) ≡ ReservationStatus.settled
            → (p : Payment) × (find (has_id i) ps ≡ some p) × (p.status ≡ PaymentStatus.settled))
        → CoherentRows ps rs
        → CoherentRows ps changed
    changed-CoherentRows b k e h co j x found s = elim (Bool-cases (i == j)) [
      | inl own ↦
          let same_id : i ≡ j = (==_iff i j).0 own in
          let row : some x ≡ some (f r) = rw (sym found, sym same_id) (changed_own b k e) in
          rw (sym same_id) (h (ground (arith, row, s)))
      | inr other ↦ co j x (rw (sym (changed_other j b k e other)) found) s
    ]
