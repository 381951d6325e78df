-- ===== src/Course/Machine.antt =====
-- The abstract machine of a payment's status, and what it asks of the store.
use achflow.Prelude.{ℕ, ◌≡◌, Bool, true, false, ◌⊎◌, some, List, find}
use achflow.Schema.{Db, Payment, PaymentStatus, Reservation, ReservationStatus, for_payment, has_id}

-- The edges: RECEIVED to VALIDATED or VALIDATION_FAILED, and VALIDATED to SUBMITTED to SETTLED to
-- RETURNED.
unfoldable pub is_edge : PaymentStatus → PaymentStatus → Bool
is_edge PaymentStatus.received PaymentStatus.validated = true
is_edge PaymentStatus.received PaymentStatus.validation_failed = true
is_edge PaymentStatus.validated PaymentStatus.submitted = true
is_edge PaymentStatus.submitted PaymentStatus.settled = true
is_edge PaymentStatus.settled PaymentStatus.returned = true
is_edge _ _ = false

-- An edge, or none.
abbrev pub Move : PaymentStatus → PaymentStatus → Type 0
Move s t = (t ≡ s) ⊎ (is_edge s t ≡ true)

pub data Route (s : PaymentStatus) : PaymentStatus → Type 0 where
  start : Route s s
  along : {t u : PaymentStatus} → Route s t → Move t u → Route s u

-- Where a payment's reservation is settled, so is the payment.
abbrev pub CoherentRows : List Payment → List Reservation → Type 0
CoherentRows ps rs =
    (j : ℕ) (r : Reservation)
    → find (for_payment j) rs ≡ some r
    → r.status ≡ ReservationStatus.settled
    → (p : Payment) × (find (has_id j) ps ≡ some p) × (p.status ≡ PaymentStatus.settled)

abbrev pub Coherent : Db → Type 0
Coherent db = CoherentRows db.payments db.reservations

-- Every payment stays, and makes a move at most.
abbrev pub MovedRows : List Payment → List Payment → Type 0
MovedRows ps ps' =
    (j : ℕ) (p : Payment)
    → find (has_id j) ps ≡ some p
    → (p' : Payment) × (find (has_id j) ps' ≡ some p') × Move p.status p'.status
