-- ===== src/Course/Submitting.antt =====
-- The generation of a file, and the creation of a payment, on the machine.
use achflow.Prelude.{ℕ, ◌*◌, ◌/◌, ◌≡◌, refl, true, inl, inr, Option, String, Option-cases, arith}
use achflow.Schema.{Db, Payment, PaymentStatus, AchFile, ok}
use achflow.Schema.Ids.{WellFormed}
use achflow.Nacha.Generator.{first_merchant, export_payments, generate}
use achflow.Nacha.Submission.{is_taken, submitted_payment, export_rows}
use achflow.Payments.Requests.{CreatePaymentRecord}
use achflow.Payments.Creation.{create_with_outbox_and_idempotency}
use achflow.Payments.Adding.{older, created_rows}
use achflow.Course.Machine.{is_edge, Move, Coherent}
use achflow.Course.Tables.{update-MovedRows, settled_stays}
use achflow.Course.Settling.{Course, Course-same}

validated_moves :
    (merchant : ℕ) (db : Db) (p : Payment)
    → is_taken merchant db p ≡ true
    → (p.status ≡ PaymentStatus.validated) × Move p.status PaymentStatus.submitted
unfolding is_edge
validated_moves merchant db p t = (ground arith, ground arith)

export-Course :
    (merchant date : ℕ) (x : Option AchFile) (db db' : Db)
    → Coherent db
    → export_payments merchant date db ≡ ok (x, db')
    → Course db db'
export-Course merchant date x db db' co h =
    let (ps, rs, ms, fs) = export_rows merchant date db db' x h in
    let c = is_taken merchant db in
    let g = submitted_payment db in
    rw (ps, rs)
      (
        update-MovedRows c g db.payments (λ y. refl)
            (λ j y _ t. (validated_moves merchant db y t).1),
        settled_stays c g db.payments db.reservations (λ y. refl)
            (λ y s t. absurd (ground (arith, s, (validated_moves merchant db y t).0))) co,
      )

pub generate-Course :
    (date : ℕ) (x : Option AchFile) (db db' : Db)
    → Coherent db
    → generate date db ≡ ok (x, db')
    → Course db db'
unfolding generate
generate-Course date x db db' co h = elim (Option-cases (first_merchant db.payments)) [
  | inl e ↦ Course-same db db' co (ground arith) (ground arith)
  | inr (m, e) ↦ export-Course m (date / 86400000 * 86400000) x db db' co (ground arith)
]

-- The creation of a payment.
module _ (r : CreatePaymentRecord) (key : String) (p : Payment) (db db' : Db) where
  pub create-Course :
      WellFormed db
      → Coherent db
      → create_with_outbox_and_idempotency r key db ≡ ok (p, db')
      → Course db db'
  create-Course w co h =
      let (ps, rs) = created_rows r key p db db' h in
      rw (ps, rs)
        (
          (λ j x e. (x, older r j x db w e, inl refl)),
          (λ j x e s.
              let (q, found, q_settled) = co j x e s in (q, older r j q db w found, q_settled)),
        )
