-- ===== src/Nacha/Submission.antt =====
-- What the generation of a file does to the payments.
use achflow.Prelude.{
  ℕ, suc, ◌*◌, ◌/◌, ◌≡◌, ◌∙◌, refl, ap, Bool, false, ◌&&◌, Option, some, none, List, [], ◌∷◌,
  select, update, length, arith, if◌then◌else◌, Option-cases, inl, inr, All,
}
use achflow.Prelude.Int.{ℤ, pos, ◌+ℤ◌, int_laws}
use achflow.Schema.{
  Db, Payment, OutboxEvent, OutboxEventType, Result, err, PaymentStatus, PaymentDirection, AchFile,
  ok, has_id, find_payment, create_ach_file, update_payments, create_event,
}
use achflow.Schema.Ids.{WellFormed, find-update_any, find-holds}
use achflow.Events.{create_lifecycle_event}
use achflow.Nacha.Generator.{
  is_eligible, is_exportable, is_unexported, first_merchant, eligible_payments, is_among,
  mark_submitted, announce_all, export_payments, generate, total,
}
use achflow.Nacha.Selection.{among-selected}

-- A table that the announcement of one payment keeps is kept by all of them.
announce_all_keeps :
    {A : Type 0} (table : Db → A)
    → ((p : Payment) (at : ℕ) (db db1 : Db) (e : OutboxEvent)
        → create_lifecycle_event p OutboxEventType.payment_submitted at none db ≡ ok (e, db1)
        → table db1 ≡ table db)
    → (ps : List Payment) (at : ℕ) (db db' : Db) → announce_all ps at db ≡ ok (tt, db')
    → table db' ≡ table db
unfolding announce_all
announce_all_keeps table keep [] at db db' h =
    let same_db : db' ≡ db = ground arith in ap table same_db
announce_all_keeps table keep (p ∷ ps) at db db' h =
    go (λ db1. announce_all_keeps table keep ps at db1 db')
      (create_lifecycle_event p OutboxEventType.payment_submitted at none db) refl
  where
    go :
        ((db1 : Db) → announce_all ps at db1 ≡ ok (tt, db') → table db' ≡ table db1)
        → (r : Result (OutboxEvent × Db))
        → create_lifecycle_event p OutboxEventType.payment_submitted at none db ≡ r
        → table db' ≡ table db
    go rest (ok (e, db1)) c = rest db1 (ground (arith, c, h)) ∙ keep p at db db1 e c
    go rest (err x) c = absurd (ground (arith, c, h))

-- The file of an export.
abbrev pub file_of : (merchant date : ℕ) → Db → AchFile
file_of merchant date db =
    let eligible = eligible_payments merchant db in
    record {
      id = db.next_id;
      company_id = merchant;
      effective_entry_date = date;
      status = "GENERATED";
      total_entries = length eligible;
      debit_total_cents = total PaymentDirection.debit eligible;
      credit_total_cents = total PaymentDirection.credit eligible;
      created_at = db.clock;
    }

abbrev pub is_taken : ℕ → Db → Payment → Bool
is_taken merchant db p = is_among (eligible_payments merchant db) p.id && is_unexported p

abbrev pub submitted_payment : Db → Payment → Payment
submitted_payment db p = record (mark_submitted db.clock db.next_id p) { updated_at = db.clock }

-- What the announcements of an export start from.
abbrev submitted_db : (merchant date : ℕ) → Db → Db
submitted_db merchant date db = record db {
  next_id = suc db.next_id;
  ach_files = file_of merchant date db ∷ db.ach_files;
  payments = update (is_taken merchant db) (submitted_payment db) db.payments;
}

abbrev submitted_rows : (merchant date : ℕ) → Db → List Payment
submitted_rows merchant date db =
    select (λ p. is_among (eligible_payments merchant db) p.id)
      (submitted_db merchant date db).payments

-- An export makes its file, and announces what it submitted.
pub before_announcing :
    (merchant date : ℕ) (db db' : Db) (x : Option AchFile)
    → export_payments merchant date db ≡ ok (x, db')
    → (announce_all (submitted_rows merchant date db) db.clock (submitted_db merchant date db)
        ≡ ok (tt, db'))
      × (x ≡ some (file_of merchant date db))
unfolding export_payments create_ach_file update_payments
before_announcing merchant date db db' x h = ground arith

-- What an export leaves of the payments, the reservations, the merchants and the files.
pub export_rows :
    (merchant date : ℕ) (db db' : Db) (x : Option AchFile)
    → export_payments merchant date db ≡ ok (x, db')
    → (db'.payments ≡ update (is_taken merchant db) (submitted_payment db) db.payments)
      × (db'.reservations ≡ db.reservations)
      × (db'.merchants ≡ db.merchants)
      × (db'.ach_files ≡ file_of merchant date db ∷ db.ach_files)
unfolding create_lifecycle_event create_event
export_rows merchant date db db' x h = (
  kept Db.payments (λ p at d d1 e c. ground arith),
  kept Db.reservations (λ p at d d1 e c. ground arith),
  kept Db.merchants (λ p at d d1 e c. ground arith),
  kept Db.ach_files (λ p at d d1 e c. ground arith),
)
  where
    kept :
        {A : Type 0} (table : Db → A)
        → ((p : Payment) (at : ℕ) (d d1 : Db) (e : OutboxEvent)
            → create_lifecycle_event p OutboxEventType.payment_submitted at none d ≡ ok (e, d1)
            → table d1 ≡ table d)
        → table db' ≡ table (submitted_db merchant date db)
    kept table keep =
        announce_all_keeps table keep (submitted_rows merchant date db) db.clock
          (submitted_db merchant date db) db' (before_announcing merchant date db db' x h).0

-- An export submits the eligible payments of its merchant, and leaves every other payment.
export_submits :
    (merchant date j : ℕ) (db db' : Db) (x : Option AchFile) (p : Payment)
    → WellFormed db
    → export_payments merchant date db ≡ ok (x, db')
    → find_payment j db ≡ some p
    → find_payment j db' ≡ some (if is_eligible merchant p then submitted_payment db p else p)
unfolding eligible_payments
export_submits merchant date j db db' x p w h e =
    let rows = (export_rows merchant date db db' x h).0 in
    let changed =
      find-update_any (has_id j) (is_taken merchant db) (submitted_payment db) db.payments p
        (λ y. refl) e in
    let own = find-holds (has_id j) db.payments p e in
    let chosen =
      among-selected (is_eligible merchant) db.next_id j db.payments p w.payments_below e in
    ground (arith, rows, changed, own, chosen)

-- The generation of a file submits, under the file, every validated payment of the file's merchant
-- that was not exported yet, and leaves every other payment as it is.
pub generate_submits :
    (date j : ℕ) (db db' : Db) (f : AchFile) (p : Payment)
    → WellFormed db
    → generate date db ≡ ok (some f, db')
    → find_payment j db ≡ some p
    → find_payment j db'
      ≡ some (
          if is_eligible f.company_id p
          then record p {
            status = PaymentStatus.submitted;
            exported_at = some db.clock;
            ach_file_id = some f.id;
            updated_at = db.clock;
          }
          else p)
unfolding generate
generate_submits date j db db' f p w h e = elim (Option-cases (first_merchant db.payments)) [
  | inl none_left ↦ absurd (ground (arith, none_left, h))
  | inr (m, found) ↦
      let day = date / 86400000 * 86400000 in
      let run : export_payments m day db ≡ ok (some f, db') = ground (arith, found, h) in
      let made = (before_announcing m day db db' (some f) run).1 in
      ground (arith, made, export_submits m day j db db' (some f) p w run e)
]

unfoldable pub sum_amounts : List Payment → ℤ
sum_amounts [] = pos 0
sum_amounts (p ∷ ps) = p.amount_cents +ℤ sum_amounts ps

-- A direction is one of the two.
totals :
    (ps : List Payment)
    → total PaymentDirection.debit ps +ℤ total PaymentDirection.credit ps ≡ sum_amounts ps
unfolding total sum_amounts
totals [] = grind int_laws
totals (p ∷ ps) = grind (int_laws, totals ps)

-- The totals of a generated file are those of the payments that it submits: their number, and
-- debits and credits together their amounts.
generate_totals :
    (date : ℕ) (db db' : Db) (f : AchFile)
    → generate date db ≡ ok (some f, db')
    → (f.total_entries ≡ length (eligible_payments f.company_id db))
      × (f.debit_total_cents +ℤ f.credit_total_cents
          ≡ sum_amounts (eligible_payments f.company_id db))
unfolding generate
generate_totals date db db' f h = elim (Option-cases (first_merchant db.payments)) [
  | inl none_left ↦ absurd (ground (arith, none_left, h))
  | inr (m, found) ↦
      let day = date / 86400000 * 86400000 in
      let run : export_payments m day db ≡ ok (some f, db') = ground (arith, found, h) in
      let made : f ≡ file_of m day db =
        ground (arith, (before_announcing m day db db' (some f) run).1) in
      rw made (refl, totals (eligible_payments m db))
]

none_exportable :
    (ps : List Payment) → first_merchant ps ≡ none → All (λ p. is_exportable p ≡ false) ps
unfolding first_merchant
none_exportable [] h = tt
none_exportable (p ∷ ps) h = (ground arith, none_exportable ps (ground arith))

-- Where the generation gives no file, it changes nothing, and no payment was left to export.
pub nothing_left :
    (date : ℕ) (db db' : Db)
    → generate date db ≡ ok (none, db')
    → (db' ≡ db) × All (λ p. is_exportable p ≡ false) db.payments
unfolding generate
nothing_left date db db' h = elim (Option-cases (first_merchant db.payments)) [
  | inl none_left ↦ (ground (arith, none_left, h), none_exportable db.payments none_left)
  | inr (m, found) ↦
      let day = date / 86400000 * 86400000 in
      let run : export_payments m day db ≡ ok (none, db') = ground (arith, found, h) in
      absurd (ground (arith, (before_announcing m day db db' none run).1))
]
