-- ===== src/Nacha/Counting.antt =====
-- How many payments are left to export, before and after a file.
use achflow.Prelude.{
  ℕ, suc, ◌+◌, ◌<◌, ◌*◌, ◌/◌, ◌≡◌, refl, Bool, true, false, Option, some, List, [], ◌∷◌, select,
  update, count, length, arith, Option-cases, inl, inr,
}
use achflow.Schema.{Db, Payment, AchFile, ok, update_payments, create_ach_file}
use achflow.Nacha.Generator.{
  is_exportable, is_eligible, first_merchant, eligible_payments, insert, by_id, export_payments,
  generate,
}
use achflow.Nacha.Submission.{is_taken, submitted_payment, export_rows}

-- The payments that `generate` is to export.
abbrev pub exportable_count : Db → ℕ
exportable_count db = count is_exportable db.payments

length-insert : (p : Payment) (ps : List Payment) → length (insert p ps) ≡ suc (length ps)
unfolding insert
length-insert p [] = refl
length-insert p (x ∷ ps) = ground (arith, length-insert p ps)

pub length-by_id : (ps : List Payment) → length (by_id ps) ≡ length ps
unfolding by_id
length-by_id [] = refl
length-by_id (p ∷ ps) = ground (arith, length-insert p (by_id ps), length-by_id ps)

-- The merchant that comes first has a payment to export.
pub first_eligible :
    (m : ℕ) (ps : List Payment)
    → first_merchant ps ≡ some m
    → 0 < length (select (is_eligible m) ps)
unfolding first_merchant select
first_eligible m [] e = cc
first_eligible m (p ∷ ps) e = ground (arith, first_eligible m ps)

taken_exportable :
    (merchant : ℕ) (db : Db) (p : Payment) → is_taken merchant db p ≡ true → is_exportable p ≡ true
taken_exportable merchant db p t = ground arith

-- What is taken was to be exported, and is not any more.
count-update :
    (q c : Payment → Bool) (g : Payment → Payment) (ps : List Payment)
    → ((p : Payment) → c p ≡ true → q p ≡ true)
    → ((p : Payment) → q (g p) ≡ false)
    → count q (update c g ps) + count c ps ≡ count q ps
unfolding count update
count-update q c g [] h k = refl
count-update q c g (p ∷ ps) h k = ground (arith, h p, k p, count-update q c g ps h k)

exported_count :
    (merchant date : ℕ) (db db' : Db) (x : Option AchFile)
    → export_payments merchant date db ≡ ok (x, db')
    → count (is_taken merchant db) db.payments ≡ length (eligible_payments merchant db)
unfolding export_payments create_ach_file update_payments
exported_count merchant date db db' x h = ground arith

file_entries :
    (merchant date : ℕ) (db db' : Db) (f : AchFile)
    → export_payments merchant date db ≡ ok (some f, db')
    → f.total_entries ≡ length (eligible_payments merchant db)
unfolding export_payments create_ach_file update_payments
file_entries merchant date db db' f h = ground arith

-- A file exports some of the payments that were left, and as many as it says.
pub generate_exports :
    (date : ℕ) (db db' : Db) (f : AchFile)
    → generate date db ≡ ok (some f, db')
    → (exportable_count db' + f.total_entries ≡ exportable_count db) × (0 < f.total_entries)
unfolding generate eligible_payments
generate_exports date db db' f h = elim (Option-cases (first_merchant db.payments)) [
  | inl none_left ↦ absurd (ground (arith, none_left, h))
  | inr (m, found) ↦
      let day = date / 86400000 * 86400000 in
      let run : export_payments m day db ≡ ok (some f, db') = ground (arith, found, h) in
      let rows = (export_rows m day db db' (some f) run).0 in
      let entries = file_entries m day db db' f run in
      let counted =
        count-update is_exportable (is_taken m db) (submitted_payment db) db.payments
          (taken_exportable m db) (λ p. not_exportable p db) in
      let taken = exported_count m day db db' (some f) run in
      let size = length-by_id (select (is_eligible m) db.payments) in
      (
        ground (arith, rows, entries, counted, taken),
        ground (arith, entries, size, first_eligible m db.payments found),
      )
]
  where
    not_exportable : (p : Payment) (d : Db) → is_exportable (submitted_payment d p) ≡ false
    not_exportable p d = ground arith
