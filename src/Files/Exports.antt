-- ===== src/Files/Exports.antt =====
-- The download of a file that the worker has just generated: `generate` of the worker's
-- ach/nacha-file-generator.service.ts, then `downloadForScope` of the API.
use achflow.Prelude.{
  ℕ, ◌<◌, ◌*◌, ◌/◌, ◌≡◌, refl, sym, ap, subst, true, false, Option, some, none, List, [], ◌∷◌, map,
  select, find, update, length, arith, ◌==◌, Option-cases, inl, inr, All,
}
use achflow.Schema.{
  Db, Payment, Merchant, AchFile, ok, or_throw, plain_error, not_an_integer, find_merchant,
}
use achflow.Schema.Ids.{WellFormed}
use achflow.Nacha.Generator.{
  is_eligible, eligible_payments, first_merchant, export_payments, generate,
}
use achflow.Nacha.Selection.{among-selected}
use achflow.Nacha.Submission.{is_taken, submitted_payment, file_of, before_announcing, export_rows}
use achflow.Nacha.Counting.{first_eligible, length-by_id}
use achflow.Nacha.Text.{Units}
use achflow.Nacha.Records.{nacha_lines}
use achflow.Nacha.Made.{lines_made, export_summed}
use achflow.Files.Rendering.{Exported, render_nacha}
use achflow.Files.Agreement.{of_company, render-nacha_lines}
use achflow.Files.Chosen.{
  every_row, by_id-map, select-update, All-by_id, All-select, included, length-of_company,
}
use achflow.Files.Downloads.{
  belongs, in_scope, payments_of, with_merchants, find_file, start_of_day, download,
}

downloads :
    (day_digits : ℕ → Units) (scope : Option ℕ) (id : ℕ) (db : Db) (f : AchFile)
    (payments : List Exported)
    → find_file scope id db ≡ some f
    → with_merchants db (payments_of scope id db) ≡ some payments
    → 0 < length payments
    → download day_digits scope id db
      ≡ or_throw
          (render_nacha payments (day_digits (start_of_day f.effective_entry_date)))
          (plain_error not_an_integer)
          db
unfolding download
downloads day_digits scope id db f payments found included some_left =
    let left : (length payments == 0) ≡ false = ground arith in rw (found, included, left) refl

module _ (scope : Option ℕ) (m day : ℕ) (db db' : Db) (x : Option AchFile) (w : WellFormed db)
    (unused : All (λ p. belongs none db.next_id p ≡ false) db.payments)
    (sees : in_scope scope m ≡ true) (run : export_payments m day db ≡ ok (x, db')) where
  -- The payments of the new file are those that it submitted.
  exported_payments :
      payments_of scope db.next_id db' ≡ map (submitted_payment db) (eligible_payments m db)
  unfolding payments_of eligible_payments
  exported_payments =
      let rows = (export_rows m day db db' x run).0 in
      rw (rows, chosen)
        (by_id-map (submitted_payment db) (select (is_eligible m) db.payments) (λ p. refl))
    where
      taken : All (λ p. is_taken m db p ≡ is_eligible m p) db.payments
      taken = every_row db.next_id db.payments w.payments_below λ p e.
          let among =
            among-selected (is_eligible m) db.next_id p.id db.payments p w.payments_below e in
          ground (arith, among)

      not_before :
          (ps : List Payment)
          → All (λ p. belongs none db.next_id p ≡ false) ps
          → All (λ p. belongs scope db.next_id p ≡ false) ps
      not_before [] a = tt
      not_before (p ∷ ps) a = (let e = a.0 in ground arith, not_before ps a.1)

      now_in :
          (p : Payment)
          → is_eligible m p ≡ true
          → belongs scope db.next_id (submitted_payment db p) ≡ true
      now_in p e = let own : p.merchant_id ≡ m = ground arith in rw own (ground (arith, sees))

      chosen :
          select
            (belongs scope db.next_id)
            (update (is_taken m db) (submitted_payment db) db.payments)
          ≡ map (submitted_payment db) (select (is_eligible m) db.payments)
      chosen =
          select-update (belongs scope db.next_id) (is_eligible m) (is_taken m db)
            (submitted_payment db) db.payments taken (not_before db.payments unused) now_in

  -- The download makes the lines that the worker makes of what it exports.
  exported_lines :
      (day_digits : ℕ → Units) (company : Merchant)
      → find_merchant m db ≡ some company
      → 0 < length (eligible_payments m db)
      → download day_digits scope db.next_id db'
        ≡ or_throw
            (nacha_lines company (day_digits (start_of_day day)) (eligible_payments m db))
            (plain_error not_an_integer)
            db'
  unfolding eligible_payments find
  exported_lines day_digits company known some_left =
      subst
        (λ lines.
          download day_digits scope db.next_id db'
          ≡ or_throw lines (plain_error not_an_integer) db')
        (render-nacha_lines company (submitted_payment db) (λ p. (refl, refl, refl, refl, refl))
          (day_digits (start_of_day day)) (eligible_payments m db))
        (downloads day_digits scope db.next_id db' (file_of m day db)
          (of_company company (submitted_payment db) (eligible_payments m db)) made rows
          (omega (
            arith,
            some_left,
            length-of_company company (submitted_payment db) (eligible_payments m db),
          )))
    where
      found : find_merchant m db' ≡ some company
      found = rw ((export_rows m day db db' x run).2) known

      made : find_file scope db.next_id db' ≡ some (file_of m day db)
      made = rw ((export_rows m day db db' x run).3) (ground (arith, sees))

      members : All (λ p. find_merchant p.merchant_id db' ≡ some company) (eligible_payments m db)
      members =
          All-by_id (λ p. find_merchant p.merchant_id db' ≡ some company)
            (select (is_eligible m) db.payments)
            (All-select (λ p. find_merchant p.merchant_id db' ≡ some company) (is_eligible m)
              db.payments λ p e. let own : p.merchant_id ≡ m = ground arith in rw own found)

      rows :
          with_merchants db' (payments_of scope db.next_id db')
          ≡ some (of_company company (submitted_payment db) (eligible_payments m db))
      rows =
          rw exported_payments
            (included company (submitted_payment db) db' (eligible_payments m db) members)

-- Right after the worker has generated a file, its code has made lines of the payments that it
-- exported, and the API's download of the file, by an administrator or by the merchant of the file,
-- gives exactly these lines and changes nothing. The store is well-formed, no payment is in a file
-- of the next id beforehand, and the merchant is in the table.
pub download-generate :
    (day_digits : ℕ → Units) (scope : Option ℕ) (date : ℕ) (db db' : Db) (f : AchFile)
    (company : Merchant)
    → WellFormed db
    → All (λ p. belongs none db.next_id p ≡ false) db.payments
    → in_scope scope f.company_id ≡ true
    → find_merchant f.company_id db ≡ some company
    → generate date db ≡ ok (some f, db')
    → (lines : List Units) × (nacha_lines company
          (day_digits (start_of_day date))
          (eligible_payments f.company_id db)
        ≡ some lines)
      × (download day_digits scope f.id db' ≡ ok (lines, db'))
unfolding generate eligible_payments
download-generate day_digits scope date db db' f company w unused sees known h =
    elim (Option-cases (first_merchant db.payments)) [
      | inl none_left ↦ absurd (ground (arith, none_left, h))
      | inr (m, first) ↦
          let day = date / 86400000 * 86400000 in
          let run : export_payments m day db ≡ ok (some f, db') = ground (arith, first, h) in
          let made : f ≡ file_of m day db =
            ground (arith, (before_announcing m day db db' (some f) run).1) in
          let size = length-by_id (select (is_eligible m) db.payments) in
          let some_left : 0 < length (eligible_payments m db) =
            omega (arith, size, first_eligible m db.payments first) in
          let same_day : start_of_day day ≡ start_of_day date = omega arith in
          let owner : m ≡ f.company_id = sym (ap AchFile.company_id made) in
          let sees_m : in_scope scope m ≡ true = rw owner sees in
          let known_m : find_merchant m db ≡ some company = rw owner known in
          let (sum, summed) = export_summed m day db db' (some f) run in
          let (lines, text) =
            lines_made company (day_digits (start_of_day day)) (eligible_payments m db) sum
              summed in
          let served =
            exported_lines scope m day db db' (some f) w unused sees_m run day_digits company
              known_m some_left in
          rw (made, sym same_day)
            (
              lines,
              text,
              subst
                  (λ o.
                    download day_digits scope db.next_id db'
                    ≡ or_throw o (plain_error not_an_integer) db')
                  text served,
            )
    ]
