-- ===== src/Files/Scope.antt =====
-- What a merchant can download: `downloadForScope` of the API's nacha-files/nacha-files.service.ts,
-- with the id of a merchant.
use achflow.Prelude.{
  ℕ, ◌≡◌, true, ◌&&◌, Option, some, List, [], ◌∷◌, select, arith, ◌==◌, Option-cases, inl, inr, All,
}
use achflow.Schema.{Db, Payment, AchFile, ok, find_merchant}
use achflow.Schema.Ids.{find-holds}
use achflow.Nacha.Text.{Units}
use achflow.Files.Rendering.{Exported, render_nacha}
use achflow.Files.Downloads.{
  belongs, payments_of, with_merchants, find_file, start_of_day, download,
}
use achflow.Files.Chosen.{All-by_id, All-select}

-- A row of a download of the merchant.
abbrev pub IsOwn : (m file : ℕ) → Exported → Type 0
IsOwn m file x =
    (x.payment.merchant_id ≡ m) × (x.payment.ach_file_id ≡ some file) × (x.merchant.id ≡ m)

rows-IsOwn :
    (m file : ℕ) (db : Db) (ps : List Payment) (rows : List Exported)
    → All (λ p. (p.merchant_id ≡ m) × (p.ach_file_id ≡ some file)) ps
    → with_merchants db ps ≡ some rows
    → All (IsOwn m file) rows
unfolding with_merchants
rows-IsOwn m file db [] rows a h = let same_rows : rows ≡ [] = ground arith in rw same_rows tt
rows-IsOwn m file db (p ∷ ps) rows a h = elim (Option-cases (find_merchant p.merchant_id db)) [
  | inl missing ↦ absurd (ground (arith, missing, h))
  | inr (company, found) ↦ elim (Option-cases (with_merchants db ps)) [
    | inl missing ↦ absurd (ground (arith, found, missing, h))
    | inr (rest, included) ↦
        let holds = find-holds (λ x. x.id == p.merchant_id) db.merchants company found in
        let own = a.0 in
        let same_rows : rows ≡ record { payment = p; merchant = company } ∷ rest =
          ground (arith, found, included, h) in
        rw same_rows
          ((own.0, own.1, ground (arith, holds, own)), rows-IsOwn m file db ps rest a.1 included)
  ]
]

belongs_own :
    (m file : ℕ) (p : Payment)
    → belongs (some m) file p ≡ true
    → (p.merchant_id ≡ m) × (p.ach_file_id ≡ some file)
belongs_own m file p h = elim (Option-cases p.ach_file_id) [
  | inl none_yet ↦ absurd (ground (arith, none_yet, h))
  | inr (f, e) ↦ ground (arith, e, h)
]

-- A download that succeeds read a file, rows that could be included and lines.
read_rows :
    (day_digits : ℕ → Units) (scope : Option ℕ) (id : ℕ) (db db' : Db) (lines : List Units)
    → download day_digits scope id db ≡ ok (lines, db')
    → (f : AchFile) × (rows : List Exported) × (find_file scope id db ≡ some f)
      × (with_merchants db (payments_of scope id db) ≡ some rows)
      × (render_nacha rows (day_digits (start_of_day f.effective_entry_date)) ≡ some lines)
unfolding download
read_rows day_digits scope id db db' lines h = elim (Option-cases (find_file scope id db)) [
  | inl missing ↦ absurd (ground (arith, missing, h))
  | inr (f, found) ↦ elim (Option-cases (with_merchants db (payments_of scope id db))) [
    | inl missing ↦ absurd (ground (arith, found, missing, h))
    | inr (rows, included) ↦
        let day = start_of_day f.effective_entry_date in
        elim (Option-cases (render_nacha rows (day_digits day))) [
          | inl broken ↦ absurd (ground (arith, found, included, broken, h))
          | inr (text, rendered) ↦
              (f, rows, found, included, ground (arith, found, included, rendered, h))
        ]
  ]
]

-- What a merchant downloads is the text of a file of its own, and of payments of that file that are
-- all its own.
pub download-IsOwn :
    (day_digits : ℕ → Units) (m id : ℕ) (db db' : Db) (lines : List Units)
    → download day_digits (some m) id db ≡ ok (lines, db')
    → (f : AchFile) × (rows : List Exported) × (f.id ≡ id)
      × (f.company_id ≡ m)
      × All (IsOwn m id) rows
      × (render_nacha rows (day_digits (start_of_day f.effective_entry_date)) ≡ some lines)
unfolding payments_of
download-IsOwn day_digits m id db db' lines h =
    let (f, rows, found, included, rendered) = read_rows day_digits (some m) id db db' lines h in
    let holds = find-holds (λ x. x.id == id && x.company_id == m) db.ach_files f found in
    let P : Payment → Type 0 = λ p. (p.merchant_id ≡ m) × (p.ach_file_id ≡ some id) in
    let chosen =
      All-by_id P (select (belongs (some m) id) db.payments)
        (All-select P (belongs (some m) id) db.payments λ p e. belongs_own m id p e) in
    (
      f,
      rows,
      ground (arith, holds),
      ground (arith, holds),
      rows-IsOwn m id db (payments_of (some m) id db) rows chosen included,
      rendered,
    )
