-- ===== src/Files/Agreement.antt =====
-- The two copies of the text of a file: `renderNacha` of the API, and `generate` of the worker.
use achflow.Prelude.{
  ℕ, zero, suc, ◌/◌, ◌%◌, ◌≡◌, refl, Bool, none, some, List, [], ◌∷◌, ◌++◌, length, map, select,
  ◌==◌, if◌then◌else◌, arith,
}
use achflow.Prelude.Int.{int_laws}
use achflow.Schema.{Payment, Merchant, PaymentDirection}
use achflow.Nacha.Generator.{has_direction, total, routing_sum}
use achflow.Nacha.Text.{Units, utf16, field, repeat}
use achflow.Nacha.Records.{
  nacha_lines, entry_detail, entry_details, batch_header, batch_control, batch_lines, batch,
  file_header, file_control, pad_lines, replace_first, close_file, starts_with,
}
use achflow.Files.Rendering.{
  Exported, goes, sum_of, hash_of, ninth, entry_line, entry_lines, opening_line, closing_line,
  group_lines, lines_of_group, direction_lines, last_line, fill_block, put_control, finish_lines,
  render_nacha, padded_number,
}

-- What the text of a file has of a payment.
abbrev pub Prints : (p q : Payment) → Type 0
Prints p q =
    (p.direction ≡ q.direction)
    × (p.routing_number ≡ q.routing_number)
    × (p.receiver_account_ref ≡ q.receiver_account_ref)
    × (p.amount_cents ≡ q.amount_cents)
    × (p.receiver_name ≡ q.receiver_name)

-- The rows of payments of one merchant, as they are now.
abbrev pub of_company : Merchant → (Payment → Payment) → List Payment → List Exported
of_company company now [] = []
of_company company now (p ∷ ps) =
    record { payment = now p; merchant = company } ∷ of_company company now ps

-- Rows of one merchant, of which the text has what it has of the payments.
module _ (company : Merchant) (now : Payment → Payment)
    (kept : (p : Payment) → Prints (now p) p) where
  length-of_company : (ps : List Payment) → length (of_company company now ps) ≡ length ps
  length-of_company [] = refl
  length-of_company (p ∷ ps) = omega (arith, length-of_company ps)

  select-of_company :
      (d : PaymentDirection) (ps : List Payment)
      → select (goes d) (of_company company now ps)
        ≡ of_company company now (select (has_direction d) ps)
  unfolding select
  select-of_company d [] = refl
  select-of_company d (p ∷ ps) = let e = (kept p).0 in ground (arith, select-of_company d ps, e)

  same_sum :
      (d : PaymentDirection) (ps : List Payment) → sum_of d (of_company company now ps) ≡ total d ps
  unfolding sum_of total
  same_sum d [] = refl
  same_sum d (p ∷ ps) = let (e1, e2, e3, e4, e5) = kept p in grind (int_laws, same_sum d ps, e1, e4)

  same_hash : (ps : List Payment) → hash_of (of_company company now ps) ≡ routing_sum ps
  unfolding hash_of routing_sum
  same_hash [] = refl
  same_hash (p ∷ ps) = let e = (kept p).1 in ground (arith, same_hash ps, e)

  same_entry :
      (d : PaymentDirection) (p : Payment) (i : ℕ)
      → entry_line d (record { payment = now p; merchant = company }) i ≡ entry_detail d p i
  unfolding entry_line entry_detail ninth
  same_entry d p i = let (e1, e2, e3, e4, e5) = kept p in rw (e2, e3, e4, e5) refl

  same_entries :
      (d : PaymentDirection) (i : ℕ) (ps : List Payment)
      → entry_lines d i (of_company company now ps) ≡ entry_details d i ps
  unfolding entry_lines entry_details
  same_entries d i [] = refl
  same_entries d i (p ∷ ps) = rw (same_entry d p i, same_entries d (suc i) ps) refl

  same_closing :
      (ps : List Payment) (hash : ℕ)
      → closing_line company (of_company company now ps) hash ≡ batch_control company ps hash
  unfolding closing_line batch_control
  same_closing ps hash =
      rw
        (
          length-of_company ps,
          same_sum PaymentDirection.debit ps,
          same_sum PaymentDirection.credit ps,
        )
        refl

  same_group :
      (d : PaymentDirection) (yymmdd : Units) (ps : List Payment) (hash : ℕ)
      → group_lines d company yymmdd (of_company company now ps) hash
        ≡ batch_lines d company yymmdd ps hash
  unfolding group_lines batch_lines opening_line batch_header
  same_group d yymmdd ps hash = rw (same_entries d 0 ps, same_closing ps hash) refl

  same_direction :
      (d : PaymentDirection) (yymmdd : Units) (ps : List Payment)
      → direction_lines d yymmdd (of_company company now ps) ≡ batch d company yymmdd ps
  unfolding batch select lines_of_group
  same_direction d yymmdd ps =
      rw (select-of_company d ps) (same_lines (select (has_direction d) ps))
    where
      same_lines :
          (qs : List Payment)
          → lines_of_group d yymmdd (of_company company now qs) ≡ (
              if length qs == 0 then some [] else elim (routing_sum qs) [
                | none ↦ none
                | some sum ↦ some (batch_lines d company yymmdd qs (sum % 10000000000))
              ])
      same_lines [] = refl
      same_lines (q ∷ qs) =
          let some_left : (length (q ∷ qs) == 0) ≡ Bool.false = ground arith in
          rw some_left λ i. elim (same_hash (q ∷ qs) i) [
            | none ↦ none
            | some sum ↦ some (same_group d yymmdd (q ∷ qs) (sum % 10000000000) i)
          ]

  same_last :
      (blocks : Units) (batches hash : ℕ) (ps : List Payment)
      → last_line blocks batches hash (of_company company now ps)
        ≡ file_control blocks batches hash ps
  unfolding last_line file_control
  same_last blocks batches hash ps =
      rw
        (
          length-of_company ps,
          same_sum PaymentDirection.debit ps,
          same_sum PaymentDirection.credit ps,
        )
        refl

  same_filled : (fuel : ℕ) (lines : List Units) → fill_block fuel lines ≡ pad_lines fuel lines
  unfolding fill_block pad_lines
  same_filled zero lines = refl
  same_filled (suc fuel) lines = ground (arith, same_filled fuel (lines ++ (repeat 94 57 ∷ [])))

  same_put :
      (control : Units) (lines : List Units)
      → put_control control lines ≡ replace_first control lines
  unfolding put_control replace_first
  same_put control [] = refl
  same_put control (l ∷ lines) = ground (arith, same_put control lines)

  -- The end of the text, by its control record and the two steps on the lines.
  abbrev closing :
      (control : Units → ℕ → Units)
      → (fill : List Units → List Units) → (put : Units → List Units → List Units) → List Units
      → List Units
  closing control fill put lines =
      let batches = length (select (starts_with 53) lines) in
      let filled = fill (lines ++ (control (utf16 "000000") batches ∷ [])) in
      map (λ line. field line 94)
        (put (control (padded_number (length filled / 10) 6) batches) filled)

  same_finish :
      (hash : ℕ) (ps : List Payment) (lines : List Units)
      → finish_lines hash (of_company company now ps) lines ≡ close_file hash ps lines
  unfolding finish_lines close_file
  same_finish hash ps lines i =
      closing (λ blocks batches. same_last blocks batches hash ps i) (λ ls. same_filled 10 ls i)
        (λ control ls. same_put control ls i) lines

  -- The API's text of payments of one merchant is the text that the worker writes of them.
  pub render-nacha_lines :
      (yymmdd : Units) (ps : List Payment)
      → render_nacha (of_company company now ps) yymmdd ≡ nacha_lines company yymmdd ps
  unfolding render_nacha nacha_lines file_header
  render-nacha_lines yymmdd ps i = elim (same_hash ps i) [
    | none ↦ none
    | some sum ↦ elim (same_direction PaymentDirection.debit yymmdd ps i) [
      | none ↦ none
      | some debits ↦ elim (same_direction PaymentDirection.credit yymmdd ps i) [
        | none ↦ none
        | some credits ↦
            some (same_finish (sum % 10000000000) ps (file_header yymmdd ∷ (debits ++ credits)) i)
      ]
    ]
  ]
