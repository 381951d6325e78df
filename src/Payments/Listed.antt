-- ===== src/Payments/Listed.antt =====
-- Which payments a listing shows: `listForScope` of the API's payments/payments.service.ts.
use achflow.Prelude.{
  ℕ, zero, suc, ◌≤◌, ◌-◌, ◌*◌, ◌≡◌, refl, Bool, true, Option, List, [], ◌∷◌, length, select, take,
  All, arith, Bool-cases, inl, inr, if◌then◌else◌,
}
use achflow.Schema.{Db, Payment, Result, ok, err}
use achflow.Listing.Ranges.{Range, payment_date_range, in_range, or_else}
use achflow.Listing.Pages.{skip, page_rows}
use achflow.Payments.Listing.{
  PaymentSort, ListPaymentsQueryDto, PaymentListing, is_listed_payment, insert_payment,
  order_payments, payment_sort_by, is_up_to, is_of_scope, in_status, goes_in, list_payments,
}

module _ (P : Payment → Type 0) where
  All-take : (n : ℕ) (ps : List Payment) → All P ps → All P (take n ps)
  All-take zero ps a = tt
  All-take (suc n) [] a = tt
  All-take (suc n) (p ∷ ps) a = (a.0, All-take n ps a.1)

  All-skip : (n : ℕ) (ps : List Payment) → All P ps → All P (skip n ps)
  unfolding skip
  All-skip zero ps a = a
  All-skip (suc n) [] a = tt
  All-skip (suc n) (p ∷ ps) a = All-skip n ps a.1

  All-page_rows : (page size : ℕ) (ps : List Payment) → All P ps → All P (page_rows page size ps)
  unfolding page_rows
  All-page_rows page size ps a =
      All-take size (skip ((page - 1) * size) ps) (All-skip ((page - 1) * size) ps a)

  All-insert :
      (sort : PaymentSort) (up : Bool) (p : Payment) (ps : List Payment)
      → P p
      → All P ps
      → All P (insert_payment sort up p ps)
  unfolding insert_payment
  All-insert sort up p [] x a = (x, tt)
  All-insert sort up p (q ∷ ps) x a =
      elim (Bool-cases (if up then is_up_to sort p q else is_up_to sort q p)) [
        | inl e ↦ rw e (x, a)
        | inr e ↦ rw e (a.0, All-insert sort up p ps x a.1)
      ]

  All-order :
      (sort : PaymentSort) (up : Bool) (ps : List Payment)
      → All P ps
      → All P (order_payments sort up ps)
  unfolding order_payments
  All-order sort up [] a = tt
  All-order sort up (p ∷ ps) a =
      All-insert sort up p (order_payments sort up ps) a.0 (All-order sort up ps a.1)

chosen-All : (q : Payment → Bool) (ps : List Payment) → All (λ p. q p ≡ true) (select q ps)
unfolding select
chosen-All q [] = tt
chosen-All q (p ∷ ps) = elim (Bool-cases (q p)) [
  | inl e ↦ rw e (e, chosen-All q ps)
  | inr e ↦ rw e (chosen-All q ps)
]

module _ (sort : PaymentSort) (up : Bool) where
  length-insert :
      (p : Payment) (ps : List Payment) → length (insert_payment sort up p ps) ≡ suc (length ps)
  unfolding insert_payment
  length-insert p [] = refl
  length-insert p (x ∷ ps) = ground (arith, length-insert p ps)

  length-order : (ps : List Payment) → length (order_payments sort up ps) ≡ length ps
  unfolding order_payments
  length-order [] = refl
  length-order (p ∷ ps) =
      ground (arith, length-insert p (order_payments sort up ps), length-order ps)

length-take : (n : ℕ) (ps : List Payment) → length (take n ps) ≤ n
length-take zero ps = omega arith
length-take (suc n) [] = omega arith
length-take (suc n) (p ∷ ps) = omega (arith, length-take n ps)

length-page_rows : (page size : ℕ) (ps : List Payment) → length (page_rows page size ps) ≤ size
unfolding page_rows
length-page_rows page size ps = length-take size (skip ((page - 1) * size) ps)

-- What a payment of the page is.
abbrev pub IsShown : (scope : Option ℕ) → ListPaymentsQueryDto → Range → Payment → Type 0
IsShown scope query range p =
    (is_of_scope scope p ≡ true)
    × (in_status query.status p ≡ true)
    × (goes_in query.direction p ≡ true)
    × (in_range range p.created_at ≡ true)

each-IsShown :
    (matches : Payment → Bool) (scope : Option ℕ) (query : ListPaymentsQueryDto) (range : Range)
    (ps : List Payment)
    → All (λ p. is_listed_payment matches scope query range p ≡ true) ps
    → All (IsShown scope query range) ps
unfolding is_listed_payment
each-IsShown matches scope query range [] a = tt
each-IsShown matches scope query range (p ∷ ps) a =
    let e = a.0 in
    (
      (ground (arith, e), ground (arith, e), ground (arith, e), ground (arith, e)),
      each-IsShown matches scope query range ps a.1,
    )

-- A page of payments shows payments of the merchant that asks, or of any for an administrator, with
-- the status, the direction and the range of the query, and no more than the size of a page; the
-- total is the number of the payments that pass all its conditions, and nothing is changed.
pub listed_page :
    (matches : Payment → Bool) (query : ListPaymentsQueryDto) (scope : Option ℕ) (now : ℕ)
    (db db' : Db) (l : PaymentListing)
    → list_payments matches query scope now db ≡ ok (l, db')
    → (range : Range) × (payment_date_range now query.dates ≡ ok range)
      × All (IsShown scope query range) l.data_rows
      × (length l.data_rows ≤ l.page_size)
      × (l.total ≡ length (select (is_listed_payment matches scope query range) db.payments))
      × (db' ≡ db)
unfolding list_payments
listed_page matches query scope now db db' l h = go (payment_date_range now query.dates) refl
  where
    go :
        (r : Result Range)
        → payment_date_range now query.dates ≡ r
        → (range : Range) × (payment_date_range now query.dates ≡ ok range)
          × All (IsShown scope query range) l.data_rows
          × (length l.data_rows ≤ l.page_size)
          × (l.total ≡ length (select (is_listed_payment matches scope query range) db.payments))
          × (db' ≡ db)
    go (err x) e = absurd (ground (arith, e, h))
    go (ok range) e =
        let test = is_listed_payment matches scope query range in
        let chosen = select test db.payments in
        let sort = payment_sort_by query.sort_by in
        let rows = order_payments sort query.ascending chosen in
        let page = or_else query.page 1 in
        let size = or_else query.page_size (or_else query.limit 25) in
        let shown : l.data_rows ≡ page_rows page size rows = ground (arith, e, h) in
        let sized : l.page_size ≡ size = ground (arith, e, h) in
        let counted : l.total ≡ length rows = ground (arith, e, h) in
        let passed =
          All-order (λ p. test p ≡ true) sort query.ascending chosen
            (chosen-All test db.payments) in
        (
          range,
          e,
          rw shown (
              each-IsShown matches scope query range (page_rows page size rows)
                (All-page_rows (λ p. test p ≡ true) page size rows passed)),
          rw (shown, sized) (length-page_rows page size rows),
          omega (arith, counted, length-order sort query.ascending chosen),
          ground (arith, e, h),
        )
