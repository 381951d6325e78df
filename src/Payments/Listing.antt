-- ===== src/Payments/Listing.antt =====
-- `listForScope` of the API's payments/payments.service.ts with the queries of its
-- payments.repository.ts. What the database finds by a search text is an argument; of rows that the
-- order does not tell apart, the model keeps that of the table.
use achflow.Prelude.{
  ℕ, Bool, true, ◌&&◌, Option, none, some, List, [], ◌∷◌, length, select, ◌==◌, leb, if◌then◌else◌,
  same,
}
use achflow.Prelude.Int.{leb_ℤ}
use achflow.Schema.{
  Payment, PaymentStatus, PaymentDirection, status_discrete, direction_discrete, Tx, ok, err,
}
use achflow.Listing.Ranges.{DateQuery, Range, payment_date_range, in_range, or_else}
use achflow.Listing.Pages.{page_rows, total_pages}

pub data PaymentSort : Type 0 where
  by_created_at by_updated_at by_amount_cents by_status : PaymentSort

-- The search text is an argument of the listing.
pub record ListPaymentsQueryDto : Type 0 where
  pub dates : DateQuery
  pub status : Option PaymentStatus
  pub direction : Option PaymentDirection
  pub sort_by : Option PaymentSort
  pub ascending : Bool
  pub page : Option ℕ
  pub page_size : Option ℕ
  pub limit : Option ℕ

abbrev pub in_status : Option PaymentStatus → Payment → Bool
in_status none p = true
in_status (some s) p = same (status_discrete p.status s)

abbrev pub goes_in : Option PaymentDirection → Payment → Bool
goes_in none p = true
goes_in (some d) p = same (direction_discrete p.direction d)

-- `{ merchantId, ...where }`, and `where` for an administrator.
abbrev pub is_of_scope : (scope : Option ℕ) → Payment → Bool
is_of_scope none p = true
is_of_scope (some m) p = p.merchant_id == m

unfoldable pub is_listed_payment :
    (matches : Payment → Bool) → (scope : Option ℕ) → ListPaymentsQueryDto → Range → Payment → Bool
is_listed_payment matches scope query range p =
    is_of_scope scope p
    && in_status query.status p
    && goes_in query.direction p
    && in_range range p.created_at
    && matches p

-- The order of the enum in the schema.
abbrev status_rank : PaymentStatus → ℕ
status_rank PaymentStatus.received = 0
status_rank PaymentStatus.validated = 1
status_rank PaymentStatus.validation_failed = 2
status_rank PaymentStatus.pending = 3
status_rank PaymentStatus.processing = 4
status_rank PaymentStatus.submitted = 5
status_rank PaymentStatus.settled = 6
status_rank PaymentStatus.returned = 7
status_rank PaymentStatus.failed = 8
status_rank PaymentStatus.cancelled = 9
status_rank PaymentStatus.unknown = 10

-- `paymentSortBy`
abbrev pub payment_sort_by : Option PaymentSort → PaymentSort
payment_sort_by none = PaymentSort.by_created_at
payment_sort_by (some s) = s

unfoldable pub is_up_to : PaymentSort → Payment → Payment → Bool
is_up_to PaymentSort.by_created_at p q = leb p.created_at q.created_at
is_up_to PaymentSort.by_updated_at p q = leb p.updated_at q.updated_at
is_up_to PaymentSort.by_amount_cents p q = leb_ℤ p.amount_cents q.amount_cents
is_up_to PaymentSort.by_status p q = leb (status_rank p.status) (status_rank q.status)

-- `orderBy: { [sortBy]: sortOrder }`
abbrev comes_before : PaymentSort → (ascending : Bool) → Payment → Payment → Bool
comes_before sort ascending p q = if ascending then is_up_to sort p q else is_up_to sort q p

unfoldable pub insert_payment : PaymentSort → Bool → Payment → List Payment → List Payment
unfolding is_up_to
insert_payment sort ascending p [] = p ∷ []
insert_payment sort ascending p (x ∷ xs) =
    if comes_before sort ascending p x then p ∷ x ∷ xs else x ∷ insert_payment sort ascending p xs

unfoldable pub order_payments : PaymentSort → Bool → List Payment → List Payment
unfolding insert_payment
order_payments sort ascending [] = []
order_payments sort ascending (p ∷ ps) =
    insert_payment sort ascending p (order_payments sort ascending ps)

pub record PaymentListing : Type 0 where
  pub data_rows : List Payment
  pub page : ℕ
  pub page_size : ℕ
  pub total : ℕ
  pub pages : ℕ

unfoldable pub list_payments :
    (matches : Payment → Bool)
    → ListPaymentsQueryDto
    → (scope : Option ℕ) → (now : ℕ) → Tx PaymentListing
unfolding payment_date_range is_listed_payment order_payments page_rows
list_payments matches query scope now db = elim (payment_date_range now query.dates) [
  | err e ↦ err e
  | ok range ↦
      let page = or_else query.page 1 in
      let page_size = or_else query.page_size (or_else query.limit 25) in
      let rows =
        order_payments (payment_sort_by query.sort_by) query.ascending
          (select (is_listed_payment matches scope query range) db.payments) in
      ok (
        record {
          data_rows = page_rows page page_size rows;
          page = page;
          page_size = page_size;
          total = length rows;
          pages = total_pages (length rows) page_size;
        },
        db,
      )
]
