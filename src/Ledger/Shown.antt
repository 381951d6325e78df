-- ===== src/Ledger/Shown.antt =====
-- Which entries a listing is of: the `where` of `listForScope` of the API's
-- ledger/ledger.service.ts, said of the rows.
use achflow.Prelude.{
  ℕ, ◌≤◌, ◌<◌, ◌≡◌, refl, Bool, true, Option, none, some, List, [], ◌∷◌, select, leb, ltb, arith,
  Bool-cases, Option-cases, inl, inr,
}
use achflow.Prelude.Int.{ℤ, ◌≤ℤ◌}
use achflow.Schema.{Db, LedgerEntry, LedgerEntryType, FundingAccount}
use achflow.Listing.Ranges.{Range}
use achflow.Ledger.Listing.{
  ListLedgerQueryDto, account_of, of_scope, type_where, amount_where, is_listed,
}

-- The entry's account is of the merchant.
abbrev pub IsInScope : (scope : Option ℕ) → Db → LedgerEntry → Type 0
IsInScope none db e = Unit {0}
IsInScope (some m) db e = (a : FundingAccount) × (account_of e db ≡ some a) × (a.merchant_id ≡ m)

abbrev pub HasType : Option LedgerEntryType → LedgerEntry → Type 0
HasType none e = Unit {0}
HasType (some t) e = e.entry_type ≡ t

-- With a maximum, a minimum is not looked at.
abbrev pub IsInAmounts : (minimum maximum : Option ℤ) → LedgerEntry → Type 0
IsInAmounts minimum (some hi) e = e.amount ≤ℤ hi
IsInAmounts (some lo) none e = lo ≤ℤ e.amount
IsInAmounts none none e = Unit {0}

abbrev IsFrom : Option ℕ → ℕ → Type 0
IsFrom none t = Unit {0}
IsFrom (some s) t = s ≤ t

abbrev IsUntil : Option ℕ → ℕ → Type 0
IsUntil none t = Unit {0}
IsUntil (some e) t = t < e

abbrev pub IsShown :
    (matches : LedgerEntry → Bool) (scope : Option ℕ) (query : ListLedgerQueryDto) (range : Range)
    (db : Db)
    → LedgerEntry
    → Type 0
IsShown matches scope query range db e =
    IsInScope scope db e
    × HasType query.entry_type e
    × IsInAmounts query.min_amount_cents query.max_amount_cents e
    × IsFrom range.start e.created_at
    × IsUntil range.end e.created_at
    × (matches e ≡ true)

-- The second list has the entries of the first for which the predicate holds, in their order.
pub data Picked (P : LedgerEntry → Type 0) : List LedgerEntry → List LedgerEntry → Type 0 where
  picked_all : Picked P [] []
  pick :
      (e : LedgerEntry) {es chosen : List LedgerEntry}
      → P e
      → Picked P es chosen
      → Picked P (e ∷ es) (e ∷ chosen)
  pass :
      (e : LedgerEntry) {es chosen : List LedgerEntry}
      → ¬ P e
      → Picked P es chosen
      → Picked P (e ∷ es) chosen

select-Picked :
    (P : LedgerEntry → Type 0) (q : LedgerEntry → Bool) (es : List LedgerEntry)
    → ((e : LedgerEntry) → q e ≡ true → P e)
    → ((e : LedgerEntry) → P e → q e ≡ true)
    → Picked P es (select q es)
unfolding select
select-Picked P q [] yes_of true_of = picked_all
select-Picked P q (e ∷ es) yes_of true_of = elim (Bool-cases (q e)) [
  | inl y ↦ rw y (pick e (yes_of e y) (select-Picked P q es yes_of true_of))
  | inr n ↦
      rw n (
        pass e (λ p. absurd (ground (arith, n, true_of e p))) (select-Picked P q es yes_of true_of))
]

of_scope-IsInScope :
    (scope : Option ℕ) (db : Db) (e : LedgerEntry)
    → of_scope scope db e ≡ true
    → IsInScope scope db e
of_scope-IsInScope none db e h = tt
of_scope-IsInScope (some m) db e h = elim (Option-cases (account_of e db)) [
  | inl missing ↦ absurd (ground (arith, missing, h))
  | inr (a, found) ↦ (a, found, ground (arith, found, h))
]

IsInScope-of_scope :
    (scope : Option ℕ) (db : Db) (e : LedgerEntry)
    → IsInScope scope db e
    → of_scope scope db e ≡ true
IsInScope-of_scope none db e h = refl
IsInScope-of_scope (some m) db e (a, found, own) = ground (arith, found, own)

type-HasType :
    (t : Option LedgerEntryType) (e : LedgerEntry) → type_where t e.entry_type ≡ true → HasType t e
type-HasType none e h = tt
type-HasType (some t) e h = ground (arith, h)

HasType-type :
    (t : Option LedgerEntryType) (e : LedgerEntry) → HasType t e → type_where t e.entry_type ≡ true
HasType-type none e h = refl
HasType-type (some t) e h = ground (arith, h)

amount-IsInAmounts :
    (lo hi : Option ℤ) (e : LedgerEntry) → amount_where lo hi e.amount ≡ true → IsInAmounts lo hi e
unfolding amount_where
amount-IsInAmounts lo (some hi) e h = ground (arith, h)
amount-IsInAmounts (some lo) none e h = ground (arith, h)
amount-IsInAmounts none none e h = tt

IsInAmounts-amount :
    (lo hi : Option ℤ) (e : LedgerEntry) → IsInAmounts lo hi e → amount_where lo hi e.amount ≡ true
unfolding amount_where
IsInAmounts-amount lo (some hi) e h = ground (arith, h)
IsInAmounts-amount (some lo) none e h = ground (arith, h)
IsInAmounts-amount none none e h = refl

start-IsFrom :
    (start : Option ℕ) (t : ℕ)
    → (elim start [ none ↦ true | some s ↦ leb s t ]) ≡ true
    → IsFrom start t
start-IsFrom none t h = tt
start-IsFrom (some s) t h = ground (arith, h)

IsFrom-start :
    (start : Option ℕ) (t : ℕ)
    → IsFrom start t
    → (elim start [ none ↦ true | some s ↦ leb s t ]) ≡ true
IsFrom-start none t f = refl
IsFrom-start (some s) t f = ground (arith, f)

end-IsUntil :
    (end : Option ℕ) (t : ℕ) → (elim end [ none ↦ true | some e ↦ ltb t e ]) ≡ true → IsUntil end t
end-IsUntil none t h = tt
end-IsUntil (some e) t h = ground (arith, h)

IsUntil-end :
    (end : Option ℕ) (t : ℕ) → IsUntil end t → (elim end [ none ↦ true | some e ↦ ltb t e ]) ≡ true
IsUntil-end none t u = refl
IsUntil-end (some e) t u = ground (arith, u)

pub listed-Picked :
    (matches : LedgerEntry → Bool) (scope : Option ℕ) (query : ListLedgerQueryDto) (range : Range)
    (db : Db) (es : List LedgerEntry)
    → Picked
        (IsShown matches scope query range db)
        es
        (select (is_listed matches scope query range db) es)
unfolding is_listed
listed-Picked matches scope query range db es =
    select-Picked (IsShown matches scope query range db) (is_listed matches scope query range db) es
      (λ e h. (
        of_scope-IsInScope scope db e (ground (arith, h)),
        type-HasType query.entry_type e (ground (arith, h)),
        amount-IsInAmounts query.min_amount_cents query.max_amount_cents e (ground (arith, h)),
        start-IsFrom range.start e.created_at (ground (arith, h)),
        end-IsUntil range.end e.created_at (ground (arith, h)),
        ground (arith, h),
      ))
      (λ e (s, t, a, f, u, m). ground (
        arith,
        IsInScope-of_scope scope db e s,
        HasType-type query.entry_type e t,
        IsInAmounts-amount query.min_amount_cents query.max_amount_cents e a,
        IsFrom-start range.start e.created_at f,
        IsUntil-end range.end e.created_at u,
        m,
      ))
