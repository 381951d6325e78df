-- ===== src/Payments/Isolation.antt =====
-- A merchant's requests leave the payments of the other merchants as they are.
use achflow.Prelude.{
  ℕ, String, false, ◌≡◌, refl, some, none, Option, Option-cases, Bool-cases, inl, inr, arith, ◌==◌,
  ==_iff,
}
use achflow.Schema.{Db, Payment, Reservation, Result, ok, err, Tx, Action, transact, find_payment}
use achflow.Engine.Validating.{commit_validated, validate}
use achflow.Engine.Reserving.{reserve}
use achflow.Engine.Settling.{settle, settle_debit_payment, settle_held, settle_active}
use achflow.Engine.Returning.{return_settlement, return_debit_payment, return_held, return_settled}
use achflow.Course.Validating.{api_validate_ends, transact_left}
use achflow.Payments.Access.{
  find_owned_payment, find_one, for_owner, answer_with, PaymentResponse, validate_owned,
  reserve_owned, settle_owned, return_owned,
}
use achflow.Payments.Sparing.{Spared, Spares, sparing}

module _ (id : ℕ) where
  commit-Spares : Spares id (commit_validated id)
  unfolding commit_validated
  commit-Spares = search sparing depth 12

  reserve-Spares : Spares id (reserve id)
  unfolding reserve
  reserve-Spares = search sparing depth 30

  active-Spares : (r : Reservation) → Spares id (settle_active id r)
  unfolding settle_active
  active-Spares r = search sparing depth 18

  held-Spares : (r : Reservation) → Spares id (settle_held id r)
  unfolding settle_held
  held-Spares r = search (sparing, active-Spares) depth 12

  debit-Spares : Spares id (settle_debit_payment id)
  unfolding settle_debit_payment
  debit-Spares = search sparing depth 16

  settle-Spares : Spares id (settle id)
  unfolding settle
  settle-Spares = search (sparing, debit-Spares, held-Spares) depth 6

  module _ (code : String) where
    settled-Spares : (r : Reservation) → Spares id (return_settled id code r)
    unfolding return_settled
    settled-Spares r = search sparing depth 16

    return_held-Spares : (r : Reservation) → Spares id (return_held id code r)
    unfolding return_held
    return_held-Spares r = search (sparing, settled-Spares) depth 12

    return_debit-Spares : Spares id (return_debit_payment id code)
    unfolding return_debit_payment
    return_debit-Spares = search sparing depth 18

    return-Spares : Spares id (return_settlement id code)
    unfolding return_settlement
    return-Spares = search (sparing, return_debit-Spares, return_held-Spares) depth 6

-- An operation for the owner, by what the engine's does.
for_owner-Spared :
    {A : Type 0} (id authenticated j : ℕ) (action : Action A) (db : Db) (p : Payment)
    → ((q : Payment) → find_payment id db ≡ some q → Spared id db (action db).1)
    → find_payment j db ≡ some p
    → (p.merchant_id == authenticated) ≡ false
    → find_payment j (for_owner id authenticated action db).1 ≡ some p
unfolding for_owner find_owned_payment
for_owner-Spared id authenticated j action db p h found other =
    elim (Option-cases (find_payment id db)) [
      | inl e ↦ ground (arith, e, found)
      | inr (q, e) ↦ elim (Bool-cases (q.merchant_id == authenticated)) [
        | inr not_owner ↦ ground (arith, e, not_owner, found)
        | inl owner ↦ elim (Bool-cases (j == id)) [
          | inl own ↦
              let same_id : j ≡ id = (==_iff j id).0 own in
              let there : find_payment j db ≡ some q = rw same_id e in
              let row : q ≡ p = cc in
              let not_owner : (q.merchant_id == authenticated) ≡ false = rw row other in
              absurd (ground (arith, owner, not_owner))
          | inr elsewhere ↦ ground (arith, e, owner, h q e j p found elsewhere)
        ]
      ]
    ]

-- A request of a merchant about a payment, and the store that it leaves.
pub data OwnerRequest (id authenticated : ℕ) (db db' : Db) : Type 0 where
  validates : db' ≡ (validate_owned id authenticated db).1 → OwnerRequest id authenticated db db'
  reserves : db' ≡ (reserve_owned id authenticated db).1 → OwnerRequest id authenticated db db'
  settles : db' ≡ (settle_owned id authenticated db).1 → OwnerRequest id authenticated db db'
  returns :
      (code : String)
      → db' ≡ (return_owned id code authenticated db).1
      → OwnerRequest id authenticated db db'

-- What is read for the answer changes nothing.
validate_left :
    (id authenticated : ℕ) (db : Db)
    → (validate_owned id authenticated db).1 ≡ (for_owner id authenticated (validate id) db).1
unfolding validate_owned
validate_left id authenticated db = go (for_owner id authenticated (validate id) db) refl
  where
    go :
        (y : Result Payment × Db)
        → for_owner id authenticated (validate id) db ≡ y
        → (validate_owned id authenticated db).1 ≡ (for_owner id authenticated (validate id) db).1
    go (ok p, d) e = ground (arith, e)
    go (err x, d) e = ground (arith, e)

answer_left :
    (id authenticated : ℕ) (y : Result (Option Reservation) × Db)
    → (answer_with id authenticated y).1 ≡ y.1
unfolding answer_with
answer_left id authenticated (ok none, d) = go (find_one id authenticated d) refl
  where
    go :
        (r : Result PaymentResponse)
        → find_one id authenticated d ≡ r
        → (answer_with id authenticated (ok none, d)).1 ≡ d
    go (ok response) e = ground (arith, e)
    go (err x) e = ground (arith, e)
answer_left id authenticated (ok (some r), d) = refl
answer_left id authenticated (err x, d) = refl

-- The same of a transaction of the engine.
transact-Spared :
    {A : Type 0} (id authenticated j : ℕ) (m : Tx A) (db : Db) (p : Payment)
    → Spares id m
    → find_payment j db ≡ some p
    → (p.merchant_id == authenticated) ≡ false
    → find_payment j (for_owner id authenticated (transact m) db).1 ≡ some p
transact-Spared id authenticated j m db p k found other =
    for_owner-Spared id authenticated j (transact m) db p
      (λ q _. transact_left (Spared id db) m db (λ i x f _. f) (λ x d h. k.spare db d x h)) found
      other

-- A request of a merchant about a payment, whatever it asks for and whoever owns that payment,
-- leaves every payment of the other merchants as it was.
pub others_stay :
    (id authenticated j : ℕ) (db db' : Db) (p : Payment)
    → OwnerRequest id authenticated db db'
    → find_payment j db ≡ some p
    → (p.merchant_id == authenticated) ≡ false
    → find_payment j db' ≡ some p
unfolding settle_owned return_owned reserve_owned
others_stay id authenticated j db db' p (validates e) found other =
    rw (e, validate_left id authenticated db)
      (for_owner-Spared id authenticated j (validate id) db p
        (λ q _.
          api_validate_ends (Spared id db) id db (λ i x f _. f)
            (λ _ v d _ _ h. (commit-Spares id).spare db d v h))
        found other)
others_stay id authenticated j db db' p (reserves e) found other =
    rw e (transact-Spared id authenticated j (reserve id) db p (reserve-Spares id) found other)
others_stay id authenticated j db db' p (settles e) found other =
    rw (e, answer_left id authenticated (for_owner id authenticated (transact (settle id)) db))
      (transact-Spared id authenticated j (settle id) db p (settle-Spares id) found other)
others_stay id authenticated j db db' p (returns code e) found other =
    rw
      (
        e,
        answer_left id authenticated
            (for_owner id authenticated (transact (return_settlement id code)) db),
      )
      (transact-Spared id authenticated j (return_settlement id code) db p (return-Spares id code)
        found other)
