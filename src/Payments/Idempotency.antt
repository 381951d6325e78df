-- ===== src/Payments/Idempotency.antt =====
-- A payment that is asked for twice under one idempotency key is created once.
use achflow.Prelude.{
  ℕ, String, ◌≡◌, refl, sym, ◌∙◌, true, false, some, Option-cases, Bool-cases, inl, inr, arith,
  trim, is_blank, ◌==◌, if◌then◌else◌, same, str_eq_iff, find, ◌∷◌, suc, eq_refl,
}
use achflow.Schema.{
  Db, Payment, Merchant, PaymentKey, Result, ok, err, conflict, unique_constraint,
  idempotency_key_reused, transact, create_event, client_key, payment_key_discrete,
}
use achflow.Events.{create_lifecycle_event}
use achflow.Payments.Requests.{
  CreatePaymentDto, CanonicalRequest, CreatePaymentRecord, canonical_request, map_create_payment,
}
use achflow.Payments.Creation.{
  new_payment, create_payment, create_idempotency_record, create_with_outbox_and_idempotency,
  find_idempotency_record, find_with_visibility_retry, handle_idempotency_conflict, find_by_code,
  create_for, create, CreatePaymentResult,
}

same_key : (k l : PaymentKey) → l ≡ k → same (payment_key_discrete k l) ≡ true
same_key k l e = decided (payment_key_discrete k l)
  where
    decided : (d : Dec (k ≡ l)) → same d ≡ true
    decided (yes _) = refl
    decided (no ne) = absurd (ne (sym e))

-- The branch of a conflict creates nothing.
conflict_created :
    (merchant : ℕ) (key : String) (fingerprint : ℕ) (views : ℕ → Db) (r : CreatePaymentResult)
    → handle_idempotency_conflict merchant key fingerprint views ≡ ok r
    → r.created ≡ false
unfolding handle_idempotency_conflict
conflict_created merchant key fingerprint views r h = ground arith

module _ (r : CreatePaymentRecord) (key : String) (p : Payment) (db db' : Db) where
  -- What the transaction leaves in front.
  created :
      create_with_outbox_and_idempotency r key db ≡ ok (p, db')
      → (p ≡ new_payment r db)
        × (db'.payments ≡ p ∷ db.payments)
        × (db'.merchants ≡ db.merchants)
        × (db'.idempotency_records
            ≡ record {
              id = suc (suc db.next_id);
              merchant_id = r.merchant_id;
              idempotency_key = key;
              request_fingerprint = r.request_fingerprint;
              payment_id = p.id;
            }
              ∷ db.idempotency_records)
  unfolding create_with_outbox_and_idempotency create_payment create_idempotency_record create_event
      create_lifecycle_event
  created h = (ground arith, ground arith, ground arith, ground arith)

  -- The record is found with its payment.
  found_again :
      create_with_outbox_and_idempotency r key db ≡ ok (p, db')
      → find_idempotency_record r.merchant_id key db'
        ≡ some (
          record {
            id = suc (suc db.next_id);
            merchant_id = r.merchant_id;
            idempotency_key = key;
            request_fingerprint = r.request_fingerprint;
            payment_id = p.id;
          },
          p,
        )
  unfolding find_idempotency_record find
  found_again h =
      let (here, payments, _, records) = created h in
      ground (
        arith,
        here,
        payments,
        records,
        (str_eq_iff key key).1 refl,
        eq_refl r.merchant_id,
        eq_refl p.id,
      )

  -- A second payment of the key is refused.
  refused_again :
      (other : CreatePaymentRecord)
      → other.idempotency_key ≡ r.idempotency_key
      → create_with_outbox_and_idempotency r key db ≡ ok (p, db')
      → create_with_outbox_and_idempotency other key db' ≡ err unique_constraint
  unfolding create_with_outbox_and_idempotency create_payment find
  refused_again other e h =
      let (here, payments, _, _) = created h in
      let key_of : p.idempotency_key ≡ r.idempotency_key = ground (arith, here) in
      let taken = same_key p.idempotency_key other.idempotency_key (e ∙ sym key_of) in
      ground (arith, payments, taken)

-- The second request, in the store that the first left.
module _ (to_upper_case : String → String) (digest : CanonicalRequest → ℕ)
    (dto again : CreatePaymentDto) (client : String) (merchant : ℕ) (views later : ℕ → Db)
    (db db' : Db) (r : CreatePaymentResult) where
  abbrev fingerprint_of : CreatePaymentDto → ℕ
  fingerprint_of d = digest (canonical_request to_upper_case d merchant)

  abbrev record_of : CreatePaymentDto → String → CreatePaymentRecord
  record_of d key =
      map_create_payment to_upper_case d (fingerprint_of d) merchant (client_key merchant key)

  first_created :
      (key : String)
      → create_for to_upper_case digest dto key merchant views db ≡ (ok r, db')
      → r.created ≡ true
      → (create_with_outbox_and_idempotency (record_of dto key) key db ≡ ok (r.payment, db'))
        × (r.idempotency_key ≡ key)
  unfolding create_for transact
  first_created key h c = go (create_with_outbox_and_idempotency (record_of dto key) key db) refl
    where
      go :
          (y : Result (Payment × Db))
          → create_with_outbox_and_idempotency (record_of dto key) key db ≡ y
          → (create_with_outbox_and_idempotency (record_of dto key) key db ≡ ok (r.payment, db'))
            × (r.idempotency_key ≡ key)
      go (ok (p, d)) e = (ground (arith, e, h), ground (arith, e, h))
      go (err x) e =
          absurd
            (ground (arith, e, h, c, conflict_created merchant key (fingerprint_of dto) views r))

  for_twice :
      (key : String)
      → create_for to_upper_case digest dto key merchant views db ≡ (ok r, db')
      → r.created ≡ true
      → later 0 ≡ db'
      → create_for to_upper_case digest again key merchant later db' ≡ (
        (if fingerprint_of again == fingerprint_of dto
            then ok (record { payment = r.payment; idempotency_key = key; created = false })
            else err (conflict idempotency_key_reused)),
        db',
      )
  unfolding create_for transact handle_idempotency_conflict find_with_visibility_retry
      map_create_payment
  for_twice key h c l =
      let (run, _) = first_created key h c in
      let refused =
        refused_again (record_of dto key) key r.payment db db' (record_of again key) refl run in
      let found = found_again (record_of dto key) key r.payment db db' run in
      ground (arith, refused, found, l)

  -- The request that a merchant's key was accepted for.
  accepted :
      create to_upper_case digest dto (some client) merchant views db ≡ (ok r, db')
      → (is_blank client ≡ false)
        × ((m : Merchant) × (find_by_code dto.merchant_code db ≡ some m) × (m.id ≡ merchant))
        × (create_for to_upper_case digest dto (trim client) merchant views db ≡ (ok r, db'))
  unfolding create
  accepted h = elim (Option-cases (find_by_code dto.merchant_code db)) [
    | inl e ↦ absurd (ground arith)
    | inr (m, e) ↦ elim (Bool-cases (m.id == merchant)) [
      | inl own ↦ (ground arith, (m, e, ground arith), ground arith)
      | inr other ↦ absurd (ground arith)
    ]
  ]

  -- Once a payment was created under a key, a request of the same merchant code under that key
  -- changes nothing: it is answered with the payment if it asks for the same, by its fingerprint,
  -- and is refused otherwise.
  pub create_again :
      create to_upper_case digest dto (some client) merchant views db ≡ (ok r, db')
      → r.created ≡ true
      → again.merchant_code ≡ dto.merchant_code
      → later 0 ≡ db'
      → create to_upper_case digest again (some client) merchant later db' ≡ (
        (if digest (canonical_request to_upper_case again merchant)
              == digest (canonical_request to_upper_case dto merchant)
            then ok (record { payment = r.payment; idempotency_key = trim client; created = false })
            else err (conflict idempotency_key_reused)),
        db',
      )
  unfolding create
  create_again h c code l =
      let (filled, (m, e, own), run) = accepted h in
      let (made, _) = first_created (trim client) run c in
      let (_, _, merchants, _) =
        created (record_of dto (trim client)) (trim client) r.payment db db' made in
      let twice = for_twice (trim client) run c l in
      ground (arith, filled, e, own, merchants, code, twice)
