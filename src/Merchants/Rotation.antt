-- ===== src/Merchants/Rotation.antt =====
-- Which keys are taken after `rotate` and `create` of the API's admin/admin-merchants.service.ts, by
-- `authenticate` of its auth/merchant-authentication.service.ts.
use achflow.Prelude.{
  ℕ, ◌≡◌, refl, sym, ap, String, false, ◌&&◌, not, Option, none, some, find, update, arith, ◌==◌,
  if◌then◌else◌, str_eq, str_eq_iff, Bool-cases, Option-cases, inl, inr,
}
use achflow.Schema.{
  Db, Merchant, MerchantApiKey, Result, or_throw, record_missing, ok, err, unauthorized,
  invalid_api_key, find_merchant,
}
use achflow.Schema.Ids.{find-holds}
use achflow.Merchants.Authentication.{has_hash, authenticate}
use achflow.Merchants.Administration.{of_merchant, update_api_key, rotate}
use achflow.Merchants.Keyed.{WellKeyed, set_hash, find-replaced, find-new}

module _ (hash : String → String) where
  pub rotated :
      (id : ℕ) (new : String) (db db' : Db) (row : MerchantApiKey)
      → rotate hash id new db ≡ ok (row, db')
      → (r : MerchantApiKey) × (find (of_merchant id) db.api_keys ≡ some r)
        × (find (λ x. has_hash (hash new) x && not (of_merchant id x)) db.api_keys ≡ none)
        × (db' ≡ record db { api_keys = update (of_merchant id) (set_hash (hash new)) db.api_keys })
  unfolding rotate update_api_key
  rotated id new db db' row h = elim (Option-cases (find_merchant id db)) [
    | inl missing ↦ absurd (ground (arith, missing, h))
    | inr (m, known) ↦ elim (Option-cases (find (of_merchant id) db.api_keys)) [
      | inl missing ↦ absurd (ground (arith, known, missing, h))
      | inr (r, found) ↦
          elim (Option-cases
            (find (λ x. has_hash (hash new) x && not (of_merchant id x)) db.api_keys)) [
              | inr (x, taken) ↦ absurd (ground (arith, known, found, taken, h))
              | inl free ↦ (r, found, free, ground (arith, known, found, free, h))
            ]
    ]
  ]

  pub authenticates :
      (k : String) (db : Db) (r : MerchantApiKey) (found : Option Merchant)
      → find (has_hash (hash k)) db.api_keys ≡ some r
      → find_merchant r.merchant_id db ≡ found
      → authenticate hash k db ≡ or_throw found record_missing db
  unfolding authenticate
  authenticates k db r found e f = rw (e, f) refl

  pub refuses :
      (k : String) (db : Db)
      → find (has_hash (hash k)) db.api_keys ≡ none
      → authenticate hash k db ≡ err (unauthorized invalid_api_key)
  unfolding authenticate
  refuses k db e = rw e refl

  -- What a key other than the new one gave before, without the merchant.
  abbrev still : (id : ℕ) → Db → Result (Merchant × Db) → Result (Merchant × Db)
  still id db' (ok (other, d)) =
      if other.id == id then err (unauthorized invalid_api_key) else ok (other, db')
  still id db' (err e) = err e

  others_still :
      (id : ℕ) (new k : String) (db db' : Db) (m : Merchant) (found : Option MerchantApiKey)
      → find_merchant id db ≡ some m
      → db'.merchants ≡ db.merchants
      → find (has_hash (hash k)) db.api_keys ≡ found
      → find (has_hash (hash k)) db'.api_keys
        ≡ (elim found [ none ↦ none | some r ↦ if of_merchant id r then none else some r ])
      → authenticate hash k db' ≡ still id db' (authenticate hash k db)
  others_still id new k db db' m none known ms before after =
      rw (refuses k db' after, refuses k db before) refl
  others_still id new k db db' m (some r) known ms before after =
      elim (Bool-cases (r.merchant_id == id)) [
        | inl own ↦
            let gone : find (has_hash (hash k)) db'.api_keys ≡ none = ground (arith, after, own) in
            let same_merchant : r.merchant_id ≡ id = ground (arith, own) in
            let named = find-holds (λ x. x.id == id) db.merchants m known in
            let there : find_merchant r.merchant_id db ≡ some m = rw same_merchant known in
            rw (refuses k db' gone, authenticates k db r (some m) before there, named) refl
        | inr other ↦
            let kept : find (has_hash (hash k)) db'.api_keys ≡ some r =
              ground (arith, after, other) in
            elim (Option-cases (find_merchant r.merchant_id db)) [
              | inl missing ↦
                  rw
                    (
                      authenticates k db' r none kept (rw ms missing),
                      authenticates k db r none before missing,
                    )
                    refl
              | inr (x, there) ↦
                  let named = find-holds (λ y. y.id == r.merchant_id) db.merchants x there in
                  let differs : (x.id == id) ≡ false = ground (arith, named, other) in
                  rw
                    (
                      authenticates k db' r (some x) kept (rw ms there),
                      authenticates k db r (some x) before there,
                      differs,
                    )
                    refl
            ]
      ]

  -- After a rotation of a merchant's key, a key with the hash of the new one authenticates the
  -- merchant, and any other key is refused where it authenticated that merchant, and gives what it gave
  -- before elsewhere.
  pub rotate_replaces :
      (id : ℕ) (new k : String) (db db' : Db) (row : MerchantApiKey) (m : Merchant)
      → WellKeyed db
      → find_merchant id db ≡ some m
      → rotate hash id new db ≡ ok (row, db')
      → authenticate hash k db' ≡ (
          if str_eq (hash new) (hash k) then ok (m, db') else elim (authenticate hash k db) [
            | ok (other, d) ↦
                if other.id == id then err (unauthorized invalid_api_key) else ok (other, db')
            | err e ↦ err e
          ])
  rotate_replaces id new k db db' row m w known h =
      let (r, found, free, after) = rotated id new db db' row h in
      let keys = ap Db.api_keys after in
      let ms : db'.merchants ≡ db.merchants = ap Db.merchants after in
      elim (Bool-cases (str_eq (hash new) (hash k))) [
        | inl e ↦
            let same_hash : hash new ≡ hash k = (str_eq_iff (hash new) (hash k)).0 e in
            let found_new = find-new id (hash new) db.api_keys r found free in
            let looked : find (has_hash (hash k)) db'.api_keys ≡ some (set_hash (hash new) r) =
              rw (sym same_hash, keys) found_new in
            let own = find-holds (of_merchant id) db.api_keys r found in
            let same_merchant : r.merchant_id ≡ id = ground (arith, own) in
            rw e (
              authenticates k db' (set_hash (hash new) r) (some m) looked
                (rw (ms, same_merchant) known))
        | inr e ↦
            let looked = find-replaced id (hash new) (hash k) e db.api_keys w.keys_distinct in
            rw e (
              others_still id new k db db' m (find (has_hash (hash k)) db.api_keys) known ms refl
                (rw keys looked))
      ]
