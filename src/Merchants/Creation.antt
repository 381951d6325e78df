-- ===== src/Merchants/Creation.antt =====
-- Which keys are taken after `create` of the API's admin/admin-merchants.service.ts, by `authenticate`
-- of its auth/merchant-authentication.service.ts.
use achflow.Prelude.{
  suc, ◌<◌, ◌≡◌, refl, sym, subst, String, Option, none, some, ◌∷◌, find, arith, if◌then◌else◌,
  str_eq, Bool-cases, Option-cases, inl, inr,
}
use achflow.Schema.{Db, Merchant, MerchantApiKey, Result, ok, err, find_merchant}
use achflow.Merchants.Authentication.{has_hash, authenticate}
use achflow.Merchants.Administration.{
  CreateMerchantDto, merchant_row, of_merchant, create_merchant_row, create_api_key,
  create_with_key, create,
}
use achflow.Merchants.Keyed.{WellKeyed, all-find}
use achflow.Merchants.Rotation.{authenticates, refuses}

module _ (hash : String → String) where
  abbrev pub key_of : String → Db → MerchantApiKey
  key_of new db = record {
    id = suc db.next_id;
    merchant_id = db.next_id;
    hashed_api_key = hash new;
  }

  abbrev pub after_create : CreateMerchantDto → String → Db → Db
  after_create dto new db = record db {
    next_id = suc (suc db.next_id);
    merchants = merchant_row dto db.next_id ∷ db.merchants;
    api_keys = key_of new db ∷ db.api_keys;
  }

  -- What a creation that commits has found and made.
  pub created :
      (dto : CreateMerchantDto) (new : String) (db db' : Db) (m : Merchant)
      → create hash dto new db ≡ ok (m, db')
      → (m ≡ merchant_row dto db.next_id)
        × (find (of_merchant db.next_id) db.api_keys ≡ none)
        × (find (has_hash (hash new)) db.api_keys ≡ none)
        × (db' ≡ after_create dto new db)
  unfolding create create_with_key create_merchant_row create_api_key
  created dto new db db' m h =
      elim (Option-cases (find (λ x. str_eq x.merchant_code dto.merchant_code) db.merchants)) [
        | inr (x, taken) ↦ absurd (ground (arith, taken, h))
        | inl free_code ↦ elim (Option-cases (find (of_merchant db.next_id) db.api_keys)) [
          | inr (x, taken) ↦ absurd (ground (arith, free_code, taken, h))
          | inl free ↦ elim (Option-cases (find (has_hash (hash new)) db.api_keys)) [
            | inr (x, taken) ↦ absurd (ground (arith, free_code, free, taken, h))
            | inl free_hash ↦ (
              ground (arith, free_code, free, free_hash, h),
              free,
              free_hash,
              ground (arith, free_code, free, free_hash, h),
            )
          ]
        ]
      ]

  others_stay :
      (dto : CreateMerchantDto) (new k : String) (db : Db) (found : Option MerchantApiKey)
      → WellKeyed db
      → find (has_hash (hash k)) db.api_keys ≡ found
      → find (has_hash (hash k)) (after_create dto new db).api_keys ≡ found
      → authenticate hash k (after_create dto new db) ≡ (elim (authenticate hash k db) [
        | ok (other, d) ↦ ok (other, after_create dto new db)
        | err e ↦ err e
      ])
  unfolding find
  others_stay dto new k db none w before after =
      rw (refuses hash k (after_create dto new db) after, refuses hash k db before) refl
  others_stay dto new k db (some r) w before after =
      let older =
        all-find (λ x. x.merchant_id < db.next_id) (has_hash (hash k)) db.api_keys r w.keys_known
          before in
      let ms : find_merchant r.merchant_id (after_create dto new db)
          ≡ find_merchant r.merchant_id db =
        ground (arith, older) in
      elim (Option-cases (find_merchant r.merchant_id db)) [
        | inl missing ↦
            rw
              (
                authenticates hash k (after_create dto new db) r none after (rw ms missing),
                authenticates hash k db r none before missing,
              )
              refl
        | inr (x, there) ↦
            rw
              (
                authenticates hash k (after_create dto new db) r (some x) after (rw ms there),
                authenticates hash k db r (some x) before there,
              )
              refl
      ]

  -- What a key gives after a creation.
  abbrev answer :
      (new k : String) → (db : Db) → (m : Merchant) → (db' : Db) → Result (Merchant × Db)
  answer new k db m db' =
      if str_eq (hash new) (hash k)
      then ok (m, db')
      else elim (authenticate hash k db) [ ok (other, d) ↦ ok (other, db') | err e ↦ err e ]

  answers :
      (dto : CreateMerchantDto) (new k : String) (db : Db)
      → WellKeyed db
      → authenticate hash k (after_create dto new db)
        ≡ answer new k db (merchant_row dto db.next_id) (after_create dto new db)
  unfolding find
  answers dto new k db w = elim (Bool-cases (str_eq (hash new) (hash k))) [
    | inl e ↦
        let looked : find (has_hash (hash k)) (after_create dto new db).api_keys
            ≡ some (key_of new db) =
          ground (arith, e) in
        let own : find_merchant db.next_id (after_create dto new db)
            ≡ some (merchant_row dto db.next_id) =
          ground arith in
        rw e (
          authenticates hash k (after_create dto new db) (key_of new db)
            (some (merchant_row dto db.next_id)) looked own)
    | inr e ↦
        let looked : find (has_hash (hash k)) (after_create dto new db).api_keys
            ≡ find (has_hash (hash k)) db.api_keys =
          ground (arith, e) in
        rw e (others_stay dto new k db (find (has_hash (hash k)) db.api_keys) w refl looked)
  ]

  -- After the creation of a merchant, a key with the hash of its key authenticates the new merchant,
  -- and any other key gives what it gave before.
  pub create_authenticates :
      (dto : CreateMerchantDto) (new k : String) (db db' : Db) (m : Merchant)
      → WellKeyed db
      → create hash dto new db ≡ ok (m, db')
      → authenticate hash k db' ≡ (
          if str_eq (hash new) (hash k)
          then ok (m, db')
          else elim (authenticate hash k db) [ ok (other, d) ↦ ok (other, db') | err e ↦ err e ])
  create_authenticates dto new k db db' m w h =
      let (row, free, free_hash, after) = created dto new db db' m h in
      subst (λ d. authenticate hash k d ≡ answer new k db m d) (sym after)
        (subst
          (λ x.
            authenticate hash k (after_create dto new db)
            ≡ answer new k db x (after_create dto new db))
          (sym row) (answers dto new k db w))
