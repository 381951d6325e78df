-- ===== src/Merchants/Administration.antt =====
-- `create`, `updateStatus` and `rotate` of the API's admin/admin-merchants.service.ts. The key that
-- `newKey` makes of random bytes is an argument, and so is the hash; the log of the audit is left out.
use achflow.Prelude.{
  ℕ, suc, String, Bool, false, ◌&&◌, not, Option, none, some, ◌∷◌, find, update, ◌==◌, str_eq,
}
use achflow.Prelude.Int.{pos}
use achflow.Schema.{
  Merchant, MerchantStatus, MerchantApiKey, Result, Tx, ok, err, pure, gets, or_throw, ◌>>=◌,
  conflict, not_found, unique_constraint, record_missing, merchant_code_exists, merchant_not_found,
  find_merchant,
}
use achflow.Merchants.Authentication.{has_hash}

-- The limits are texts of digits, read by `BigInt`.
pub record CreateMerchantDto : Type 0 where
  pub merchant_code : String
  pub legal_name : String
  pub display_name : String
  pub per_payment_limit : Option ℕ
  pub daily_amount_limit : Option ℕ
  pub allow_ach_debit : Option Bool
  pub allow_ach_credit : Option Bool
  pub status : Option MerchantStatus

abbrev or_default : {A : Type 0} → A → Option A → A
or_default a none = a
or_default a (some b) = b

-- The row of `merchant.create`, with the defaults of the schema.
abbrev pub merchant_row : CreateMerchantDto → (id : ℕ) → Merchant
merchant_row dto id = record {
  id = id;
  merchant_code = dto.merchant_code;
  legal_name = dto.legal_name;
  display_name = dto.display_name;
  status = or_default MerchantStatus.active dto.status;
  allow_ach_debit = or_default false dto.allow_ach_debit;
  allow_ach_credit = or_default false dto.allow_ach_credit;
  per_payment_limit = pos (or_default 10000 dto.per_payment_limit);
  daily_amount_limit = pos (or_default 100000 dto.daily_amount_limit);
}

-- `tx.merchant.create`, where merchant codes are unique.
unfoldable pub create_merchant_row : CreateMerchantDto → Tx Merchant
create_merchant_row dto db =
    elim (find (λ m. str_eq m.merchant_code dto.merchant_code) db.merchants) [
      | some _ ↦ err unique_constraint
      | none ↦
          let m = merchant_row dto db.next_id in
          ok (m, record db { next_id = suc db.next_id; merchants = m ∷ db.merchants })
    ]

abbrev pub of_merchant : ℕ → MerchantApiKey → Bool
of_merchant m k = k.merchant_id == m

-- `tx.merchantApiKey.create`, where merchants and hashes are unique.
unfoldable pub create_api_key : (merchant : ℕ) → (hashed : String) → Tx MerchantApiKey
create_api_key merchant hashed db =
    let k : MerchantApiKey = record {
      id = db.next_id;
      merchant_id = merchant;
      hashed_api_key = hashed;
    } in
    elim (find (of_merchant merchant) db.api_keys) [
      | some _ ↦ err unique_constraint
      | none ↦ elim (find (has_hash hashed) db.api_keys) [
        | some _ ↦ err unique_constraint
        | none ↦ ok (k, record db { next_id = suc db.next_id; api_keys = k ∷ db.api_keys })
      ]
    ]

-- `merchantApiKey.update({ where: { merchantId } })`, where hashes are unique.
unfoldable pub update_api_key : (merchant : ℕ) → (hashed : String) → Tx MerchantApiKey
update_api_key merchant hashed db =
    let set : MerchantApiKey → MerchantApiKey = λ k. record k { hashed_api_key = hashed } in
    elim (find (of_merchant merchant) db.api_keys) [
      | none ↦ err record_missing
      | some k ↦ elim (find (λ x. has_hash hashed x && not (of_merchant merchant x)) db.api_keys) [
        | some _ ↦ err unique_constraint
        | none ↦ ok (set k, record db { api_keys = update (of_merchant merchant) set db.api_keys })
      ]
    ]

-- The `catch` of `create`: a P2002, whichever column it is of.
abbrev pub conflicting : {A : Type 0} → Result A → Result A
conflicting (err unique_constraint) = err (conflict merchant_code_exists)
conflicting (err e) = err e
conflicting (ok a) = ok a

module _ (hash_api_key : String → String) where
  -- The transaction of `create`.
  unfoldable pub create_with_key : CreateMerchantDto → (api_key : String) → Tx Merchant
  unfolding create_merchant_row create_api_key
  create_with_key dto api_key = do
    created ← create_merchant_row dto
    key ← create_api_key created.id (hash_api_key api_key)
    pure created

  unfoldable pub create : CreateMerchantDto → (api_key : String) → Tx Merchant
  unfolding create_with_key
  create dto api_key db = conflicting (create_with_key dto api_key db)

  -- `rotate`, with `ensure`.
  unfoldable pub rotate : ℕ → (api_key : String) → Tx MerchantApiKey
  unfolding update_api_key
  rotate id api_key = do
    merchant ← gets (find_merchant id)
    ensured ← or_throw merchant (not_found merchant_not_found)
    update_api_key id (hash_api_key api_key)

-- `updateStatus`, which takes any failure of the update for a missing merchant.
unfoldable pub update_status : ℕ → MerchantStatus → Tx Merchant
update_status id status db =
    let set : Merchant → Merchant = λ m. record m { status = status } in
    elim (find_merchant id db) [
      | none ↦ err (not_found merchant_not_found)
      | some m ↦ ok (set m, record db { merchants = update (λ x. x.id == id) set db.merchants })
    ]
