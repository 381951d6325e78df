-- ===== src/Merchants/Upkeep.antt =====
-- The administration of merchants keeps every key with one merchant of its own: `create`, `rotate` and
-- `updateStatus` of the API's admin/admin-merchants.service.ts.
use achflow.Prelude.{
  ℕ, suc, ◌<◌, ◌≡◌, refl, String, Bool, false, ◌&&◌, not, List, [], ◌∷◌, update, arith, ◌==◌,
  if◌then◌else◌, Option-cases, inl, inr, All,
}
use achflow.Schema.{Db, Merchant, MerchantApiKey, MerchantStatus, ok, find_merchant}
use achflow.Schema.Ids.{update-Below}
use achflow.Merchants.Authentication.{has_hash}
use achflow.Merchants.Administration.{CreateMerchantDto, of_merchant, create, rotate, update_status}
use achflow.Merchants.Keyed.{WellKeyed, DistinctKeys, Apart, set_hash, str_eq-sym, find-none-All}
use achflow.Merchants.Rotation.{rotated}
use achflow.Merchants.Creation.{key_of, created}

known_longer :
    (n : ℕ) (ks : List MerchantApiKey)
    → All (λ k. k.merchant_id < n) ks
    → All (λ k. k.merchant_id < suc (suc n)) ks
known_longer n [] a = tt
known_longer n (k ∷ ks) a = (omega (arith, a.0), known_longer n ks a.1)

both-Apart :
    (x : MerchantApiKey) (ks : List MerchantApiKey)
    → All (λ y. of_merchant x.merchant_id y ≡ false) ks
    → All (λ y. has_hash x.hashed_api_key y ≡ false) ks
    → All (Apart x) ks
both-Apart x [] a b = tt
both-Apart x (k ∷ ks) a b = ((a.0, b.0), both-Apart x ks a.1 b.1)

-- A change of the hash of one merchant's key, to one that no other has.
module _ (id : ℕ) (new : String) where
  abbrev taken : MerchantApiKey → Bool
  taken x = has_hash new x && not (of_merchant id x)

  known_still :
      (n : ℕ) (ks : List MerchantApiKey)
      → All (λ k. k.merchant_id < n) ks
      → All (λ k. k.merchant_id < n) (update (of_merchant id) (set_hash new) ks)
  unfolding update
  known_still n [] a = tt
  known_still n (k ∷ ks) a = (ground (arith, a.0), known_still n ks a.1)

  Apart-still :
      (x : MerchantApiKey) (ks : List MerchantApiKey)
      → taken x ≡ false
      → All (λ y. taken y ≡ false) ks
      → All (Apart x) ks
      → All
          (Apart (if of_merchant id x then set_hash new x else x))
          (update (of_merchant id) (set_hash new) ks)
  unfolding update
  Apart-still x [] free frees a = tt
  Apart-still x (k ∷ ks) free frees a =
      let turned = str_eq-sym new x.hashed_api_key in
      let other = a.0.0 in
      let another = a.0.1 in
      let own = frees.0 in
      (
        (ground (arith, other), ground (arith, other, another, free, own, turned)),
        Apart-still x ks free frees.1 a.1,
      )

  distinct_still :
      (ks : List MerchantApiKey)
      → All (λ y. taken y ≡ false) ks
      → DistinctKeys ks
      → DistinctKeys (update (of_merchant id) (set_hash new) ks)
  unfolding update
  distinct_still [] frees d = tt
  distinct_still (k ∷ ks) frees d =
      (Apart-still k ks frees.0 frees.1 d.0, distinct_still ks frees.1 d.1)

module _ (hash : String → String) where
  -- A request of an administrator that succeeds.
  pub data AdminStep (db db' : Db) : Type 0 where
    creates :
        (dto : CreateMerchantDto) (new : String) (m : Merchant)
        → create hash dto new db ≡ ok (m, db')
        → AdminStep db db'
    rotates :
        (id : ℕ) (new : String) (k : MerchantApiKey)
        → rotate hash id new db ≡ ok (k, db')
        → AdminStep db db'
    updates :
        (id : ℕ) (status : MerchantStatus) (m : Merchant)
        → update_status id status db ≡ ok (m, db')
        → AdminStep db db'

  pub data AdminSteps (db : Db) : Db → Type 0 where
    untouched : AdminSteps db db
    administered : {db1 db2 : Db} → AdminSteps db db1 → AdminStep db1 db2 → AdminSteps db db2

  create-WellKeyed :
      (dto : CreateMerchantDto) (new : String) (db db' : Db) (m : Merchant)
      → WellKeyed db
      → create hash dto new db ≡ ok (m, db')
      → WellKeyed db'
  create-WellKeyed dto new db db' m w h =
      let (row, free, free_hash, after) = created hash dto new db db' m h in
      rw after (record {
        merchants_below = (omega arith, w.merchants_below);
        keys_known = (omega arith, known_longer db.next_id db.api_keys w.keys_known);
        keys_distinct = (
          both-Apart (key_of hash new db) db.api_keys
              (find-none-All (of_merchant db.next_id) db.api_keys free)
              (find-none-All (has_hash (hash new)) db.api_keys free_hash),
          w.keys_distinct,
        );
      })

  rotate-WellKeyed :
      (id : ℕ) (new : String) (db db' : Db) (k : MerchantApiKey)
      → WellKeyed db
      → rotate hash id new db ≡ ok (k, db')
      → WellKeyed db'
  rotate-WellKeyed id new db db' k w h =
      let (r, found, free, after) = rotated hash id new db db' k h in
      rw after (record {
        merchants_below = w.merchants_below;
        keys_known = known_still id (hash new) db.next_id db.api_keys w.keys_known;
        keys_distinct =
            distinct_still id (hash new) db.api_keys
              (find-none-All (taken id (hash new)) db.api_keys free) w.keys_distinct;
      })

status-WellKeyed :
    (id : ℕ) (status : MerchantStatus) (db db' : Db) (m : Merchant)
    → WellKeyed db
    → update_status id status db ≡ ok (m, db')
    → WellKeyed db'
unfolding update_status
status-WellKeyed id status db db' m w h = elim (Option-cases (find_merchant id db)) [
  | inl missing ↦ absurd (ground (arith, missing, h))
  | inr (x, found) ↦
      let set : Merchant → Merchant = λ y. record y { status = status } in
      let after : db' ≡ record db { merchants = update (λ y. y.id == id) set db.merchants } =
        ground (arith, found, h) in
      rw after (record {
        merchants_below =
            update-Below Merchant.id db.next_id (λ y. y.id == id) set db.merchants (λ y. refl)
              w.merchants_below;
        keys_known = w.keys_known;
        keys_distinct = w.keys_distinct;
      })
]

step-WellKeyed :
    (hash : String → String) (db db' : Db) → WellKeyed db → AdminStep hash db db' → WellKeyed db'
step-WellKeyed hash db db' w (creates dto new m h) = create-WellKeyed hash dto new db db' m w h
step-WellKeyed hash db db' w (rotates id new k h) = rotate-WellKeyed hash id new db db' k w h
step-WellKeyed hash db db' w (updates id status m h) = status-WellKeyed id status db db' m w h

-- Over any sequence of creations, rotations and changes of status, every key is of one merchant, of
-- an id that was given out, and no two keys are of the same merchant or have the same hash.
pub administration-WellKeyed :
    (hash : String → String) (db db' : Db) → WellKeyed db → AdminSteps hash db db' → WellKeyed db'
administration-WellKeyed hash db _ w untouched = w
administration-WellKeyed hash db db' w (administered {db1 = d} before s) =
    step-WellKeyed hash d db' (administration-WellKeyed hash db d w before) s
