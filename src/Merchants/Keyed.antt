-- ===== src/Merchants/Keyed.antt =====
-- The keys of merchants as the schema keeps them, one of a merchant and each of another hash, and
-- what a change of a key does to a lookup.
use achflow.Prelude.{
  ℕ, ◌<◌, ◌≡◌, refl, subst, String, Bool, true, false, ◌&&◌, not, none, some, List, [], ◌∷◌, find,
  update, arith, if◌then◌else◌, str_eq, str_eq_iff, Bool-cases, inl, inr, All,
}
use achflow.Schema.{Db, Merchant, MerchantApiKey}
use achflow.Schema.Ids.{Below}
use achflow.Merchants.Authentication.{has_hash}
use achflow.Merchants.Administration.{of_merchant}

-- Two keys are of different merchants and hashes.
abbrev pub Apart : (x y : MerchantApiKey) → Type 0
Apart x y = (of_merchant x.merchant_id y ≡ false) × (has_hash x.hashed_api_key y ≡ false)

abbrev pub DistinctKeys : List MerchantApiKey → Type 0
DistinctKeys [] = Unit {0}
DistinctKeys (x ∷ xs) = All (Apart x) xs × DistinctKeys xs

pub record WellKeyed (db : Db) : Type 0 where
  pub merchants_below : Below Merchant.id db.next_id db.merchants
  pub keys_known : All (λ k. k.merchant_id < db.next_id) db.api_keys
  pub keys_distinct : DistinctKeys db.api_keys

pub str_eq-sym : (s t : String) → str_eq s t ≡ str_eq t s
str_eq-sym s t = elim (Bool-cases (str_eq s t)) [
  | inl e ↦ let same_text : s ≡ t = (str_eq_iff s t).0 e in rw same_text refl
  | inr e ↦ elim (Bool-cases (str_eq t s)) [
    | inl f ↦ let same_text : t ≡ s = (str_eq_iff t s).0 f in rw same_text refl
    | inr f ↦ ground (arith, e, f)
  ]
]

module _ {A : Type 0} where
  pub all-find :
      (P : A → Type 0) (p : A → Bool) (xs : List A) (r : A) → All P xs → find p xs ≡ some r → P r
  unfolding find
  all-find P p [] r a e = cc
  all-find P p (x ∷ xs) r a e = elim (Bool-cases (p x)) [
    | inl h ↦ let own : r ≡ x = ground (arith, h, e) in rw own a.0
    | inr h ↦ all-find P p xs r a.1 (ground (arith, h, e))
  ]

  pub find-none-All : (p : A → Bool) (xs : List A) → find p xs ≡ none → All (λ x. p x ≡ false) xs
  unfolding find
  find-none-All p [] e = tt
  find-none-All p (x ∷ xs) e = (ground arith, find-none-All p xs (ground arith))

abbrev pub set_hash : String → MerchantApiKey → MerchantApiKey
set_hash h k = record k { hashed_api_key = h }

-- A lookup by another hash, after the key of a merchant was changed.
module _ (id : ℕ) (new h : String) (other : str_eq new h ≡ false) where
  none_left :
      (ks : List MerchantApiKey)
      → All (λ y. has_hash h y ≡ false) ks
      → find (has_hash h) (update (of_merchant id) (set_hash new) ks) ≡ none
  unfolding find update
  none_left [] a = refl
  none_left (k ∷ ks) a = ground (arith, other, a.0, none_left ks a.1)

  hashes-Apart :
      (x : MerchantApiKey) (ks : List MerchantApiKey)
      → has_hash h x ≡ true
      → All (Apart x) ks
      → All (λ y. has_hash h y ≡ false) ks
  hashes-Apart x [] e a = tt
  hashes-Apart x (k ∷ ks) e a =
      let own : x.hashed_api_key ≡ h = (str_eq_iff x.hashed_api_key h).0 e in
      (subst (λ t. has_hash t k ≡ false) own a.0.1, hashes-Apart x ks e a.1)

  pub find-replaced :
      (ks : List MerchantApiKey)
      → DistinctKeys ks
      → find (has_hash h) (update (of_merchant id) (set_hash new) ks)
        ≡ (elim (find (has_hash h) ks) [
          | none ↦ none
          | some r ↦ if of_merchant id r then none else some r
        ])
  unfolding find update
  find-replaced [] d = refl
  find-replaced (k ∷ ks) d = elim (Bool-cases (has_hash h k)) [
    | inl e ↦ ground (arith, e, other, none_left ks (hashes-Apart k ks e d.0))
    | inr e ↦ ground (arith, e, other, find-replaced ks d.1)
  ]

-- A lookup by the new hash, which no other merchant's key has.
pub find-new :
    (id : ℕ) (new : String) (ks : List MerchantApiKey) (r : MerchantApiKey)
    → find (of_merchant id) ks ≡ some r
    → find (λ x. has_hash new x && not (of_merchant id x)) ks ≡ none
    → find (has_hash new) (update (of_merchant id) (set_hash new) ks) ≡ some (set_hash new r)
unfolding find update
find-new id new [] r e free = cc
find-new id new (k ∷ ks) r e free =
    let own : str_eq new new ≡ true = (str_eq_iff new new).1 refl in
    ground (arith, own, e, free, find-new id new ks r)
