-- ===== src/Tests/Keys.antt =====
-- Instances of the theorems on merchants and their keys.
use achflow.Prelude.{
  ◌≡◌, refl, String, none, some, true, ◌==◌, [], ◌∷◌, find, update, arith, if◌then◌else◌,
}
use Prim.Native.String.{◌++◌}
use achflow.Schema.{Db, MerchantApiKey, ok, err, unauthorized, invalid_api_key}
use achflow.Merchants.Authentication.{authenticate}
use achflow.Merchants.Administration.{
  CreateMerchantDto, merchant_row, create, create_with_key, create_merchant_row, create_api_key,
  rotate, update_api_key,
}
use achflow.Merchants.Keyed.{WellKeyed}
use achflow.Merchants.Rotation.{rotate_replaces}
use achflow.Merchants.Creation.{create_authenticates}
use achflow.Merchants.Upkeep.{untouched, administered, creates, administration-WellKeyed}
use achflow.Tests.Sample.{store, left, merchant}

-- A hash of keys.
abbrev hash : String → String
hash key = "hash of " ++ key

abbrev key : MerchantApiKey
key = record { id = 60; merchant_id = 1; hashed_api_key = "hash of old" }

abbrev keyed_store : Db
keyed_store = record store { api_keys = key ∷ [] }

keyed_store-WellKeyed : WellKeyed keyed_store
keyed_store-WellKeyed = omega arith

abbrev after_rotation : Db
after_rotation = record keyed_store {
  api_keys = record { id = 60; merchant_id = 1; hashed_api_key = "hash of new" } ∷ [];
}

-- The key before the rotation.
rotate_replaces_example :
    authenticate hash "old" after_rotation ≡ (elim (authenticate hash "old" keyed_store) [
      | ok (other, d) ↦
          if other.id == 1 then err (unauthorized invalid_api_key) else ok (other, after_rotation)
      | err e ↦ err e
    ])
unfolding rotate update_api_key find update
rotate_replaces_example =
    rotate_replaces hash 1 "new" "old" keyed_store after_rotation
      (record { id = 60; merchant_id = 1; hashed_api_key = "hash of new" }) merchant
      keyed_store-WellKeyed refl refl

abbrev dto : CreateMerchantDto
dto = record {
  merchant_code = "globex";
  legal_name = "Globex Corporation";
  display_name = "Globex";
  per_payment_limit = some 0;
  daily_amount_limit = none;
  allow_ach_debit = none;
  allow_ach_credit = some true;
  status = none;
}

abbrev after_creation : Db
after_creation = left (create hash dto "fresh") keyed_store

create_authenticates_example :
    authenticate hash "fresh" after_creation ≡ ok (merchant_row dto 100, after_creation)
unfolding create create_with_key create_merchant_row create_api_key find
create_authenticates_example =
    create_authenticates hash dto "fresh" "fresh" keyed_store after_creation (merchant_row dto 100)
      keyed_store-WellKeyed refl

administration-WellKeyed_example : WellKeyed after_creation
unfolding create create_with_key create_merchant_row create_api_key find
administration-WellKeyed_example =
    administration-WellKeyed hash keyed_store after_creation keyed_store-WellKeyed
      (administered untouched (creates dto "fresh" (merchant_row dto 100) refl))
