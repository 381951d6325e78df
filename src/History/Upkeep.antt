-- ===== src/History/Upkeep.antt =====
-- Calls that write no payment and no reservation: those of the worker's outbox/outbox.repository.ts,
-- and of the API enqueueTest of webhooks/merchant-webhook-endpoints.service.ts, provisionDemoFunding
-- of admin/admin-simulator.service.ts, and create, rotate and updateStatus of
-- admin/admin-merchants.service.ts.
use achflow.Prelude.{ℕ, String, ◌≡◌, List, arith}
use achflow.Prelude.Int.{ℤ}
use achflow.Schema.{
  Db, Merchant, MerchantApiKey, MerchantStatus, OutboxEvent, FundingAccount, ok, update_events,
  create_entry, create_event, WebhookDelivery, MerchantWebhookEndpoint,
}
use achflow.Schema.Keeping.{Kept, Keeps, keeping, same_rows, grow}
use achflow.Outbox.Repository.{
  claim_pending, recover_expired_claims, update_claimed_event, mark_processed, mark_failed,
}
use achflow.Outbox.Attempts.{claim-Keeps, recover-Keeps, processed-Keeps, failed-Keeps}
use achflow.Simulator.Funding.{Provisioned, create_account, fund, provision_demo_funding}
use achflow.Webhooks.Endpoints.{scoped_endpoint}
use achflow.Webhooks.Testing.{create_test_delivery, enqueue_test}
use achflow.Merchants.Administration.{
  CreateMerchantDto, create_merchant_row, create_api_key, update_api_key, create_with_key, create,
  rotate, update_status,
}

-- A claim, a recovery or a mark of outbox events by the worker, a test of an endpoint by its merchant,
-- or a demo funding, a creation, a rotation of the key or a change of the status of a merchant by an
-- administrator.
pub data Upkeep (db db' : Db) : Type 0 where
  outbox_claims :
      (batch_size : ℕ) (events : List OutboxEvent)
      → claim_pending batch_size db ≡ ok (events, db')
      → Upkeep db db'
  outbox_recovers :
      (max_attempts lease n : ℕ)
      → recover_expired_claims max_attempts lease db ≡ ok (n, db')
      → Upkeep db db'
  outbox_completes : (id n : ℕ) → mark_processed id db ≡ ok (n, db') → Upkeep db db'
  outbox_fails :
      (event : OutboxEvent) (max_attempts : ℕ) (error : String) (n : ℕ)
      → mark_failed event max_attempts error db ≡ ok (n, db')
      → Upkeep db db'
  api_tests :
      (id merchant : ℕ) (d : WebhookDelivery)
      → enqueue_test id merchant db ≡ ok (d, db')
      → Upkeep db db'
  admin_funds :
      (merchant : ℕ) (currency : String) (amount : ℤ) (x : Provisioned)
      → provision_demo_funding merchant currency amount db ≡ ok (x, db')
      → Upkeep db db'
  admin_creates :
      (hash_api_key : String → String) (dto : CreateMerchantDto) (api_key : String) (m : Merchant)
      → create hash_api_key dto api_key db ≡ ok (m, db')
      → Upkeep db db'
  admin_rotates :
      (hash_api_key : String → String) (id : ℕ) (api_key : String) (k : MerchantApiKey)
      → rotate hash_api_key id api_key db ≡ ok (k, db')
      → Upkeep db db'
  admin_updates :
      (id : ℕ) (status : MerchantStatus) (m : Merchant)
      → update_status id status db ≡ ok (m, db')
      → Upkeep db db'

create_account-Keeps : (merchant : ℕ) (currency : String) → Keeps (create_account merchant currency)
unfolding create_account
create_account-Keeps merchant currency = record {
  apply =
      λ db db' b h. same_rows db db' (λ w. ground (arith, grow db w)) (ground arith) (ground arith);
}

fund-Keeps :
    (merchant : ℕ) (currency : String) (amount : ℤ) (account : FundingAccount)
    → Keeps (fund merchant currency amount account)
unfolding fund
fund-Keeps merchant currency amount account = search keeping depth 12

funding-Keeps :
    (merchant : ℕ) (currency : String) (amount : ℤ)
    → Keeps (provision_demo_funding merchant currency amount)
unfolding provision_demo_funding
funding-Keeps merchant currency amount = search (keeping, create_account-Keeps, fund-Keeps) depth 14

test_delivery-Keeps :
    (merchant : ℕ) (endpoint : MerchantWebhookEndpoint) (outbox : OutboxEvent) (now : ℕ)
    → Keeps (create_test_delivery merchant endpoint outbox now)
unfolding create_test_delivery
test_delivery-Keeps merchant endpoint outbox now = record {
  apply =
      λ db db' b h. same_rows db db' (λ w. ground (arith, grow db w)) (ground arith) (ground arith);
}

enqueue_test-Keeps : (id merchant : ℕ) → Keeps (enqueue_test id merchant)
unfolding enqueue_test scoped_endpoint
enqueue_test-Keeps id merchant = search (keeping, test_delivery-Keeps) depth 14

merchant_row-Keeps : (dto : CreateMerchantDto) → Keeps (create_merchant_row dto)
unfolding create_merchant_row
merchant_row-Keeps dto = record {
  apply =
      λ db db' b h. same_rows db db' (λ w. ground (arith, grow db w)) (ground arith) (ground arith);
}

create_key-Keeps : (merchant : ℕ) (hashed : String) → Keeps (create_api_key merchant hashed)
unfolding create_api_key
create_key-Keeps merchant hashed = record {
  apply =
      λ db db' b h. same_rows db db' (λ w. ground (arith, grow db w)) (ground arith) (ground arith);
}

update_key-Keeps : (merchant : ℕ) (hashed : String) → Keeps (update_api_key merchant hashed)
unfolding update_api_key
update_key-Keeps merchant hashed = record {
  apply = λ db db' b h. same_rows db db' (λ w. ground arith) (ground arith) (ground arith);
}

update_status-Keeps : (id : ℕ) (status : MerchantStatus) → Keeps (update_status id status)
unfolding update_status
update_status-Keeps id status = record {
  apply = λ db db' b h. same_rows db db' (λ w. ground arith) (ground arith) (ground arith);
}

module _ (hash_api_key : String → String) where
  rotate-Keeps : (id : ℕ) (api_key : String) → Keeps (rotate hash_api_key id api_key)
  unfolding rotate
  rotate-Keeps id api_key = search (keeping, update_key-Keeps) depth 10

  create_with_key-Keeps :
      (dto : CreateMerchantDto) (api_key : String)
      → Keeps (create_with_key hash_api_key dto api_key)
  unfolding create_with_key
  create_with_key-Keeps dto api_key =
      search (keeping, merchant_row-Keeps, create_key-Keeps) depth 10

  create_merchant-Keeps :
      (dto : CreateMerchantDto) (api_key : String) → Keeps (create hash_api_key dto api_key)
  unfolding create
  create_merchant-Keeps dto api_key = record {
    apply = λ db db' b h. (create_with_key-Keeps dto api_key).apply db db' b (ground (arith, h));
  }

pub Upkeep-Kept : {db db' : Db} → Upkeep db db' → Kept db db'
Upkeep-Kept {db} {db'} (outbox_claims n events e) = (claim-Keeps n).apply db db' events e
Upkeep-Kept {db} {db'} (outbox_recovers max lease n e) = (recover-Keeps max lease).apply db db' n e
Upkeep-Kept {db} {db'} (outbox_completes id n e) = (processed-Keeps id).apply db db' n e
Upkeep-Kept {db} {db'} (outbox_fails event max error n e) =
    (failed-Keeps event max error).apply db db' n e
Upkeep-Kept {db} {db'} (api_tests id merchant d e) =
    (enqueue_test-Keeps id merchant).apply db db' d e
Upkeep-Kept {db} {db'} (admin_funds merchant currency amount x e) =
    (funding-Keeps merchant currency amount).apply db db' x e
Upkeep-Kept {db} {db'} (admin_creates hash dto key m e) =
    (create_merchant-Keeps hash dto key).apply db db' m e
Upkeep-Kept {db} {db'} (admin_rotates hash id key k e) = (rotate-Keeps hash id key).apply db db' k e
Upkeep-Kept {db} {db'} (admin_updates id status m e) =
    (update_status-Keeps id status).apply db db' m e

-- None of these writes a payment or a reservation.
pub leaves_payments :
    {db db' : Db}
    → Upkeep db db'
    → (db'.payments ≡ db.payments) × (db'.reservations ≡ db.reservations)
unfolding claim_pending recover_expired_claims mark_processed mark_failed update_claimed_event
    update_events enqueue_test scoped_endpoint create_test_delivery create_event
    provision_demo_funding create_account fund create_entry create create_with_key
    create_merchant_row create_api_key rotate update_api_key update_status
leaves_payments (outbox_claims n events e) = (ground arith, ground arith)
leaves_payments (outbox_recovers max lease n e) = (ground arith, ground arith)
leaves_payments (outbox_completes id n e) = (ground arith, ground arith)
leaves_payments (outbox_fails event max error n e) = (ground arith, ground arith)
leaves_payments (api_tests id merchant d e) = (ground arith, ground arith)
leaves_payments (admin_funds merchant currency amount x e) = (ground arith, ground arith)
leaves_payments (admin_creates hash dto key m e) = (ground arith, ground arith)
leaves_payments (admin_rotates hash id key k e) = (ground arith, ground arith)
leaves_payments (admin_updates id status m e) = (ground arith, ground arith)
