-- ===== src/Webhooks/Hooks.antt =====
-- Sequences of what changes endpoints or adds deliveries.
use achflow.Prelude.{ℕ, String, Bool, ◌≡◌, sym, subst, Option}
use achflow.Schema.{Db, OutboxEvent, MerchantWebhookEndpoint, ok}
use achflow.Webhooks.Materializer.{materialize}
use achflow.Webhooks.Endpoints.{
  Url, UpdateWebhookEndpointDto, Removal, remove, create, update_owned,
}
use achflow.Webhooks.References.{
  Referenced, create-Referenced, update-Referenced, remove-Referenced,
}
use achflow.Webhooks.Delivering.{materialize-Referenced}

-- What changes endpoints or adds deliveries, each run whole.
pub data HookStep (parse : String → Option Url) (production : Bool) (db db' : Db) : Type 0 where
  creates :
      (merchant : ℕ) (url : String) (e : MerchantWebhookEndpoint)
      → create parse production merchant url db ≡ ok (e, db')
      → HookStep parse production db db'
  updates :
      (id merchant : ℕ) (dto : UpdateWebhookEndpointDto) (e : MerchantWebhookEndpoint)
      → update_owned parse production id merchant dto db ≡ ok (e, db')
      → HookStep parse production db db'
  removes :
      (id merchant : ℕ) (a : Removal)
      → remove id merchant db ≡ ok (a, db')
      → HookStep parse production db db'
  materializes :
      (event : OutboxEvent) → db' ≡ (materialize event db).1 → HookStep parse production db db'

pub data HookSteps (parse : String → Option Url) (production : Bool) (db : Db) : Db → Type 0 where
  unhooked : HookSteps parse production db db
  hooked :
      {db1 db2 : Db}
      → HookSteps parse production db db1
      → HookStep parse production db1 db2
      → HookSteps parse production db db2

step-Referenced :
    {parse : String → Option Url} {production : Bool} {db db' : Db}
    → Referenced db
    → HookStep parse production db db'
    → Referenced db'
step-Referenced {parse} {production} {db} {db'} r (creates merchant url e h) =
    create-Referenced parse production db db' e merchant url r h
step-Referenced {parse} {production} {db} {db'} r (updates id merchant dto e h) =
    update-Referenced parse production db db' e id merchant dto r h
step-Referenced {parse} {production} {db} {db'} r (removes id merchant a h) =
    remove-Referenced id merchant db db' a r h
step-Referenced {parse} {production} {db} {db'} r (materializes event e) =
    subst Referenced (sym e) (materialize-Referenced event db r)

-- Over any sequence of creations, updates and removals of endpoints by merchants, and of
-- materializations by the worker, every delivery keeps its endpoint in the table.
pub hooks-Referenced :
    {parse : String → Option Url} {production : Bool} {db db' : Db}
    → Referenced db
    → HookSteps parse production db db'
    → Referenced db'
hooks-Referenced r unhooked = r
hooks-Referenced r (hooked before s) = step-Referenced (hooks-Referenced r before) s
