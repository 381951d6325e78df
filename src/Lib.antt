-- ===== src/Lib.antt =====
-- A verification library for ACHFlow, the ACH payment platform of this repository: a merchant API
-- (apps/api), a background worker (apps/worker) and a portal (apps/web) over one PostgreSQL
-- database. The library models the movement of a payment and of the money behind it, through the
-- code that commits to the database.
--
-- The parts and their files:
--   Schema: apps/api/prisma/schema.prisma. The rows are records (Schema/Rows), the enums data
--     types (Schema/Enums); a database is the record Db of tables, a clock and a supply of ids
--     (Schema/Store), and each call of the Prisma client is a function on it (Schema/Tables).
--     Schema/Ids has the lemmas on tables in the order of their ids, Schema/Keeping those on what a
--     transaction keeps.
--   Events: apps/api/prisma/payment-lifecycle-event.factory.ts.
--   Ledger: the two sums of a funding account, which the worker and the API write as raw SQL, and
--     the listing of apps/api/src/ledger/ledger.service.ts: entryImpact, in Listing the entries that
--     it lists and their running balances, in Totals its order, page and sums. Sums, Running,
--     Shown and Listed are proofs.
--   Listing: the ranges of dates and the pages of the API's listings, of ledger.service.ts,
--     payments.service.ts, nacha-files.service.ts and merchant-webhook-endpoints.service.ts.
--   Merchants: apps/api/src/auth in Authentication, apps/api/src/admin/admin-merchants.service.ts in
--     Administration and Details. Keyed, Rotation, Creation, Upkeep, Bearer and Balances are proofs.
--   RateLimit: apps/api/src/rate-limit in Service, over the commands of Redis, whose documented
--     behaviour is an interface (Redis). Window is proofs.
--   Dashboard: apps/api/src/dashboard/dashboard.service.ts in Volume; Week is proofs.
--   Files: apps/api/src/nacha-files/nacha-files.service.ts. Rendering has its copy of the text of a
--     file, Downloads the download and the row of a file. Agreement (with Nacha), Chosen, Exports, Scope and
--     Statuses are proofs.
--   Lifecycle: apps/worker/src/payments/payment-lifecycle.repository.ts. Transition has
--     findForValidation, transitionFromReceived and completeOutbox, Reserving
--     reserveDailyUsageAndTransition, Releasing, Settling and Returning the three movements of a
--     reservation and of a debit without one, BankEvents processBankSettlementEvent.
--   Validation: apps/worker/src/payments/payment-validation.service.ts.
--   Engine: apps/api/src/payments/payment-engine.service.ts, a file for each of validate, reserve,
--     settle and returnSettlement. It does in the API what Lifecycle does in the worker, on the
--     same tables.
--   Payments: apps/api/src/payments. Requests has CreatePaymentDto, the fingerprint and the mapper,
--     Creation the service's create with the repository, Access the service's operations on a
--     payment of the merchant that asks, which call Engine, Listing its listings. Adding,
--     Idempotency, Sparing, Isolation and Listed are proofs.
--   Outbox: apps/worker/src/outbox. Repository has claimPending, recoverExpiredClaims, markProcessed
--     and markFailed, Handler the dispatch on the event type, which calls Validation and Webhooks,
--     Polling processOnce over any handler. Rows, Sorting, Queue, Bounds, Attempts, Retries and Progress are
--     proofs.
--   Webhooks: apps/worker/src/webhooks. Materializer has materialize, Processor the claim of
--     deliveries and the outcome of an attempt, over the request as a parameter. Endpoints has what
--     merchants do with their endpoints, of the API's
--     apps/api/src/webhooks/merchant-webhook-endpoints.service.ts, Testing its enqueueTest. Once,
--     Outcomes, References, Delivering and Hooks are proofs.
--   Nacha: apps/worker/src/ach. Generator has which payments a file exports and what generate of
--     nacha-file-generator.service.ts commits, Text and Records the lines of the file, Batches
--     generateAll and the scheduler's processOnce. The transaction ends, as in the code, where a
--     routing number is no number. Selection, Submission, Counting, Ending, Shape, Made and Amounts
--     are proofs.
--   Simulator: apps/api/src/admin/admin-simulator.service.ts. Scenario has the configuration of a run
--     and what it makes of an index, Runs the states of a run, Funding provisionDemoFunding.
--     Percentages, Amounts, Ends and Provisioning are proofs.
--   Portal: apps/web/lib/simulator-eligibility.ts in Eligibility; Runs is proofs, against Simulator.
-- And the theorems that span parts: Agreement (worker against API), Money (balances), Limits (the
-- daily limit), Repeats (what is delivered twice), History (sequences of transactions), and Course.
-- Course/Machine is an abstract machine of a payment's status; Course/Requests has the whole calls of
-- the worker and the API, Course/Histories their sequences, and the files beside them take each call
-- to the machine. Tests has a store with a merchant and four payments, and an instance of each
-- result on stores like it.
--
-- How it is modelled. A transaction is a function Db → Result (A × Db): an exception is an error
-- that carries no database, which is the rollback. `transact` turns it into an Action, which keeps
-- the database it started from where the transaction fails; code outside a transaction is written
-- as an Action. The advisory locks are read as what they are for, transactions that run alone:
-- History takes committed transactions one after another, in any order: all those that write
-- payments, reservations, ledger entries, daily usage or outbox events, and what an administrator
-- does to merchants; what writes only endpoints, deliveries and runs of the simulator is left out.
-- Course takes the same as whole calls, so that the read by which a validation goes and its
-- transaction see the same payment: the API's transaction updates by id alone. Ids of rows and times
-- are numbers; a uuid is the next number of the supply, so that new rows have fresh ids, and Date is
-- milliseconds since the epoch. `bigint` is the unbounded ℤ, as in JavaScript. Texts built from
-- templates for keys and messages are data types with the parts that fill them, so that two keys are
-- equal where the templates and the parts are. The predicate WellFormed says that the tables of
-- payments, reservations, daily usage and events are in the order of their ids and below the supply.
--
-- Loops run over lists, but for three. generateAll takes fuel, of which one more than the number of
-- payments to export is enough; the padding of a file, in both copies, takes ten, since a block has
-- ten lines; the digits of a number take as many as the number and one.
--
-- Not modelled: logging, the HTTP layer and its DTOs, cryptography, the rows that listings
-- copy for display, timers, the portal but for the eligibility of merchants, and so far the
-- name and the digests of a NACHA file, the listings of files and of deliveries, and the loop of
-- the simulator that creates payments. toUpperCase, localeCompare, the digest of a request, the hash
-- of a key, random bytes, the parser of URLs, the digits of a day, what the database finds by a
-- search text, and Redis are parameters.
pub mod Agreement
pub mod Course
pub mod Dashboard
pub mod Engine
pub mod Events
pub mod Files
pub mod History
pub mod Ledger
pub mod Lifecycle
pub mod Limits
pub mod Listing
pub mod Merchants
pub mod Money
pub mod Nacha
pub mod Outbox
pub mod Payments
pub mod Portal
pub mod Prelude
pub mod RateLimit
pub mod Repeats
pub mod Schema
pub mod Simulator
pub mod Tests
pub mod Validation
pub mod Webhooks
