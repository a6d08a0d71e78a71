-- ===== src/Lib.antt =====
-- A model of the copy-trading core and of the billing of the SignalSync backend, and the theorems
-- about it.
--
-- The program reads trading signals from Telegram, decides which conversation each belongs to,
-- checks it against the rules of a route, turns it into trade intents, and executes these on a
-- broker account; Redis streams carry the work between the processes. Subscriptions, which a payment
-- provider keeps in step by events, decide who may do so, and paid invoices earn the user who
-- referred the payer a commission. The code stands in src/app/domains/copy_trading, billing,
-- affiliates and ai.
--
-- - Engine (engine.py): `validate_signal`, the decision whether a signal may be traded.
-- - Assembly (assembly.py): `choose_conversation`, which conversation a message continues.
-- - Generations (generations.py, assembly.py): how a later message is merged into a signal.
-- - Legs (engine.py, execution.py): the take-profit legs of a signal and the volume it trades.
-- - Risk (execution.py): the limits of an account.
-- - Symbols (symbols.py): broker symbols and the volumes they allow.
-- - Quality (quality.py): trading hours, quote, spread and slippage before an order.
-- - Execution (metaapi_execution.py): `execution_handler` and `reconcile_intent` over one intent, with
--   the broker symbol and the copied trades it chooses from;
--   they call the checks of Risk, Quality and Symbols as the code does.
-- - Reconciliation (reconciliation.py): the state of copied trades against the broker's.
-- - Delivery (delivery.py): results of handlers, and the executor that serializes jobs by key.
-- - Worker (worker_runtime.py, StreamWorker): attempts, acknowledgements and dead letters, where each
--   call of Redis and of the database may fail and the mark of an event may expire.
-- - Lease (worker_runtime.py, TelegramSessionRuntime): the ownership lease of the Telegram runtime.
-- - Health (health.py): worker health and launch readiness.
-- - Signals (workers.py, generations.py): the copied trades a management signal is for, and the life
--   of a route's assembly.
-- - Connections (metaapi_connections.py, MetaApiConnectionManager): the connection of an account, by
--   events that interleave as coroutines do at their awaits.
-- - Billing (billing/entitlements.py, catalog.py, models.py, service.py): who has access, and the
--   product of each plan.
-- - Webhooks (billing/service.py, repository.py): the events of the payment provider, over a
--   database with the subscriptions, the claimed events and the tables of Affiliates.
-- - Checkout (billing/service.py, checkout_guard.py): checkouts, changes of plan and cancellations.
-- - Affiliates (affiliates/service.py, repository.py, models.py): profiles, referrals and commissions.
-- - Quota (ai/quota.py, ai/repository.py): the monthly credits of the AI assistant, in the database and
--   in Redis.
-- - Streaks (ai/tools/streaks_drawdown.py): winning and losing streaks, by the signs of the profits.
-- - Base: shared notation, lists, integers, text and results of Python calls.
--
-- A record stands for a class, a data type for an enumeration, and a function of the same name for
-- a function of the code; a leading underscore is dropped. Code that changes an object returns the
-- changed record. An exception is the value `raised`. What Redis, the database, the broker and the
-- handlers answer is data of the model, and the theorems hold for all of it. Threads are steps of a
-- relation, so theorems about what is reachable hold for every interleaving. The executor's proofs
-- of progress give the run that finishes, so nothing runs on fuel; all functions are total.
--
-- Decimals, prices, lots and times are whole numbers of a common small unit, so sums and
-- comparisons are exact; the division of the decimal context is a parameter of the functions that
-- divide. Texts that are taken apart are ASCII. In `validate_signal` a decimal may also be infinite
-- or not a number.
--
-- Money of Affiliates is in cents, a rate in hundredths of a percent. The fields of an event are JSON
-- values; what the code uses of Python's library on them (`str`, `datetime.fromisoformat`,
-- `uuid.UUID`, decimals) is a parameter, as is the decoding of the catalog's setting. A query that
-- returns an object gives its row between the other rows, and a change of the object changes that
-- row. A commit keeps the changed tables, a rollback the ones before. Concurrent transactions of the
-- webhook are not modelled: the unique index on the event id, on which `claim_webhook_event` waits,
-- orders deliveries of one event.
--
-- The quota's month is that of one call; a month that ends between two reads of the clock is not
-- modelled. Credits are not negative.
--
-- Not modelled: HTTP routes, database queries, the parser of free text, the Telegram and MetaApi
-- clients, notifications, telemetry, and the other domains of the backend (journal, accounts, users
-- and so on). Of affiliates, the operators' pages and the balances shown are left out.
pub mod Base
pub mod Engine
pub mod Legs
pub mod Symbols
pub mod Risk
pub mod Quality
pub mod Assembly
pub mod Execution
pub mod Reconciliation
pub mod Delivery
pub mod Worker
pub mod Lease
pub mod Health
pub mod Generations
pub mod Billing
pub mod Affiliates
pub mod Webhooks
pub mod Checkout
pub mod Connections
pub mod Signals
pub mod Streaks
pub mod Quota
