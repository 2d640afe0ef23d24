-- ===== src/Lib.antt =====
-- Payments boilerplate: an API that sells products through a payment provider, and a worker that
-- applies the provider's webhooks. The API stores an order, opens a checkout, and stores each
-- webhook in an inbox together with a message in an outbox; a relay publishes the messages; a
-- consumer takes them one at a time, locks the payment's rows, decides what the event means for
-- them, and writes. This development models the creation of orders, the checkout, the receiver of
-- webhooks, the relay, the consumer with its queue, and the rules they apply, which is the part
-- that moves money's state. It models what stands around them too: the handlers and the gates of
-- the HTTP API, the adapter of the provider, the publisher, and the settings that a process starts
-- with.
--
-- Which file models what (paths from the repository's root):
--
--   Base and below: Boolean tests on native numbers and strings, lists, results with an error,
--     int64, and Go's `strings.TrimSpace` and `strings.EqualFold` on ASCII.
--   Ids (id.go of internal/domain/orders, payments and webhooks): the identifiers, from their
--     random bytes.
--   Payments (internal/domain/payments): Status has the states of payment.go, Entity its payments,
--     attempts and sessions (`New`, `AttachSession`, `HasSession`), Transition the whole matrix of
--     transition.go (`Decide` is `decide`), Matrix the laws of the matrix over histories of events.
--   Orders (internal/domain/orders/order.go): products, quantities, exact prices, `New`,
--     `MarkPaid`; Orders.Pricing has the laws.
--   Webhooks (internal/domain/webhooks/event.go): inbox events and outbox messages.
--   Sanitize (internal/platform/errsanitize): the bound on a stored text.
--   Receiver.Inbox and Receiver.Service (internal/adapters/postgres/repositories/webhooks.go with
--     the statements of db/queries/webhooks.sql, and internal/application/webhooks/service.go):
--     `StoreIgnored`, `StorePending` and `Receive` over the inbox and the outbox; Receiver.Replay
--     (internal/application/webhooks/operations.go,
--     internal/adapters/postgres/repositories/operations.go and db/queries/operations.sql): the
--     replay of failed work, `Reprocess`. Receiver.Listing has the tests of `List`. Paired,
--     Preserved, Once, Duplicate, Replayed, Reset and Histories have the laws.
--   Ordering.Models, Ordering.Catalog and Ordering.Service
--     (internal/adapters/postgres/models/order.go, internal/adapters/catalog,
--     internal/application/orders/service.go with
--     internal/adapters/postgres/repositories/orders.go): a row of an order, the fixed catalogue,
--     `CreateOrGet`, `Create` and `Get`; Replayed has the laws.
--   Checkout.Models, Checkout.Tables and Checkout.Store
--     (internal/adapters/postgres/models/payment.go, db/migrations/00002_payments.sql and
--     internal/adapters/postgres/repositories/payments.go): the rows of attempts, the tables with
--     their unique indexes, `PrepareCheckout` and `SaveSession`. Checkout.Service
--     (internal/application/payments/service.go): `CreateCheckout`. Rows, Claimed, Reserved,
--     Prepared, Counts, Single, Saved, Replayed, Repeated and Idempotent have the laws.
--   Broker.Retry and Broker.Delivery (internal/adapters/rabbitmq/retry.go, consumer.go and
--     testhooks.go): `TierFor`, and one delivery from `handle` to its acknowledgement; Broker.Plan
--     is the plan that it is held against, Kept and Applied have the laws. Broker.Publisher
--     (publisher.go) is one publication, with the laws in Routed and, under the relay, in Relayed;
--     Broker.Deadline (connection.go) has the deadlines of the socket, with the laws in Capped.
--   Consumer.Ports and Consumer.Service (internal/application/consumer): `Handle`, `classify`,
--     `transitions`; Consumer.Deciding has the two callbacks that `Handle` gives to the repository
--     and `decideEffect`.
--   Consumer.Store and Consumer.Process (internal/adapters/postgres/repositories/events.go and the
--     statements of db/queries/consumer.sql): `Process` and `RecordFailure` over tables.
--   Consumer.Consistency, Locked, Preservation, Safety, Settled, Approved, Paying, Matched,
--     Redelivery and Budget: what the two together guarantee over any history of deliveries.
--   Outbox.Backoff, Outbox.Store and Outbox.Relay (internal/application/outbox,
--     internal/adapters/postgres/repositories/outbox.go and the statements of
--     db/queries/outbox.sql): the lease of a batch, the settlement of each message, and the cycle
--     `runOnce`; Fenced, Confirmed, Cycle and Reported have the laws.
--   RateLimit.Bucket and RateLimit.Limiter (internal/platform/ratelimit); Rate, Kept, Bounds and
--     Keys have the laws.
--   Auth (internal/platform/auth/apikey.go): the configured API keys; Auth.Configured has the laws.
--   Http.Responses, Orders, Checkouts, Webhooks and Operations
--     (internal/transport/http/handlers.go, errors.go and the error handlers of server.go): each
--     operation, over its use case and the tables behind it, with its status and its code; Stored,
--     Ordered and Asked have the laws. Http.Address (clientip.go): the address that a request is
--     counted under, with the laws in Genuine. Http.Limits (ratelimit.go and auth.go): the gates in
--     front of an operation, with the laws in Guarded and Keyed.
--   Stripe.Session, Webhook and Checkout (internal/adapters/payments/stripe): what a stored event
--     means, the check of a signature, and the opening of a session; Paid has the laws under the
--     consumer, Metadata those of the identifiers.
--   Config and Config.Proxies (internal/platform/config/config.go): `Load` and its tests.
--     Config.Rates (internal/runtime/api/api.go) and Config.Ladder
--     (internal/runtime/worker/worker.go) are what the processes make of the settings; Startup and
--     Leased have further laws.
--
-- A transaction is a function from the database to an answer and a database: what it wrote, or what
-- was there before where it rolls back. Every fault of the database is an argument (Faults):
-- beginning, each statement, and the commit, which can be refused or go through and lose its
-- answer. A delivery locks its rows, so deliveries of one payment are a sequence of transactions,
-- and the theorems quantify over every sequence of them. The provider's reading of an event (the
-- interpreter) and the hooks of the tests are parameters of any behaviour, and so are the broker's
-- answers, the random draws, the generated identifiers and the clock's readings. The receiver's
-- tables have an index as a function of its columns; the checkout's are lists of rows, on which an
-- insertion looks for a row that clashes. What other transactions write while a checkout is
-- reserved, and while its provider is asked, is an argument of any behaviour.
--
-- No loop of the modelled code needs fuel but the limiter's eviction, which has as many turns as
-- there are entries.
--
-- Not modelled: the wording of messages and errors (an error is the list of the identities that
-- `errors.Is` finds), columns that nothing reads back (`updated_at`, `processed_at`), texts that
-- are not UTF-8, case folding beyond ASCII, the redaction patterns, the rounding of floats in the
-- token bucket (tokens are exact credits, so that a wait which the code announces too short by a
-- rounding is not seen here), the precision of times in the tables but that of orders (a column
-- keeps microseconds), and counters that would need billions of events to wrap. Not modelled
-- either: the pool of workers, reconnection and topology of the broker, the order and the filter of
-- the list of events, the observers of the orders, the checkout and the receiver, durations and
-- timeouts, GetHealth, the correlation ids, headers, logs and shutdown of the HTTP server, and the
-- reading of the environment. The provider's library, net/netip, encoding/json, HMAC and the env
-- library are parameters. Metrics, telemetry and wiring are I/O or glue.
pub mod Base
pub mod Ids
pub mod Payments
pub mod Orders
pub mod Webhooks
pub mod Sanitize
pub mod Receiver
pub mod Ordering
pub mod Checkout
pub mod Consumer
pub mod Outbox
pub mod Broker
pub mod RateLimit
pub mod Auth
pub mod Http
pub mod Stripe
pub mod Config
