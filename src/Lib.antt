-- ===== src/Lib.antt =====
-- Verification library of hook-tracker, a webhook gateway: a project publishes an event, each
-- subscribed endpoint gets a delivery, and a worker posts it, retries it and records every attempt.
--
-- The parts and how they meet. The API saves an event with its deliveries and sends one message for
-- each to RabbitMQ. A worker consumes a message, takes a token of the endpoint's bucket, marks the
-- row IN_FLIGHT, checks the address of the target, signs the body, posts it, and commits the
-- outcome: it succeeded, or a message goes to a delay queue of the retry ladder, or it failed for
-- good. The queues of the broker dead-letter a delayed message back to the workers. A sweeper
-- returns rows that were left IN_FLIGHT. Postgres holds the rows, Redis the buckets.
--
-- Which file models what; backend/src is left out of a path where it is clear:
--   Prelude          shared names, tests on numbers, lists, texts as code points
--   Retry            shared/retry.js: RETRY_SCHEDULE, classifyFailure, selectRetryLevel
--   Status           shared/delivery-status.js: the states as enums and the sets of them as tests
--   Store            backend/prisma/schema.prisma: Delivery, Endpoint, WebhookEvent,
--                    DeliveryAttempt, as tables of rows under their ids
--   World            the shared state, its calls and their failures, shared/realtime.js; Runs and
--                    Posts reason about any program of such calls
--   TokenBucket      shared/token-bucket.js: the script TAKE_TOKEN and `take`
--   Publisher        shared/queue/publisher.js: publishDelivery, publishRetry, publishThrottle,
--                    publishDeadLetter
--   Exchange         the collaborators of the worker (Env) and the reading of an answer
--   Worker           worker/handle-delivery.js: handleDelivery, finaliseSuccess, finaliseRetry,
--                    finaliseFailure and what they call, branch by branch
--   Carried          the specification of a delivery that is not lost
--   Consumer         worker/worker.js: acknowledge, or requeue once
--   Sweeper          jobs/stuck-sweeper.js: claim, release, recover, runStuckSweep
--   EventTypes       shared/event-types.js: isValidEventType, subscriptionMatches
--   Publishing       api/services/publish-service.js: publishEvent
--   Authorization    api/authorization.js: membershipFor, assertMembership
--   Replay           api/services/delivery-service.js: replay, bulkReplay
--   Address, Target  shared/ssrf.js: ipv6ToBytes, classifyAddress, resolveSafeTarget
--   Sessions         api/services/auth-service.js: register, login, refresh, logout
--   Members          api/services/project-service.js: create, addMember, removeMember
--   Signing          shared/hmac.js and activeSecrets of worker/signing.js
--   Endpoints        api/services/endpoint-service.js: every operation that changes an endpoint
--   Idempotency      api/middleware/idempotency.js: a key reserved, stored and given back
--   Pages            api/services/keyset.js: olderThan, paginate, and the lists that use them
--   Retention        jobs/retention.js: runRetention, with what the foreign keys delete
--   Topology         shared/queue/topology.js: createTopology, assertTopology; Names and Expiry say
--                    what a broker does with the declarations
--   RateLimit        api/middleware/rate-limit.js: the sliding window and its headers
--   Dashboard        dashboard/src: lib/curl.js, composables/use-sequenced-request.js and
--                    stores/deliveries.js;
--                    who refreshes the session in lib/api.js, stores/auth.js, stores/realtime.js
--   ApiKeys          api/services/api-key-service.js, api/middleware/api-key-auth.js, api/bearer.js
--   Alerts           shared/alerts.js: notify, notifyConfiguredProjects, the suppression window;
--                    Watch is jobs/alert-watch.js
--   Scheduler        jobs/schedule.js: every, tick, stop
--   Connection       shared/queue/connection.js: connectWithRetry
--   HttpClient       shared/http-client.js: sendWebhook, readSnippet, classifyTransportError
--   Problems         shared/errors.js, api/middleware/error-handler.js
--   Json             shared/json.js: canonicalJson
--   Lifecycle        shared/lifecycle.js: onShutdown
--   Realtime         api/realtime/socket.js: createThrottle, the handler of pmessage
--   System           the processes side by side, as a step relation on the shared state
--   Examples         tests of the model, and each theorem applied at a concrete state
--
-- State and failures. A World is the tables, the messages with the places where they wait, the
-- buckets, and the logs of what was emitted and alerted. A program is a function from a World to
-- one in which it returned or threw. Each call to Postgres, Redis or RabbitMQ takes the next entry
-- of the list `faults`: `true`, and it throws and changes nothing. A list is finite and any list
-- is allowed, so a theorem about every World is about every choice of failing calls, a crash
-- between two calls among them. A transaction is one call. Sessions, Members and Idempotency are over
-- tables of their own and leave failing calls out; there an operation that reads and then writes is two
-- steps, so that other requests may come between. System runs a handler as one step: what two
-- workers do to one row between two calls of each other is not modelled.
--
-- Bounds. Numbers are natural numbers: times are milliseconds since the epoch, and a subtraction
-- below 0, as for a clock that goes back, is written out where the code makes one. Tokens are
-- counted in sixty-thousandths, which makes the refill exact; the code uses floating point.
-- Retry-After is in thousandths of a second. Every recursion of the model is on a list or
-- a number that the code counts, so nothing needs fuel; a walk along cursors counts its requests,
-- and as many as there are rows are enough. Ids are numbers, since the code only compares them.
--
-- What is an argument: the URL parser, isIP and the resolver; the HTTP client; the HMAC, hashes,
-- encryption and random values; the reading of a Retry-After as a number or a date. What the code
-- relies on is a hypothesis of the theorem, as that a signature has no comma and no blank.
--
-- Not modelled: routes, schemas and the other middleware of Express, metrics,
-- the handshake and the rooms of the socket, configuration, logging and the views of the
-- dashboard, which hold little of the delivery logic; start-up; views that only read.
mod Prelude
pub mod Retry
pub mod Status
pub mod Store
pub mod World
pub mod TokenBucket
pub mod Publisher
pub mod Exchange
pub mod Carried
pub mod Worker
pub mod Consumer
pub mod Sweeper
pub mod EventTypes
pub mod Publishing
pub mod Authorization
pub mod Replay
pub mod Address
pub mod Target
pub mod Sessions
pub mod Signing
pub mod Endpoints
pub mod System
pub mod Lifecycle
pub mod Members
pub mod Retention
pub mod Pages
pub mod Idempotency
pub mod Topology
pub mod RateLimit
pub mod Realtime
pub mod Dashboard
pub mod ApiKeys
pub mod Connection
pub mod Scheduler
pub mod Alerts
pub mod HttpClient
pub mod Problems
pub mod Json
mod Examples
