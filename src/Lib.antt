-- ===== src/Lib.antt =====
-- VibeOCPP, a management backend for charging stations that run against a CitrineOS server.
--
-- The program is a NestJS backend (backend/src), a React frontend (frontend/src) and an agent for
-- Docker (ops-agent/src). This library models parts of all three. Asynchronous methods are
-- state transformers with a result: `Action S A` of Prelude/Effects, where a thrown HTTP exception
-- is a value and what was written before it stays written; Prelude/Post has the rules for their
-- postconditions, Prelude/Order is on ordered lists. JSON, texts and lists are in Prelude.
--
-- The database. Every Prisma table is a parameter `Table` of Database.antt with the queries that
-- the code uses, and `TableLaws` is what Prisma documents of them; Database/Shelf is a table that
-- runs. A query does not throw because the database is down, and new ids, the clock and random
-- bytes are arguments. The orders by name, email or last sight of the answered lists are left out.
-- Numbers are natural, instants are milliseconds, and a text is measured in characters, not UTF-16 units.
--
-- Settings: backend/src/settings. Settings/Encryption is encryption.service.ts around a
-- parameter for node:crypto; Settings/Encryption/Plain shows that its laws can hold.
-- Settings/Rows has the two tables, Settings/Service the methods toView, list, getPlaintext,
-- upsert and rollback of settings.service.ts; a transaction undoes its writes on an error.
-- Modules below it are on the keys and versions (Invariant), on reading after writing
-- (Versions), on rollbacks (Rollback) and on the history (History). The message for a missing
-- version is shortened.
-- Provisioning: backend/src/locations and backend/src/unknown-chargers. Contents has the rows
-- that are written, Reconciliation is station-reconciliation.service.ts, and Services is
-- locations.service.ts and unknown-chargers.service.ts. Services/Requests has the step relation
-- of all requests and connections. The message for a taken connector is shortened.
-- Testsuite: backend/src/testsuite. Catalog is testsuite-step-catalog.ts with the step list of
-- startRun, Runs is testsuite-run.service.ts, PollUntil is poll-until.ts, Commands and Executor are
-- testsuite-step-executor.service.ts and message-log-waiter.service.ts, and Callback is
-- testsuite-callback.controller.ts. World has the interface between them: the calls of
-- CitrineOS, the configuration, the message log and the sleep may each leave another world
-- behind, since other requests are handled meanwhile, and `Follows` says what these do not do.
-- The polling loop has one unit of fuel for each millisecond of its timeout and one more, which
-- is enough since every round sleeps for a millisecond at least. A database query and what
-- follows it up to the next await is one step. Elapsed times stop at 0.
-- Payment: backend/src/payment/payment-data.service.ts and payment.types.ts. Crud has the five
-- queries on a parameter `SqlTable`, where a statement that would break a constraint of the
-- payment service's schema throws, and Crud/Sequence is a table that runs; Rows has the
-- columns and what COALESCE does to them, Service the methods, where a tenant's pool is a
-- parameter. Connection is payment-config.service.ts and payment-db.service.ts with its cache of
-- pools.
-- Users: backend/src/users/users.service.ts and backend/src/common/roles.enum.ts; the hash of a
-- password is a parameter.
-- Auth: backend/src/auth with backend/src/tenants. Types has the payloads and the libraries as a
-- parameter, Service is auth.service.ts with the login of auth.controller.ts; the unique columns
-- of the token table are checked on insertion, and a refresh is split into its checks and its
-- writes, so that two requests can be interleaved. Checks has the cases of signing in and of
-- refreshing, Spent and Sessions are on the rows of refresh tokens over any sequence of requests,
-- Outcomes on the answers.
-- Ops: ops-agent/src. Whitelist is whitelist.ts and auth.ts, Frames the reader of Docker's log
-- frames on one unit of fuel for each byte and one more (each round goes on by eight bytes at
-- least), Frames/Mux the framing itself, Docker is docker-client.ts, where dockerode is an oracle
-- over the calls made before, and Agent is handleRequest of main.ts; Agent/Permissions says which
-- calls a request may lead to. Client is backend/src/ops/ops.service.ts.
-- Access: Routes has the decorators of all controllers of backend/src as tables, Guard is
-- common/guards/roles.guard.ts and the interceptor and service of audit in the order in which a
-- request passes them, Ranks is frontend/src/lib/roles.ts beside the guard, Auditing the audit log.
-- Citrineos: backend/src/citrineos. Http is citrineos-http-client.ts over an oracle for fetch and
-- a parameter for `new URL`, which may throw, Config
-- is citrineos-config.service.ts on the settings of Settings, Api is the message and the data
-- API, Subscription is citrineos-subscription.service.ts, Log is citrineos-message-log.service.ts,
-- Webhook is citrineos-webhook.controller.ts on the settings, the log and the reconciliation of
-- Provisioning, and Csv is the export of citrineos-messages.controller.ts.
-- Frontend: Session is frontend/src/auth/auth-context.tsx with the expiry of frontend/src/lib/jwt.ts;
-- what follows an answer of the backend is a step of its own. Parameters is
-- frontend/src/lib/station-parameters.ts.
-- Tests: the theorems at concrete inputs.
--
-- Not modelled: the bodies of the other controllers, which hand the request to their service, and
-- the validation of requests; the start of the program; and of
-- the frontend all but the ranks of roles,
-- the session and the parameters of a station.
pub mod Prelude
pub mod Database
pub mod Settings
pub mod Provisioning
pub mod Testsuite
pub mod Payment
pub mod Users
pub mod Auth
pub mod Ops
pub mod Access
pub mod Citrineos
pub mod Frontend
pub mod Tests
