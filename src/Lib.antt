-- ===== src/Lib.antt =====
-- Verification of the social promotion backend (backend/src, TypeScript with NestJS, PostgreSQL and BullMQ).
--
-- A user writes a post for several social accounts; each account gets a publish job. The program's core is the
-- life of such a job: it is scheduled with its post (posts), handed to the queue through an outbox (dispatch),
-- claimed under a lease by a worker, published by the platform's adapter and settled (publishing). The remote
-- write may succeed although its answer is lost; docs/publish-idempotency.md describes how the worker deals with
-- that. The accounts and their encrypted tokens come from OAuth (auth).
--
-- Files:
--   Base, Result         lists as tables, texts, conditionals, ORDER BY; results of code that may throw
--   Entity               backend/src/posts/post.entity.ts
--   Retry                backend/src/publishing/publish-failure.ts, publish-retry.policy.ts
--   Store                the rows of backend/migrations, `SELECT` and `UPDATE` by a job's primary key
--   Outbox               backend/src/publishing/pg-publish-outbox.repository.ts, the job statements: a function
--                        per statement (claim_publish_job for claimPublishJob, mark_remote_requesting, ...);
--                        saveExecution is save_success and save_failure of Outbox.Save. Transition, Interleaving,
--                        Lease, Claimed, Written, Terminal, Failure and Isolation hold the theorems
--   Dispatch             its outbox statements (claimOutbox, markOutboxEnqueued, releaseOutbox) and
--                        backend/src/publishing/publishing.queue.ts
--   Publishing           backend/src/publishing/publishing.service.ts and adapters/social-adapter.interface.ts
--   Publishing.Worker    backend/src/publishing/publish-worker.processor.ts; Rules and Calls are two logics for
--                        its code, Steps and Calls.Steps apply them, Single and Calls.Bound are what they show;
--                        Outcome has how each part of a delivery ends, Outcome.Process the whole, and
--                        Outcome.Retries how deliveries of a job come to an end
--   Formatting           backend/src/publishing/formatter.service.ts and formatters/; Formatting.Trim and
--                        Formatting.Bounds have the lengths of texts
--   Formatting.Issues    `issues` of backend/src/posts/post.service.ts; Formatting.Issues.Clear what follows from none
--   Adapters             JSON values, base URLs, texts, exceptions and (Credential) accounts that the adapters share, and
--                        backend/src/publishing/adapters/analytics-metrics.ts
--   Adapters.X           backend/src/publishing/x-api-usage.service.ts; Adapters.X.Adapter and Adapters.X.Reading are
--                        adapters/x.adapter.ts with x-credential.service.ts. Accounting, Charges, Settled, Stages,
--                        Interleaving, Sends, Posting and Texts hold the theorems
--   Adapters.Threads     backend/src/publishing/adapters/threads.adapter.ts with threads-credential.service.ts;
--                        Adapters.Threads.Reading the calls that only read, Adapters.Threads.Posting the theorems
--   Alerts               backend/src/publishing/failure-alert.service.ts; deliver_pending is dispatchPending
--   Account              social_accounts, and backend/src/publishing/publishing-permissions.ts
--   Posts                backend/src/posts/pg-post.repository.ts with the trigger of
--                        backend/migrations/014_editorial_workflow.sql; Posts.Change is its mutate and save
--   Posts.Service        backend/src/posts/post.service.ts and backend/src/media/media.service.ts;
--                        Posts.Service.Create is its create and duplicate, Posts.Service.Rows and
--                        Posts.Service.Stored the jobs' rows after an edit
--   Oauth                backend/src/auth/pg-oauth-account.repository.ts and oauth.types.ts
--   Oauth.Service        backend/src/auth/oauth.service.ts; Oauth.Service.Selection is its selectFacebookPage
--   Kakao                backend/src/kakao-channel: the repository; Kakao.Service its service
--   Jwt                  backend/src/auth/service-jwt-verifier.service.ts: the claims; Jwt.Keys the keys and their cache.
--                        Cache and Claims hold the theorems
--   Analytics            backend/src/analytics/pg-analytics.repository.ts, whose sums and pages are
--                        Analytics.Dashboard; Analytics.Service its service, with encodeCursor and decodeCursor in
--                        Analytics.Cursor; Analytics.Pages follows the cursors
--   Tests                examples
--
-- State. A table is a list of rows, and a statement a function on the tables; a transaction that throws gives the
-- tables back as they were. The worker runs in a monad over World: the tables, the external calls made so far and
-- the number of readings of the clock. `clock n` is the n-th reading and is arbitrary; instants are milliseconds
-- as natural numbers. A provider is a record of functions of all earlier calls, the call's arguments and nothing
-- else. Interleavings of several workers are sequences of statements (Outbox.Interleaving.WorkerRun). In the other
-- components one operation reads one time, `now`; the delivery of alerts reads one more for each request. The adapter
-- of X runs on the rows of its ledger and the requests that it has sent, that of Threads on its requests; of Promise.all
-- the model has the runs in which an upload that comes through is over before the next one begins; the first failure is
-- thrown at once, with the uploads behind it as far as the parameter `progress` says (upload_parts);
-- Adapters.X.Stages takes a request apart where it awaits, for Adapters.X.Interleaving to put the stages in any order.
--
-- Parameters. For the worker, the adapters and the formatter's `format`; elsewhere `slice` (the first characters of a
-- message), `is_blank` and `is_https` (what `trim` and `URL` say of a text), patterns of texts, the hash and the cipher,
-- random values and UUIDs, the queue, the alerts' webhook, what splitting, JSON and the signature's check say of a token.
-- The post service takes `issues` as a parameter, which Formatting.Issues fills. The two patterns of hashtags are
-- parameters, and so are `new URL`, `encodeURIComponent` and `Number` for the adapters (Adapters.Runtime). A number of
-- JSON is whole and not negative, or one that is not counted. Following the cursors of the analytics is on fuel, which
-- Analytics.Pages shows to be enough; every other loop is over a list or a text.
--
-- Not modelled: failures of the database's connection, but for X's ledger; the CHECK and UNIQUE constraints, beside
-- the primary keys by which rows are updated and the constraints on `social_posts` and on the alerts' counts in
-- save_success_checked and save_failure_checked of Outbox.Save, whose exceptions the worker's model leaves out; the error and log texts beyond what tells exceptions apart;
-- the order in which an UPDATE returns its rows. The trigger of migration 014 acts on no statement of a worker,
-- which sets neither `waiting` nor `cancelled`. The adapters of LinkedIn, Facebook and Instagram, the HTTP
-- clients, the scheduler, guards, controllers and the frontend have no model.
pub mod Account
pub mod Adapters
pub mod Alerts
pub mod Analytics
pub mod Base
pub mod Dispatch
pub mod Entity
pub mod Formatting
pub mod Jwt
pub mod Kakao
pub mod Oauth
pub mod Outbox
pub mod Posts
pub mod Publishing
pub mod Result
pub mod Retry
pub mod Store
pub mod Tests
