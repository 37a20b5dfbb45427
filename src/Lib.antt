-- ===== src/Lib.antt =====
-- purp-tape is a Go backend (backend/) for sharing unreleased music: projects hold tracks, which their
-- owner shares with collaborators and by links. This library models the parts of backend/internal
-- that decide who may do what and how often, that keep state in memory, and that process events and
-- jobs.
--
-- A request passes the limiter that `main` installs (middleware/rate_limiter.go), is given a user by
-- the authentication, and reaches a handler, which asks the database itself who may see or change what.
-- Beside this the package holds guards that neither `main` nor the router installs, and which are
-- modelled as what they are when they are composed: RBACMiddleware and the Enforce functions
-- (middleware/rbac.go), which read the role from the database, ProjectAccessMiddleware
-- (middleware/access_check_cache.go), which asks the access tables through the Redis cache
-- (cache/access_list_cache.go), the batch checks (performance/batch_access_checker.go) on the lists
-- kept there, and the circuit breaker (middleware/enterprise.go).
-- Background jobs wait in a table (db/queries_access.go) for the processor (jobs/processor.go).
-- The handlers (handlers/) then read and write the tables: links to projects with their passwords,
-- tracks with the versions that are uploaded to the object store, the copies for offline use, and the
-- subscriptions, which the webhooks of the two payment providers keep and the quotas read.
--
-- Files, each with the code that it models, below backend/internal:
--   Base        names of the standard libraries; tests, lists, maps, Go's int, its strings and strconv
--   Http        the request that a handler gets, and what it does with it
--   Db          the tables; Db.Roles: GetUserRoleOptimized, Db.AccessLists: the access queries of
--               db/queries.go; Db.Jobs: the background_jobs statements of db/queries_access.go;
--               Db.Projects, Db.Tracks, Db.ShareLinks, Db.Subscriptions, Db.OfflineDownloads,
--               Db.Collaborators, Db.Follows: the statements on these tables of db/queries.go,
--               queries_phase2.go, queries_access.go and queries_analytics.go
--   Cache       Cache.Redis: the interface of the server; Cache.AccessList: cache/access_list_cache.go;
--               Cache.PresignedUrl: cache/presigned_url_cache.go; Cache.Invalidation:
--               cache/invalidation.go
--   Middleware  RateLimit: middleware/rate_limit.go; Configurable: middleware/rate_limiter.go;
--               CircuitBreaker: CircuitBreaker.Call of middleware/enterprise.go; Rbac:
--               middleware/rbac.go; AccessCheck: middleware/access_check_cache.go; Auth:
--               middleware/auth.go; ClientIp: the three functions that name a client
--   Performance performance/batch_access_checker.go
--   Events      events/event_store.go: the store and its replays; Events.Aggregate: ProjectAggregate;
--               Events.Projection: ProjectionHandler
--   Jobs        jobs/processor.go; Jobs.Backoff: the sleeps of ProcessPendingJobs
--   Auth        Auth.ShareToken: auth/share_token.go; Auth.Validator: auth/validator.go
--   Helpers     Helpers.Validation and Helpers.Filename: helpers/validation.go; Helpers.Requests:
--               helpers/handlers.go
--   Handlers    Handlers.Shares: handlers/shares.go; Handlers.Payments: the webhooks of
--               handlers/payments_stripe.go and payments_revenuecat.go; Handlers.Tracks:
--               handlers/tracks.go; Handlers.Offline: handlers/offline_downloads.go, offline_sync.go
--               and offline_maintenance.go; Handlers.Collaboration, Handlers.Projects and
--               Handlers.Rollback: the files of these names. A handler is a function on the tables,
--               from a request to the tables after it and what it answers
-- Definitions have the names of the Go functions, in this library's spelling. Below each component
-- its properties stand in modules named for what they show, and concrete runs in Tests.
--
-- A method that holds its mutex throughout is one step on the component's state, and a run is a
-- list of steps in an order that the theorems leave open; goroutines that clean up or store a result
-- are steps of their own. Times are natural numbers of nanoseconds, passed in where the code reads
-- the clock. Maps are functions from keys to options, or lists of entries where their size counts.
-- `int` is an integer of 64 bits whose increment wraps, `uint32` a number below 2^32. Strings are
-- texts, and lists of bytes where the code counts or compares bytes. All loops are recursions on
-- lists, so that no fuel is needed.
--
-- Parameters stand for code outside the repository: a Redis server, with what its documentation says
-- of GET, SET with an expiry and DEL as laws, which a server in memory meets; SHA-256 and base64; the
-- parser and verifier of tokens (golang-jwt) and the answer of the endpoint with the public keys; the
-- answers of the host and of the object store; bcrypt; the verifier of Stripe's events; whether a statement that changes a table is executed, and a transaction committed; whether the
-- driver's error for a query without a row is sql.ErrNoRows. Queries are functions on the rows of the
-- tables, which fail as a whole while the server is not reached. Logging is left out, as are the
-- results that are stored with a job.
--
-- The answers of the cost guard (finops/policy.go), which computes in floating point from tables, among
-- them background_jobs, are arguments too: the theorems hold for any of them, and say nothing of how an
-- answer depends on the table. A commit that reports an error is taken not to be applied, and RETURNING to
-- give rows in the order of the table.
--
-- Not modelled: the handlers of comments, images, search, analytics and the consoles, the checkout session
-- of Stripe, the command bus, snapshots of events, cost figures in floating point, GraphQL, the Swift app,
-- the migrations.
pub mod Base
pub mod Http
pub mod Db
pub mod Cache
pub mod Middleware
pub mod Performance
pub mod Events
pub mod Jobs
pub mod Auth
pub mod Helpers
pub mod Handlers
