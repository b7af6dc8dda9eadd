-- ===== src/Lib.antt =====
-- The backend of Merope (backend/internal), a social platform in Go, modelled component by component.
--
-- Finance (backend/internal/modules/finance) moves money between wallets and through escrows.
-- Finance/Store.antt holds the tables wallets, escrow_records and transactions as association lists
-- and lists, and one function per SQL statement of the repository: an UPDATE with its guard answers
-- the updated table, `no_rows` or `failed` (a numeric out of range of BIGINT). Finance/Env.antt holds
-- what surrounds them: the errors, the fault that each statement may meet, and the end of a
-- transaction. Finance/Transfers.antt, Finance/Escrows.antt and Finance/Reads.antt are the functions
-- of infra/postgres_repository.go (Transfer, CreateEscrow, ReleaseEscrow, RefundEscrow,
-- GetUserTransactions and the others), and Finance/Service.antt those of service/finance_service.go.
-- A call takes a store and returns its result and the next store; a transaction's body works on a
-- copy, which is dropped when it returns an error (the deferred Rollback). A commit may fail, with the
-- changes kept or lost. Finance/Calls.antt joins the calls to one data type and runs lists of them:
-- they are the histories that the theorems range over, one transaction after another.
--
-- Lru (backend/internal/core/util/lru_cache.go) is the cache with its linked list and its map. The
-- elements of the list have identities, since the map points into the list; Lru/Entries.antt is the
-- plain list of entries that the cache is compared with.
--
-- Breaker has the two circuit breakers: Breaker/Worker.antt for backend/internal/core/worker and
-- Breaker/Resilience.antt for backend/internal/platform/resilience. A function per critical section
-- says what it does to the state; Breaker/WorkerSteps.antt interleaves the sections of concurrent calls
-- as a step relation, Breaker/Sequential.antt and
-- Breaker/Failures.antt run whole calls one after another.
--
-- Growth (backend/internal/modules/growth) rewards activity. Growth/Rules.antt has the rules of levels,
-- multipliers and tiers, Growth/Progress.antt the new values of a profile that `RecordEvent` computes,
-- and Growth/Profiles.antt the transactions `ClaimStreakShield` and `ActivateBoost` on the table
-- progression_profiles. Multipliers are numbers of tenths: for every base value and combo, rounding in
-- tenths gives what rounding in float64 gives. `now` is read once in a call, by Go and by the
-- database alike, in UTC, and is not earlier than the times that the table holds. Energy costs are
-- natural numbers, since the service passes 20. The level is computed with the integer root, as float64
-- gives it for XP below 10^15. `RecordEvent` as a whole, events that are sent twice, quests, achievements and
-- season scores are not modelled.
--
-- Feeds (backend/internal/core/feeds/editor.go) is the feed engine. Feeds.antt holds its items, tasks
-- and functions: `paginate`, `chunkFollowers`, `Publish`, and `fanoutWorker` as a function of what its
-- select receives, which ends when the channel is closed or the context done. The loop over chunks
-- runs on fuel, as many rounds as there are followers: each round takes at least one.
-- Feeds/Diversity.antt is `injectDiversity`, with the share of the exploration ratio, a float, as a
-- parameter. The floating-point scores, ranking and the caches in front of the feed are not modelled.
--
-- Redis.antt is the part of a Redis server that the next two use: a map from keys to values with the
-- instant at which each expires. Refresh (backend/internal/core/security/refresh_rotation.go) rotates
-- refresh tokens by a script on it. Idempotency (backend/internal/core/middleware/idempotency.go) is the
-- middleware that replays responses: Idempotency/Stages.antt has its three stages, between which other
-- requests run, and `serve`, a request by itself. SHA-256 in hexadecimal, encoding/json and the next
-- handler are parameters; any command may fail, with its changes kept or lost.
--
-- Hub (backend/internal/core/realtime/websocket.go) is the hub of WebSocket clients: Hub/Shards.antt has
-- its shards by FNV-1a, the cases of its loop and the channel of clients to unregister, Hub/Spec.antt the
-- list of clients that it stands for. Connections are left out.
--
-- Window holds sliding windows. Window/Limiter.antt is the rate limiter of
-- backend/internal/core/middleware/rate_limit_redis.go, its script on a sorted set and the handler around
-- it, where Redis is absent, fails before or after the script has run, or answers; Window/Anomaly.antt is `AnalyzePayload` of backend/internal/core/security/anomaly_detector.go, with
-- lower case and the entropy test as parameters. Window/Admission.antt is the count that both go by.
--
-- Messaging (backend/internal/modules/messaging) keeps rooms, messages, receipts and the encryption of
-- rooms. Messaging/Store.antt holds the tables as infra/postgres_repository.go names them,
-- Messaging/Rows.antt, Messaging/Repository.antt and Messaging/Marks.antt are the functions of that file,
-- Messaging/Service.antt and Messaging/Encryption.antt those of service/messaging_service.go and
-- service/e2ee_service.go, and Messaging/Guard.antt is service/aegis_messaging_guard.go. A call takes the
-- tables and returns its result, the next tables and what it publishes. Any statement may fail, with its
-- changes kept or lost. The columns of a conflict target are taken as a primary key, which has no NULL.
-- The database reads an identifier that is sent as text by `uuid_in`, a parameter beside pgtype's
-- `scan_uuid`. Messaging/Calls.antt joins the calls and runs lists of them. Folders, the media gallery,
-- search, paging and the Scylla repository are not modelled.
--
-- Social (backend/internal/modules/social) is the follow graph: Social/Graph.antt has the statements of
-- infra/postgres_repository.go and of backend/internal/database/db/social_extended.go, and
-- Social/Service.antt the functions of service/social_service.go that change the graph or decide by it,
-- with `TrackInteraction` of service/veritas_content_guard.go. Social/Asked.antt runs lists of calls.
--
-- Audit.antt is the tree of privacy actions of backend/internal/core/audit/merkle_audit.go, with SHA-256
-- and the bytes of a text as parameters; Audit/Binding.antt compares two trees by their roots.
--
-- Engine.antt is the worker engine of backend/internal/core/worker/worker.go: its channel of tasks, its
-- workers and `Stop` as steps of single goroutines in any order. A panic in a task is not modelled.
-- Engine/Nearing.antt counts the steps that are left and Engine/Stopping.antt runs them in rounds.
--
-- Market (backend/internal/modules/marketplace) is the shop: Market/Tables.antt, Market/Repository.antt and
-- Market/Listings.antt are the statements and functions of infra/postgres_repository.go,
-- Market/Service.antt is service/marketplace_service.go. The products that a purchase prices may change before
-- its order is placed: `purchase` takes the tables of each read. Market/Calls.antt runs lists of calls.
-- Reviews and the search of products are not modelled.
--
-- Password (backend/internal/core/security/password.go) hashes and compares passwords: Password/Base64.antt
-- and Password/Scan.antt are what it uses of encoding/base64, strings.Split and fmt, Password/Encoding.antt is
-- the file itself. Argon2 and the salt are parameters. A number is printed with fuel above the number.
--
-- Identity (backend/internal/modules/identity) has accounts: Identity/Accounts.antt is the table of users with
-- the cache in Redis, as infra/postgres_repository.go uses them for one of its two databases;
-- Identity/Sentinel.antt is service/identity_sentinel.go with risks in tenths, Identity/Service.antt is
-- service/identity_service.go, which uses Password; Identity/Registered.antt joins `Register` and `Login`.
-- bcrypt, TOTP, SHA-256 and tokens are parameters. Presence and sessions other than their creation are not
-- modelled.
--
-- Access is the transport of Identity for an account with a second factor
-- (backend/internal/modules/identity/transport/preauth_mfa_handler.go): Access/Counters.antt is RateLimitCheck of
-- backend/internal/core/security/auth.go, Access/Handler.antt the handlers Login and Verify, which use the
-- service of Identity, Access/Calls.antt sequences of their calls, Access/Entry.antt a login and its code.
-- Requests as they are parsed, random and signed tokens and the store of refresh tokens are parameters; a
-- challenge is kept as the record that is encoded, so that one that cannot be decoded is not modelled.
--
-- Prelude holds the shared helpers: Boolean tests on the native numbers, lists over them, integers,
-- strings, tables keyed by pairs of identifiers, and results with an error.
--
-- Not modelled: SQL isolation between concurrent transactions (each transaction is taken as one step,
-- as the row locks of its UPDATE statements make it for one wallet), the text of the SQL and of the
-- driver's errors, created_at and the identifiers that the database gives to transactions, and
-- logging. Parsing of UUIDs is pgtype's: a parameter `scan_uuid`. `strings.TrimSpace` is modelled on
-- the white space of Latin-1 and of Unicode's property White_Space.
-- The components that are not named above, such as chat, community, content, media and the error
-- registry, are not modelled.
pub mod Prelude
pub mod Finance
pub mod Lru
pub mod Breaker
pub mod Growth
pub mod Feeds
pub mod Redis
pub mod Refresh
pub mod Window
pub mod Messaging
pub mod Idempotency
pub mod Hub
pub mod Social
pub mod Audit
pub mod Engine
pub mod Market
pub mod Password
pub mod Identity
pub mod Access
