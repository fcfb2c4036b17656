-- ===== src/Lib.antt =====
-- Verification of a clustered WebSocket chat server written in Go.
--
-- Clients connect to one of several servers. `internal/hashing` decides which server a user belongs
-- to. On each server one goroutine, `Run` of `internal/chat/hub.go`, owns the maps of
-- rooms and sessions and takes registrations, unregistrations and messages from channels. A message
-- of a local client is published to Redis and queued for the database; every server's listener
-- hears it from Redis and queues it for its own `Run`, which delivers it to the local clients.
-- Servers announce themselves over the Redis channel `global_signals`, and a watcher drops silent
-- ones. `internal/middleware/rateLimiter.go` limits what one client sends, and
-- `internal/repository/message_repository.go` keeps the history.
--
-- Base        no source: texts as lists of code points, numbers, lists, association lists
-- Hashing     internal/hashing/consistent.go: `Ring`, `add`, `get`, `remove` are the type and its
--             methods; crc32 is the parameter `hash`; Sorting and Search write out what the methods
--             use of packages slices and sort. Order, Lookup, Changes, Invariant, Routing and
--             Restore hold the lemmas, and Members the ring as a set of servers, whose members are
--             those that a log of calls of `Add` and `Remove` leaves.
-- Limiter     internal/middleware/rateLimiter.go: `allow` is `Allow`, cut into `refill` and
--             `take_token`; an int32 is its bit pattern, with the wrap-around written out. Callers
--             has the atomic operations of `Allow` as turns of any number of goroutines.
-- Messages    internal/types/message_types.go, internal/models/Messages.go and `MessageToModel`
-- Api         Credentials is internal/auth/jwt.go and internal/auth/passwords.go over a record
--             `Crypto` of what they call; Handlers is internal/api/authHandler.go and `Authenticate`
--             of internal/middleware/auth-middleware.go; Signup is `SignupHandler`. A record `World`
--             says what the clock, the database and the source of random bytes answer to one
--             request. Tokens has `getJwtKey` and `ValidateToken` over a record `Jwt` of the JWT
--             library, with a record `IsJwt` of what that library documents. Service runs any requests
--             to the four handlers, and the job of internal/Tasks, on the two tables.
-- Repository  Tokens is internal/repository/refresh_token-repository.go and Users
--             internal/repository/user_repository.go, with the constraints of migrations. History is
--             internal/repository/message_repository.go. A table is a list of rows, each method its
--             SQL statement, and an argument says whether the database answers. `columns` is what the
--             columns of the migrations keep of a message, and a read of history may break off.
-- Chat        Hub is internal/chat/hub.go. A `*Client` is an address in a store, so that maps share
--             clients. What the hub asks of Redis is a list of commands; a `go` statement adds a
--             task. `handle_register`, `handle_unregister`, `handle_broadcast` and `handle_quit` are
--             the cases of `Run`, `cleanup_client` is `cleanupClient`, `handle_signal` one round of
--             `ListenToRedis`, `handle_tick` one tick of `IsOnline`, `persist` and `drain`
--             `PersistMessageWorker`, `replay` `replayHistory`. Runs has the interleavings of the
--             first three cases, of the clients, of the listener and of the watcher as a step
--             relation, whose steps are the critical sections of the hub's lock and what is left
--             of `cleanupClient` (`after_lock`, `after_unlock`) and of the private case once the
--             lock is given back; it supposes that a client registers once, before its cleanup.
--             Pump is `ReadPump` of internal/chat/client.go on one frame, and Entry `sanitize` and
--             `serveWS` of cmd/server/main.go. Subscriptions replays the commands that Redis has
--             got, Persistence follows a message into the table, and Crossing to the clients of
--             another server. Writing is one round of `WritePump`, and Journey puts the pumps and
--             the hubs of two servers together. `start_hub` of Home is `NewHub`, of which Home
--             follows the ring through every step; Settling repeats the broadcast case.
-- Config      internal/config/config.go, with `maskDBSource`
-- Legacy      Stateful is legacy/challenge-1/stateful-hub.go as a run of events; Parsing is
--             legacy/challenge-6/content-parsing.go; Chat is the hub of
--             legacy/challenge-7/chat.go, with History and Joining on what a new client gets, Bucket
--             its rate limiter, Reader its `readPump` on one frame and Names `generateRandomName`.
-- Server      `main` of cmd/server/main.go: the route to the WebSocket, with `CorsMiddleware` of
--             internal/middleware/cors.go; Startup, with `Connect` of internal/db/db.go; and
--             Stopping, the wait group and the goroutines that it counts as a run of events.
-- Tests       runs on concrete data, and one instance of each result
--
-- Bounds and fuel. The binary search of `Hashing.Search` runs on fuel `n` for `n` places, of which
-- it uses at most one a round; printing a number in decimal runs on fuel `n + 1`, and each round
-- divides by ten. The loops of `Add` and `Remove` are recursion on the number of replicas. The
-- capacities of the channels are those of the source: 2048 messages in `Broadcast`, 1024 rows in
-- `PersistenceQueue`, 256 frames in `Send`. A send that waits, for itself or for another
-- goroutine, and a send on a closed channel are values of `Result`. The rounds of `settle` are
-- as many as the answers of Redis that it is given, of which one for each queued message is
-- enough. Unix times and nanoseconds are natural numbers; a UUID is a number. Text is code
-- points, so invalid UTF-8 does not occur.
--
-- Not modelled. Log output, contexts and their timeouts; JSON as bytes (a payload is the object
-- that it stands for); Redis and PostgreSQL beyond their answers; connections, their deadlines
-- and pings; the table of routes, which net/http reads; the clock of cron; in legacy
-- the programs of challenge-2 to challenge-5, which are stages between those that are modelled.
pub mod Api
pub mod Base
pub mod Chat
pub mod Config
pub mod Hashing
pub mod Legacy
pub mod Limiter
pub mod Messages
pub mod Repository
pub mod Server
pub mod Tests
