-- ===== src/Lib.antt =====
-- The MT5 bridge: trading signals come in from a MetaTrader terminal, wait in a queue, are relayed
-- to another server, and are turned into orders for the followers of a master account. Masters and
-- followers are managed through an HTTP API.
--
-- Parts, and the files that model them:
--   signal/queue.go, signal/parse.go: Signal, Signal/Queue (the queue as the list of its signals, each
--     method under the lock one function), Signal/Queue/Slice (the same methods on the slice and its
--     backing array), Signal/Parse (`ParseSignal` as `parse_signal`).
--   signal/logger.go: Signal/Logger (what the loggers decide: colours, and whether a line is written).
--   cmd/tcp/main.go: Signal/Pipe (`parsePipe`), Tcp (`handleConn` as `handle_lines`, `processSignal` as
--     `process_signal`, the goroutines it starts as effects, the link to the relay as a state of two
--     flags), Tcp/Clients (the accept loop, the goroutines of the connections with the table of clients,
--     and the shutdown, as events in any order), Tcp/Forwarding (`sendToRelay` as the goroutines of the
--     lines run it, and `keepRelayConnection`, step by step), Distribution (`distributeToFollowers`).
--   cmd/http/main.go: Http (the four handlers; they share the queue and the text form), Http/Server
--     (the routes, the limits of the bodies, and one request after the other).
--   cmd/relay/main.go: Relay (`sendToServer` with its three rounds as recursion on the rounds that are
--     left, `parsePipe`, `handleConn` line by line), Relay/Shared (`sendToServer` as all clients run it at the
--     same time: a place for each call, and steps in any order), Relay/Start (`main` up to its loop).
--   internal/models: Models, Models/Masters, Models/Followers, Models/Responses, Models/Signals.
--   internal/distributor: Lot (follower_order.go), Distribution (service.go and `Distribute`),
--     Distribution/Enqueue (the goroutines of `Distribute` and the workers as a step relation),
--     Distribution/Distributor (its channel).
--   internal/repository: Db (the tables as lists of rows, and what a statement can come to), Db/Masters,
--     Db/Followers (each method a function of the reply of the database and the tables).
--   internal/distributor/signal_broadcaster.go, internal/redis/signal_hub.go: Broadcast (the channels and
--     goroutines of the workers; the calls and the moves of the goroutines are events in any order, and a
--     panic is no result), Broadcast/Publish, Redis/SignalHub, with Go/Channel for Go's channels.
--   internal/redis: Redis (the server and its driver as an interface), Redis/Subscriptions,
--     Redis/FastLookup, Redis/Client (client.go, with Go/Retry for the loops that try again).
--   cmd/api/main.go with `StartServer` of internal/api/routes.go, `initMasterFollower` of
--     cmd/tcp/main.go: Startup.
--   cmd/sender/main.go: Sender and Sender/Command (the flags as a record, a file as what reading it
--     gives, the network as an interface).
--   internal/cache/master_cache.go: Cache (a Go map as an association list), Cache/Order (the map as
--     the quotient of the lists by their lookups).
--   internal/api: Api (the server's state, requests, and a handler's checks as a monad), Api/Paths,
--     Api/Masters, Api/Followers, Api/Accounts, Api/Auth, Api/Responses (handlers.go), Api/Routes, Api/Middleware.
--   internal/metrics: Metrics/Names (the metrics), Metrics (what is recorded, with the part of
--     cmd/tcp/main.go that records).
--   Prelude holds what all share; Go what the program uses of Go's float64, integers,
--   strings and channels; the modules below a component hold its proofs; Tests holds examples at
--   concrete inputs.
--
-- How they interact: the TCP bridge looks a signal's account up in the cache of masters, asks Redis
-- for the accounts of the master's followers and PostgreSQL for their rows, and hands one order for
-- each row to the channel. The API writes the tables first, then the cache and the Redis sets. Both
-- programs fill their own cache from the table of masters when they start, the API twice; the sender posts to the
-- HTTP bridge.
--
-- Parameters: float64 with its operations (Go/Float, whose laws are those of IEEE 754 that a theorem
-- names), the Redis server (Redis, with what its documentation says of a successful command), JSON,
-- bcrypt, JWT (Api/Auth, with what its documentation says of a signed token), prometheus (Metrics),
-- `strconv` and `fmt.Sscanf` (Signal, Api). A reply of the database is an input of each
-- statement: carried out, refused, carried out without a count, or carried out with its answer
-- lost. The network of the sender is an
-- interface too (Sender). The bounds are the source's own: the three rounds of `sendToServer`, the
-- ten tries of `Connect` and `connectDatabase`, the capacities 1000, 4096 and 100 of the channels.
-- The endless loop of `ConnectWithRetry` takes a number of tries, and more than the number of one
-- that reaches Redis is enough; that of `-loop` takes a number of ticks.
--
-- Concurrent goroutines are interleaved at the steps that touch what they share; a write that succeeds
-- is one step. A request to the API is one step too: that others run at the same time is not modelled.
-- A connection of the TCP bridge is its number in the order of arrival.
--
-- Not modelled: the text of the console and the loggers, the start of the listeners and HTTP servers,
-- response headers and time stamps in bodies, the buffer that the lines of one connection share, and the
-- time that passes in a request.
pub mod Prelude
pub mod Go
pub mod Signal
pub mod Models
pub mod Lot
pub mod Metrics
pub mod Db
pub mod Redis
pub mod Cache
pub mod Api
pub mod Distribution
pub mod Broadcast
pub mod Relay
pub mod Tcp
pub mod Startup
pub mod Http
pub mod Sender
pub mod Tests
