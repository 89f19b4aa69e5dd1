-- ===== src/Lib.antt =====
-- GrabSeat: a seat-booking service in Go, backend/. A browser holds a seat for some minutes, then
-- confirms it. Several instances of the backend run behind one gateway. They share Redis, which has
-- the holds as keys that run out and a marker for each sold seat, and Postgres, whose table of
-- bookings has UNIQUE (seat_id) and decides. Each instance tells its own browsers, over websockets,
-- what any instance published in Redis.
--
-- The parts, and where they stand:
-- - Base: lists, integers, texts and maps over the native numbers. A Go `int` is an integer, with its
--   64 bits as a hypothesis where the code depends on them; a string is its bytes; a map with int keys
--   is an association list with each key once, and its iteration order is the list's. Strconv has
--   strconv.Itoa and Atoi.
-- - Model: backend/model/model.go.
-- - Config: backend/config/config.go, and the conversion of the hold time in backend/main.go.
-- - Service: Go code that talks to Redis and Postgres is a program, a tree of calls with what the code
--   does for each reply. Service.Backends has the two services as parameters, records of operations
--   with the laws that Redis and Postgres document. Service.Paths states what a program ensures for
--   every sequence of replies.
-- - Locking: backend/locking/locking.go. Locking.Script has the two Lua scripts, which Redis runs in
--   one step, Locking.Keys the keys, Locking.Held HeldSeats.
-- - Store: backend/store/store.go, one program for each method; Store.Table the statements on bookings;
--   Store.Venue the event and the seats that are read at the start; Store.Opening New, over pgxpool as a
--   parameter; Store.Seed backend/store/seed.go, whose commit may be done
--   although its acknowledgement is lost.
-- - Booking: backend/booking/booking.go, Hold and Confirm.
-- - World: what Redis and Postgres do with each call. A link may be up, may lose the request, or may
--   lose the reply after the service has acted; the code sees one error for the last two. Time passes by
--   World.wait, in milliseconds, for the clock and for the keys of Redis at once. World.Bookings,
--   World.Sales and World.Holds follow the rows and the keys of a seat through the calls.
-- - System: any number of requests, on any instances, whose calls interleave one at a time, with links
--   that fail and with a Redis that may change by itself at any moment (keys that run out, a restart
--   without data). A request is a call of the booking service or an HTTP request (Api.Program)
--   that goes the whole way through the router, the rate limiter, whose decision is
--   given, and the handler. A theorem about a reachable state is by induction on the step relation:
--   System.Events has what all of them share, System.Calls what each request may call, System.Holds the
--   runs in which Redis keeps the hold and the marker of one seat. System.Web reads the results off the
--   HTTP answers, System.Again for a seat that is sold already, System.Contest for holds; System.Shown
--   has the snapshots that are taken while requests are served, System.Stats and System.Counts the
--   counts of GET /api/stats.
-- - Spec: what Hold and Confirm promise for one seat, with no keys and no calls. Spec.Hold and
--   Spec.Confirm are the refinements, Spec.Journey one purchase from hold to confirmation, Spec.Purchase
--   the same as HTTP requests, Spec.Expiry a hold against the expiry that its session is told.
-- - RateLimit: backend/ratelimit/ratelimit.go. The token bucket of golang.org/x/time/rate is a
--   parameter; RateLimit.Keys has clientKey, with net.SplitHostPort.
-- - Observability: backend/observability/observability.go, the level of the log, the choice of the
--   tracer, and what a request's context holds. The libraries of OpenTelemetry are parameters.
-- - Api: backend/api. Api.Snapshot has BuildSnapshot, Api.Abstract its seat map with the order of the Go
--   maps forgotten, Api.Handlers the handlers, Api.Server the routes with the rate limiter and the
--   answer to OPTIONS, with the redirect of a path that ServeMux would clean and with the snapshot and the
--   upgrade of GET /ws, Api.Program a request as one program, Api.Writes and Api.Charges which requests
--   write and which are counted, Api.Sold what an answer says of a seat, Api.Known which seats are
--   known, Api.Middleware the trace middleware, the headers of CORS and the status recorder over the
--   response writer of net/http.
-- - Ws: backend/ws, the hub, its clients with their channels, and what happens to them. One Broadcast is
--   one step; a send on a closed channel is a panic, `none`. Ws.Serving has Serve with the origin check,
--   and readPump.
-- - Main: backend/main.go. Main.Boot has main up to serving, each exit with its message, Main.Life the
--   whole life of the process: what it opens and defers, its exits, the signals, the listener and the
--   shutdown. Main.Wiring has the components that main makes, Main.Startup connectStore and
--   rehydrateBooked, Main.Connecting connectStore over the store's New, Main.Feed what the two
--   subscriptions send to the hub, Main.Fanout the loop of a subscription, Main.Sale one purchase and
--   the browsers of another instance.
-- - Healthcheck: backend/cmd/healthcheck/main.go.
-- - Loadtest: loadtest/harness.go, the choice of seats and the waiting; Loadtest.Client its client of
--   HTTP and websockets, Loadtest.Open that client against the backend.
-- - Tests: Redis and Postgres in memory, schedules that run, and the theorems at concrete inputs.
--
-- Bounds and fuel: the loop of HeldSeats follows the cursor of SCAN, so it runs on fuel, and more fuel
-- than there were pages with a next one is enough (Locking.Pages). All other loops are over lists or
-- count down. A send buffer has 64 messages and a burst 10 tokens, as in the code.
--
-- Not modelled: spans (but for the trace id), other lines of the log than a request's, the encoding of
-- JSON (a handler takes the decoded seat id, and Main.Feed takes the encoding of an event as a
-- parameter), the text of the schema (Main.Boot has the error of the migrations), the deadlines of the
-- shutdown and the requests that it waits for, the close of a load test's websocket and its pool of
-- connections, the scenarios of the load tests, and all that is not Go: the browser's code, the
-- gateway, the schema but for what Service.Backends says of it.
-- A deadline that passes is an error of the call that it bounds. Redis runs a script, and Postgres a
-- statement, in one step; in System, time in Redis is part of the changes that it may make by itself.
-- During the start, no other instance changes the tables of events and seats.
pub mod Base
pub mod Strconv
pub mod Model
pub mod Config
pub mod Service
pub mod Locking
pub mod Store
pub mod Booking
pub mod World
pub mod System
pub mod Spec
pub mod RateLimit
pub mod Observability
pub mod Api
pub mod Ws
pub mod Main
pub mod Healthcheck
pub mod Loadtest
pub mod Tests
