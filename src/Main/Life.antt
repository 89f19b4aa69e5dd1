-- ===== src/Main/Life.antt =====
-- backend/main.go: the life of the process. What main opens and puts off with `defer`, the parts that
-- it leaves open on os.Exit, the listener, the signals, and the shutdown. The methods Close of
-- backend/store/store.go and backend/locking/locking.go close the pool and the client of Redis.
pub mod Order
use grab_seat.Base.{ℕ, Bool, true, false, List, [], ◌∷◌, if◌then◌else◌, ◌++◌, Option, none, some}
use grab_seat.Base.Int.{ℤ}
use grab_seat.Base.Text.{Str, codes}
use grab_seat.Service.{Error, Result}
use grab_seat.Config.{Config, load}
use grab_seat.Observability.{init_tracer}
use grab_seat.Store.Venue.{primary_event, numbered, seats}
use grab_seat.Store.Seed.{seed_if_empty}
use grab_seat.Main.Startup.{connect_store}
use grab_seat.Main.Boot.{
  Surroundings, Running, Boot, exited, goes_on, or_exit, unless_error, connected, running,
}

-- What main opens: signal.NotifyContext, the tracer, the pool of Postgres, the client of Redis, and
-- the HTTP server.
pub data Part : Type 0 where
  signals tracer pool redis_client http_server : Part

pub data Act : Type 0 where
  opened : Part → Act
  closed : Part → Act

-- What the process has done, and the parts whose closes are deferred; both the latest first.
pub record Process : Type 0 where
  pub acts : List Act
  pub deferred : List Part

-- Code of main, which may end the process.
abbrev pub Code : Type 0 → Type 0
Code A = Process → Boot A × Process

unfoldable pub continued : {A B : Type 0} → Boot A × Process → (A → Code B) → Boot B × Process
continued (exited what e, p) f = (exited what e, p)
continued (goes_on a, p) f = f a p

unfoldable pub followed : {A B : Type 0} → Code A → (A → Code B) → Code B
unfolding continued
followed m f p = continued (m p) f

infixl 5 ◌>>=◌
abbrev ◌>>=◌ : {A B : Type 0} → Code A → (A → Code B) → Code B
m >>= f = followed m f

unfoldable pub ret : {A : Type 0} → A → Code A
ret a p = (goes_on a, p)

-- A step that opens nothing, or ends the process without its deferred calls.
unfoldable pub checked : {A : Type 0} → Boot A → Code A
checked b p = (b, p)

unfoldable pub started : Part → Process → Process
started part p = record { acts = opened part ∷ p.acts; deferred = part ∷ p.deferred }

-- A part is open from here on, and its close is deferred.
unfoldable pub open_part : Part → Code (Unit {0})
unfolding started
open_part part p = (goes_on tt, started part p)

-- main from the pool on, up to where it serves
unfoldable pub open_parts : Surroundings → Config → Code Running
unfolding ret followed checked open_part
open_parts g cfg = do
  st ← checked (or_exit (codes "postgres connect failed") (connected (connect_store g.attempts)))
  deferred_close ← open_part pool
  done ← checked (unless_error (codes "migrations failed") g.migrated)
  event_id ← checked (or_exit (codes "seed failed") (seed_if_empty g.seeding g.tables).0)
  event ← checked (
      or_exit (codes "load event failed")
        (primary_event g.primary (seed_if_empty g.seeding g.tables).1.events))
  listed ← checked (
      or_exit (codes "load seats failed")
        (seats g.listing event_id (numbered g.serial 0 (seed_if_empty g.seeding g.tables).1.seats)))
  deferred_redis ← open_part redis_client
  ret (running g cfg event_id event listed)

-- main up to where it serves
unfoldable pub start_up : Surroundings → Code Running
unfolding followed checked open_part open_parts
start_up g =
    let (cfg, refused) = load g.env in
    do
      valid ← checked (unless_error (codes "config error") refused)
      stop ← open_part signals
      tracing ← checked (
          or_exit (codes "tracer init failed")
            (init_tracer cfg.otel_exporter g.exporter g.resource))
      deferred_tracer ← open_part tracer
      open_parts g cfg

-- What happens to a process that serves: SIGINT or SIGTERM, or ListenAndServe returns, with
-- http.ErrServerClosed or with another error.
pub data Occurrence : Type 0 where
  signalled : Occurrence
  server_closed : Occurrence
  server_failed : Error → Occurrence

-- It ends main's context: a signal, or `stop` in the goroutine of the listener.
unfoldable pub ends_context : Occurrence → Bool
ends_context signalled = true
ends_context server_closed = false
ends_context (server_failed e) = true

-- ctx.Done() after what has happened
unfoldable pub context_done : List Occurrence → Bool
unfolding ends_context
context_done [] = false
context_done (x ∷ xs) =
    let later = context_done xs in elim (ends_context x) [ true ↦ true | false ↦ later ]

-- The goroutine of the listener: its error is logged, and `stop` closes the signals at once.
unfoldable pub react : Occurrence → List Act → List Act
react signalled acts = acts
react server_closed acts = acts
react (server_failed e) acts = closed signals ∷ acts

-- What happens in this order, until main shuts the server down
unfoldable pub react_all : List Occurrence → List Act → List Act
unfolding react
react_all [] acts = acts
react_all (x ∷ xs) acts = react_all xs (react x acts)

-- Store.Close, over pgxpool, and Client.Close, over go-redis
unfoldable pub store_close : List Act → List Act
store_close acts = closed pool ∷ acts

unfoldable pub client_close : List Act → List Act
client_close acts = closed redis_client ∷ acts

unfoldable pub close_part : Part → List Act → List Act
unfolding store_close client_close
close_part pool acts = store_close acts
close_part redis_client acts = client_close acts
close_part part acts = closed part ∷ acts

-- The deferred calls when main returns: the last one first.
unfoldable pub run_deferred : List Part → List Act → List Act
unfolding close_part
run_deferred [] acts = acts
run_deferred (part ∷ parts) acts = run_deferred parts (close_part part acts)

pub data Ending : Type 0 where
  exits : Str → Error → Ending
  returns : Ending
  serves : Running → Ending

-- main from the listener on: it waits for its context, shuts the server down, and returns.
unfoldable pub listen : Running → List Occurrence → Process → Ending × List Act
unfolding run_deferred context_done react_all
listen st happened p =
    let acts = react_all happened (opened http_server ∷ p.acts) in
    if context_done happened
    then (returns, run_deferred p.deferred (closed http_server ∷ acts))
    else (serves st, acts)

unfoldable pub ending_of : List Occurrence → Boot Running × Process → Ending × List Act
unfolding listen
ending_of happened (exited what e, p) = (exits what e, p.acts)
ending_of happened (goes_on st, p) = listen st happened p

-- main, with what happens after its start: how it ends and what it did, the latest first
unfoldable pub lifetime : Surroundings → List Occurrence → Ending × List Act
unfolding ending_of start_up
lifetime g happened = ending_of happened (start_up g (record { acts = []; deferred = [] }))
