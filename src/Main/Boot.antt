-- ===== src/Main/Boot.antt =====
-- backend/main.go: main up to the point where the process serves requests. What it meets on the way is
-- given: its environment, the tracer's libraries, the rounds of connectStore, and Postgres. Redis is
-- not asked before it serves, but for the marks of rehydrateBooked (Main.Startup), whose result main
-- ignores.
pub mod Ready
use grab_seat.Base.{ℕ, List, [], ◌∷◌, Option, none, some, if◌then◌else◌}
use grab_seat.Base.Int.{ℤ, pos, negsuc}
use grab_seat.Base.Text.{Str, codes, str_eq}
use grab_seat.Model.{Seat}
use grab_seat.Service.{Error, message, Result, ok, err}
use grab_seat.Config.{Config, Environment, load, hold_ttl_of}
use grab_seat.Observability.{Level, init_logger, Tracing, init_tracer}
use grab_seat.Store.Venue.{Event, primary_event, Stored, numbered, SeatFailures, seats}
use grab_seat.Store.Seed.{Tables, Replies, seed_if_empty}
use grab_seat.Main.Startup.{Attempt, Connection, linked, cancelled, exhausted, connect_store}

pub record Surroundings : Type 0 where
  pub env : Environment
  -- os.Hostname, empty on an error
  pub hostname : Str
  pub exporter : Result (Unit {0})
  pub resource : Result (Unit {0})
  pub attempts : ℕ → Attempt (Unit {0})
  pub migrated : Option Error
  -- the tables before the seed, the seed, and the ids of the table of seats
  pub tables : Tables
  pub seeding : Replies
  pub serial : ℕ → ℤ
  pub primary : Option Error
  pub listing : SeatFailures

-- What main passes to the components, and the tables that it leaves.
pub record Running : Type 0 where
  pub level : Level
  pub config : Config
  pub instance_id : Str
  pub event_id : ℤ
  pub event : Event
  pub seats : List Seat
  pub hold_ttl : ℤ
  pub tables : Tables

-- os.Exit(1), after an error in the log; or the process runs.
pub data Boot {ℓ} (A : Type ℓ) : Type ℓ where
  exited : Str → Error → Boot A
  goes_on : A → Boot A

infixl 5 ◌>>=◌
unfoldable pub ◌>>=◌ {ℓ κ} : {A : Type ℓ} {B : Type κ} → Boot A → (A → Boot B) → Boot B
exited what e >>= f = exited what e
goes_on a >>= f = f a

-- `if err != nil { log.Error(...); os.Exit(1) }`
unfoldable pub or_exit {ℓ} : {A : Type ℓ} → Str → Result A → Boot A
or_exit what (err e) = exited what e
or_exit what (ok a) = goes_on a

unfoldable pub unless_error : Str → Option Error → Boot (Unit {0})
unless_error what (some e) = exited what e
unless_error what none = goes_on tt

-- What connectStore returns: the context's error, or the last one, which is there after its rounds.
unfoldable pub connected : Connection (Unit {0}) → Result (Unit {0})
connected (linked st) = ok st
connected cancelled = err (message (codes "context canceled"))
connected (exhausted none) = ok tt
connected (exhausted (some e)) = err e

unfoldable pub instance_of : Str → Str
instance_of hostname = if str_eq hostname [] then codes "backend" else hostname

-- time.Duration(cfg.HoldTTLSeconds) * time.Second; Load refuses a negative setting.
unfoldable pub duration : ℤ → ℤ
duration (pos n) = hold_ttl_of n
duration (negsuc n) = negsuc n

-- What main makes of the settings and of what it read.
unfoldable pub running : Surroundings → Config → ℤ → Event → List Seat → Running
unfolding instance_of duration
running g cfg event_id event listed = record {
  level = init_logger cfg.log_level;
  config = cfg;
  instance_id = instance_of g.hostname;
  event_id = event_id;
  event = event;
  seats = listed;
  hold_ttl = duration cfg.hold_ttl_seconds;
  tables = (seed_if_empty g.seeding g.tables).1;
}

-- Everything after the tracer, with the settings.
unfoldable pub open_store : Surroundings → Config → Boot Running
unfolding ◌>>=◌ or_exit unless_error connected running
open_store g cfg = do
  st ← or_exit (codes "postgres connect failed") (connected (connect_store g.attempts))
  done ← unless_error (codes "migrations failed") g.migrated
  event_id ← or_exit (codes "seed failed") (seed_if_empty g.seeding g.tables).0
  event ←
      or_exit (codes "load event failed")
        (primary_event g.primary (seed_if_empty g.seeding g.tables).1.events)
  listed ←
      or_exit (codes "load seats failed")
        (seats g.listing event_id (numbered g.serial 0 (seed_if_empty g.seeding g.tables).1.seats))
  goes_on (running g cfg event_id event listed)

-- main
unfoldable pub boot : Surroundings → Boot Running
unfolding ◌>>=◌ or_exit unless_error open_store
boot g =
    let (cfg, refused) = load g.env in
    do
      valid ← unless_error (codes "config error") refused
      tracer ←
          or_exit (codes "tracer init failed") (init_tracer cfg.otel_exporter g.exporter g.resource)
      open_store g cfg
