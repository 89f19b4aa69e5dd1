-- ===== src/Tests/Process.antt =====
-- A process from its start to its shutdown, at concrete inputs.
use grab_seat.Base.{◌≡◌, ◌*◌, ◌^◌, refl, List, [], ◌∷◌, none, some, ℕ, false}
use grab_seat.Base.Int.{ℤ, pos}
use grab_seat.Base.Text.{codes, str_eq}
use grab_seat.Service.{ok}
use grab_seat.Config.{load, refusal, hold_ttl_of}
use grab_seat.Strconv.{atoi, signed}
use grab_seat.Store.Seed.{demo_event, seed_if_empty}
use grab_seat.Store.Venue.{
  SeatRow, seats, seat_of, primary_event, primary_query, numbered, seats_of_event,
  order_by_position, insert_by_position, scan_seats,
}
use grab_seat.Api.Handlers.{SeatRequest}
use grab_seat.Main.Boot.{
  Surroundings, Running, goes_on, boot, running, or_exit, unless_error, connected, open_store,
  ◌>>=◌,
}
use grab_seat.Main.Startup.{connect_store}
use grab_seat.Observability.{init_tracer}
use grab_seat.Main.Life.{Occurrence, signalled, server_closed, context_done, lifetime}
use grab_seat.Main.Life.Order.{Lives, lifetime-Lives}
use grab_seat.Main.Wiring.{Wired, wire, components}
use grab_seat.Main.Wiring.Sells.{Sells, wire-Sells}
use grab_seat.Tests.Seats.{alice}
use grab_seat.Tests.Wire.{drained, env}
use grab_seat.Tests.House.{willing}

-- Two seats of the event, the second in front, and one of another.
abbrev row : ℤ → ℕ → SeatRow
row event position = record {
  event_id = event;
  section = codes "Pit";
  row_label = codes "A";
  seat_number = position;
  price_cents = 18000;
  position = position;
}

-- The process starts again, with an event in the tables.
abbrev restart : Surroundings
restart = record {
  env = env;
  hostname = codes "backend-1";
  exporter = ok tt;
  resource = ok tt;
  attempts = λ i. record { outcome = ok tt; cancelled = false };
  migrated = none;
  tables = record {
    events = demo_event (pos 1) 0 ∷ [];
    seats = row (pos 1) 2 ∷ row (pos 5) 1 ∷ row (pos 1) 1 ∷ [];
  };
  seeding = willing;
  serial = pos;
  primary = none;
  listing = record { query = none; scan = λ s. none; rows = none };
}

abbrev happened : List Occurrence
happened = server_closed ∷ signalled ∷ []

lifetime-Lives_example :
    Lives (boot restart) happened (context_done happened) (lifetime restart happened)
lifetime-Lives_example = lifetime-Lives restart happened

-- What main then runs with: the seats 2 and 0, in the order of their positions.
abbrev restarted : Running
restarted =
    running restart (load env).0 (pos 1) (demo_event (pos 1) 0)
      (seat_of (pos 2, row (pos 1) 1) ∷ seat_of (pos 0, row (pos 1) 2) ∷ [])

restart_runs : boot restart ≡ goes_on restarted
unfolding boot load init_tracer connect_store seed_if_empty primary_event primary_query seats
    numbered seats_of_event order_by_position insert_by_position scan_seats or_exit unless_error
    connected open_store str_eq ◌>>=◌ refusal atoi signed
restart_runs = refl

abbrev wired : Wired drained
wired = components drained restarted (90 * 10 ^ 9)

restart_wires : wire drained restarted ≡ some wired
unfolding wire running load refusal str_eq atoi signed hold_ttl_of
restart_wires = refl

abbrev asked : SeatRequest
asked = record { session = alice; seat_id = some (pos 2) }

wire-Sells_example : Sells drained restart restarted wired asked alice (pos 2)
wire-Sells_example =
    wire-Sells drained restart restarted wired asked alice (pos 2) restart_runs restart_wires
