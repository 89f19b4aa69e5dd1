-- ===== src/Tests/Instance.antt =====
-- What reaches the browsers of an instance, at concrete inputs.
use grab_seat.Base.{
  ℕ, ◌+◌, ◌/◌, ◌≡◌, refl, List, [], ◌∷◌, ◌++◌, map, some, none, false, true, arith, if◌then◌else◌,
}
use grab_seat.Base.Int.{ℤ, pos}
use grab_seat.Service.{
  Result, ok, err, link_down, Call, Reply, eval_hold, eval_book, get, set, pttl, scan, publish,
  ping_redis, insert_booking, select_owner, select_booked, select_stats, ping_postgres, now,
}
use grab_seat.Service.Paths.{Ensures}
use grab_seat.Observability.{info, Context}
use grab_seat.RateLimit.{new}
use grab_seat.Store.Venue.{
  SeatRow, Stored, numbered, SeatFailures, seats, seats_of_event, order_by_position,
  insert_by_position, scan_seats,
}
use grab_seat.Api.Middleware.{RequestLog, handle}
use mathlib.Core.Quot
use grab_seat.Locking.Held.{Held, held_state}
use grab_seat.Api.Snapshot.{Booked}
use grab_seat.Api.Merge.{shown}
use grab_seat.Api.Abstract.{
  BookedMap, HeldMap, seat_map, state_at, booked_at, held_at, state_at-seat_map,
}
use grab_seat.Api.Stamped.{Stamped, handle-Stamped}
use grab_seat.Healthcheck.{healthcheck}
use grab_seat.Healthcheck.Alive.{seen, health_response, healthcheck_lem}
use grab_seat.Main.Boot.{Surroundings, boot}
use grab_seat.Main.Boot.Ready.{Ends, Fit, boot-Ends}
use grab_seat.Tests.Wire.{drained, tab, env}
use grab_seat.Base.Text.{Str, codes, str_eq}
use grab_seat.Model.{Seat, msg_held}
use grab_seat.Locking.{millisecond}
use grab_seat.Booking.{held_event, booked_event}
use grab_seat.Spec.Journey.{hold_now, confirm_now}
use grab_seat.Ws.{Hub, mem, happen_all}
use grab_seat.Main.Feed.{Json}
use grab_seat.Main.Fanout.{feed, message, writes}
use grab_seat.Main.Sale.{sale_events, sale_shown}
use grab_seat.Tests.Memory.{redis, postgres, memory}
use grab_seat.Tests.Seats.{alice, bob, house, seat, opening}
use grab_seat.Tests.House.{hub, hub-Valid, server, wanted, posted, empty_tables, willing}

-- A stand-in for JSON that knows the two events of the sale.
abbrev two_events : Json
two_events = record {
  encode = λ ev. ev.type;
  decode = λ s.
      if str_eq s msg_held
      then some (held_event house seat alice 125000)
      else some (booked_event house seat alice);
}

abbrev sale_texts : List Str
sale_texts = map two_events.encode (sale_events redis postgres house seat alice opening)

sale_shown_example :
    ((confirm_now redis postgres house seat alice
        (hold_now redis postgres house seat alice opening).1).1.channel
      ≡ booked_event house seat alice
        ∷ held_event house seat alice ((opening.clock + house.hold_ttl) / millisecond)
        ∷ [])
    × (told : Hub) × (feed two_events
          (codes "backend-2")
          (map
            (message two_events (codes "backend-2"))
            (sale_events redis postgres house seat alice opening))
          hub
        ≡ some told)
    × (sent : Hub) × (happen_all (writes 1 ((hub.conns 1).send ++ sale_texts)) told ≡ some sent)
    × ((sent.conns 1).written ≡ (hub.conns 1).written ++ ((hub.conns 1).send ++ sale_texts))
unfolding memory held_event booked_event mem happen_all
sale_shown_example =
    sale_shown redis postgres house seat two_events (codes "backend-2") alice opening hub 1
      (omega arith) refl (refl, (refl, tt)) hub-Valid refl refl (omega arith)

-- A traced request to confirm a seat.
abbrev traced : Context RequestLog
traced = record { trace = some (codes "4bf92f3577b34da6"); attached = none }

handle-Stamped_example :
    Ensures
      (Stamped info traced server 3 posted)
      []
      (handle drained info traced server 3 0 5 (new drained (pos 60)) posted).1
handle-Stamped_example =
    handle-Stamped drained info traced server 3 0 5 (new drained (pos 60)) posted

-- Replies of services that are down.
all_down : (c : Call) → Reply c
all_down (eval_hold _ _ _ _) = err link_down
all_down (eval_book _ _ _) = err link_down
all_down (get _) = err link_down
all_down (set _ _) = err link_down
all_down (pttl _) = err link_down
all_down (scan _ _) = err link_down
all_down (publish _) = err link_down
all_down ping_redis = err link_down
all_down (insert_booking _ _ _) = err link_down
all_down (select_owner _) = err link_down
all_down (select_booked _) = err link_down
all_down (select_stats _) = err link_down
all_down ping_postgres = err link_down
all_down now = 0

-- The backend's response, wherever the request goes.
abbrev answer : Str → Result ℕ
answer url =
    seen
      (health_response drained info traced server 3 0 5 (new drained (pos 60)) tab wanted all_down)

healthcheck_lem_example : healthcheck env answer ≡ 0
healthcheck_lem_example =
    healthcheck_lem drained info traced server 3 0 5 (new drained (pos 60)) tab wanted all_down env
      answer true link_down refl

-- Two seats of the event, the second in front, and one of another.
abbrev row : ℤ → ℕ → SeatRow
row event position = record {
  event_id = event;
  section = codes "Pit";
  row_label = codes "A";
  seat_number = position;
  price_cents = 18000;
  position = position;
}

abbrev rows : List Stored
rows = numbered pos 1 (row (pos 1) 2 ∷ row (pos 5) 1 ∷ row (pos 1) 1 ∷ [])

abbrev no_failure : SeatFailures
no_failure = record { query = none; scan = λ s. none; rows = none }

ids : Result (List Seat) → List ℤ
ids (err e) = []
ids (ok out) = map (λ (s : Seat). s.id) out

in_order : ids (seats no_failure (pos 1) rows) ≡ pos 3 ∷ pos 1 ∷ []
unfolding ids seats seats_of_event numbered order_by_position insert_by_position scan_seats
in_order = refl

-- A first start with empty tables.
abbrev first_start : Surroundings
first_start = record {
  env = env;
  hostname = [];
  exporter = ok tt;
  resource = ok tt;
  attempts = λ i. record { outcome = ok tt; cancelled = false };
  migrated = none;
  tables = empty_tables;
  seeding = willing;
  serial = pos;
  primary = none;
  listing = no_failure;
}

boot-Ends_example : Ends first_start (Fit first_start) (boot first_start)
boot-Ends_example = boot-Ends first_start

-- Alice bought seat 7, on which a stale hold of Bob is left; he holds seat 8.
abbrev sold : Booked
sold = (pos 7, alice) ∷ []

abbrev holds : Held
holds = (pos 7, held_state (pos 7) bob 9) ∷ (pos 8, held_state (pos 8) bob 10) ∷ []

-- The two maps of a snapshot, without order.
abbrev bookings_map : BookedMap
bookings_map = Quot.mk (sold, (tt, tt))

abbrev holds_map : HeldMap
unfolding held_state
holds_map = Quot.mk (holds, ((refl, tt), (tt, tt)), (refl, (refl, tt)))

state_at-seat_map_example :
    state_at (pos 7) (seat_map bookings_map holds_map)
    ≡ shown (pos 7) (booked_at (pos 7) bookings_map) (held_at (pos 7) holds_map)
unfolding held_state
state_at-seat_map_example = state_at-seat_map bookings_map holds_map (pos 7)
