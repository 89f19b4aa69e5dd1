-- ===== src/Tests/House.antt =====
-- Snapshots, handlers, the hub and the start of the process at concrete inputs.
use grab_seat.Base.{
  ℕ, ◌*◌, ◌^◌, ◌<◌, true, ◌≡◌, ◌⊎◌, refl, List, [], ◌∷◌, ◌++◌, none, some, is_some,
}
use grab_seat.Base.Int.{pos}
use grab_seat.Base.Text.{codes}
use grab_seat.Base.Assoc.{lookup, insert}
use grab_seat.Store.{collect}
use grab_seat.Store.Seed.{commit_done, Tables, Replies, demo_event, seed_if_empty}
use grab_seat.Store.Seed.Numbering.{Seeded, seed_if_empty-Seeded}
use grab_seat.Store.Table.{booked_query, project, of_event}
use grab_seat.Model.{Seat, SeatEvent}
use grab_seat.Service.{ok}
use grab_seat.Service.Paths.{Ensures}
use grab_seat.Locking.Keys.{hold_key, booked_key, hold_booked}
use grab_seat.Locking.Held.{held_seats}
use grab_seat.Locking.Script.{hold_script}
use grab_seat.Locking.Listing.{FaithfulEnd, held_seats-Faithful}
use grab_seat.Locking.Pages.{more_pages, held_seats-ends}
use grab_seat.RateLimit.{new, admit}
use grab_seat.RateLimit.Keys.{client_key}
use grab_seat.Api.Snapshot.{Server, build_snapshot}
use grab_seat.Api.Honest.{Honest, build_snapshot-Honest}
use grab_seat.Api.Handlers.{SeatRequest, handle_hold, handle_confirm}
use grab_seat.Api.Answers.{
  Answered, HoldTold, ConfirmTold, handle_hold-Answered, handle_confirm-Answered,
}
use grab_seat.Api.Server.{HttpRequest, post_method, options_method, route, serve}
use grab_seat.Api.Charges.{Free, Counted, serve-Counted}
use grab_seat.Ws.{
  Hub, new_hub, connected, broadcasted, snapshot_sent, pumped_one, disconnected, happen, happen_all,
  broadcast, Happening,
}
use grab_seat.Ws.Dropping.{Delivered, broadcast_lem}
use grab_seat.Ws.Valid.{Valid, happen-Valid, new_hub-Valid, happen_all-Valid}
use grab_seat.Ws.Pumping.{stream}
use grab_seat.Ws.Delivery.{broadcasts, delivers_in_order}
use grab_seat.Main.Feed.{Json, on_message, seat_event, expired, freed_event, on_message_lem}
use grab_seat.Main.Startup.{rehydrate, rehydrate_marks}
use grab_seat.World.{delivered, run}
use grab_seat.Tests.Memory.{redis, postgres, memory}
use grab_seat.Tests.Seats.{alice, bob, seat, rebooked}
use grab_seat.Tests.Wire.{drained, tab}

abbrev seat_row_of : ℕ → Seat
seat_row_of n = record {
  id = pos n;
  section = codes "Pit";
  row_label = codes "A";
  seat_number = n;
  price_cents = 18000;
  position = n;
}

abbrev pub server : Server
server = record {
  event = demo_event (pos 1) 0;
  instance_id = codes "backend-1";
  hold_ttl = 120 * 10 ^ 9;
  allowed_origin = codes "http://localhost:3000";
  seats = seat_row_of 7 ∷ seat_row_of 8 ∷ [];
}

abbrev pub wanted : SeatRequest
wanted = record { session = alice; seat_id = some seat }

held_seats-Faithful_example : Ensures FaithfulEnd [] (held_seats 3)
held_seats-Faithful_example = held_seats-Faithful 3 []

held_seats-ends_example : Ensures (λ es a. more_pages es < 3 → is_some a ≡ true) [] (held_seats 3)
held_seats-ends_example = held_seats-ends 3

build_snapshot-Honest_example : Ensures (Honest (pos 1)) [] (build_snapshot server 3)
build_snapshot-Honest_example = build_snapshot-Honest server 3 []

handle_hold-Answered_example :
    Ensures (Answered HoldTold server wanted) [] (handle_hold server wanted)
handle_hold-Answered_example = handle_hold-Answered server wanted

handle_confirm-Answered_example :
    Ensures (Answered ConfirmTold server wanted) [] (handle_confirm server wanted)
handle_confirm-Answered_example = handle_confirm-Answered server wanted

abbrev pub posted : HttpRequest
posted = record {
  method = post_method;
  path = codes "/api/confirm";
  client = tab;
  seat = wanted;
  origin = [];
  handshake = none;
}

serve-Counted_example :
    let l = new drained (pos 60) in
    let out = serve drained server 3 0 5 l posted in
    ((posted.method ≡ options_method) × Free drained l out)
    ⊎ Counted drained server posted
        (admit drained l (client_key tab) 5)
        l
        (route posted.method posted.path)
        out
serve-Counted_example = serve-Counted drained server 3 0 5 (new drained (pos 60)) posted

-- Two clients connect; one gets its snapshot and a broadcast.
abbrev opened : List Happening
opened = connected ∷ connected ∷ snapshot_sent 1 (codes "snapshot") ∷ []

abbrev pub hub : Hub
hub = elim (happen_all opened new_hub) [ none ↦ new_hub | some h ↦ h ]

pub hub-Valid : Valid hub
unfolding happen_all
hub-Valid = happen_all-Valid opened new_hub hub new_hub-Valid refl

broadcast_lem_example :
    (h' : Hub) × (broadcast (codes "booked") hub ≡ some h') × Delivered (codes "booked") hub h'
broadcast_lem_example =
    broadcast_lem (codes "booked") hub hub-Valid.distinct (λ j m. ((hub-Valid.fit j).0 m).0)

happen-Valid_example :
    (h' : Hub) × (happen (snapshot_sent 0 (codes "snapshot")) hub ≡ some h') × Valid h'
unfolding happen_all
happen-Valid_example = happen-Valid (snapshot_sent 0 (codes "snapshot")) hub hub-Valid refl

abbrev news : List Happening
news =
    broadcasted (codes "held")
    ∷ pumped_one 1 true
    ∷ disconnected 0
    ∷ broadcasted (codes "booked")
    ∷ pumped_one 1 true
    ∷ []

abbrev later_hub : Hub
later_hub = elim (happen_all news hub) [ none ↦ new_hub | some h ↦ h ]

delivers_in_order_example : stream (later_hub.conns 1) ≡ stream (hub.conns 1) ++ broadcasts news
unfolding happen_all
delivers_in_order_example =
    delivers_in_order news 1 hub later_hub hub-Valid refl (tt, (tt, (tt, (tt, (tt, tt))))) refl
      (refl, refl)

abbrev freed : SeatEvent
freed = freed_event (codes "backend-1") (pos 7)

-- A stand-in for JSON that knows one event.
abbrev one_event : Json
one_event = record { encode = λ ev. codes "freed 7"; decode = λ s. some freed }

on_message_lem_example :
    (on_message one_event (codes "backend-2") (seat_event (one_event.encode freed)) hub
      ≡ broadcast (one_event.encode freed) hub)
    × (on_message one_event (codes "backend-2") (expired (hold_key (pos 7))) hub
        ≡ broadcast (one_event.encode (freed_event (codes "backend-2") (pos 7))) hub)
    × (on_message one_event (codes "backend-2") (expired (booked_key (pos 7))) hub ≡ some hub)
on_message_lem_example = on_message_lem one_event (codes "backend-2") freed (pos 7) hub refl refl

-- Redis has lost the marker of the seat that Alice bought.
rehydrate_marks_example :
    let s = (run redis postgres (λ n. delivered) (rehydrate (pos 1)) rebooked).1.redis in
    hold_script redis (hold_key seat) (booked_key seat) bob 120 s ≡ (hold_booked, s)
unfolding memory collect booked_query project of_event lookup insert
rehydrate_marks_example = rehydrate_marks redis postgres (pos 1) seat rebooked bob 120 refl

-- Empty tables, and a database that takes every statement.
abbrev pub empty_tables : Tables
empty_tables = record { events = []; seats = [] }

abbrev pub willing : Replies
willing = record {
  counted = none;
  primary = none;
  began = none;
  clock = 0;
  event_id = ok (pos 1);
  refuses = λ r. none;
  committed = commit_done;
}

seed_if_empty-Seeded_example : Seeded willing empty_tables (seed_if_empty willing empty_tables)
seed_if_empty-Seeded_example = seed_if_empty-Seeded willing empty_tables
