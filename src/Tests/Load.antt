-- ===== src/Tests/Load.antt =====
-- Websockets, load tests and contested holds at concrete inputs.
use grab_seat.Base.{
  ℕ, ◌<◌, ◌==◌, if◌then◌else◌, ◌≡◌, ◌↔◌, refl, [], ◌∷◌, some, none, inl, false, true, arith,
}
use grab_seat.Base.Int.{pos}
use grab_seat.Service.{ok, err, link_down, get}
use grab_seat.Base.Text.{Str, codes, str_eq}
use grab_seat.Ws.{Hub, mem, happen_all}
use grab_seat.Ws.{add, disconnected, broadcasted, snapshot_sent}
use grab_seat.Ws.Serving.{upgrades, serve, serve_panics_iff}
use grab_seat.Locking.Held.{Held, held_state}
use grab_seat.Api.Snapshot.{Booked, seat_states}
use grab_seat.Loadtest.{url_or}
use grab_seat.Loadtest.Available.{take}
use grab_seat.Loadtest.Client.{Net, Got, EventResponse, StateResponse, take_seats}
use grab_seat.Loadtest.Open.{open_seats, take_seats_lem}
use grab_seat.Base.Assoc.{lookup}
use grab_seat.Locking.Keys.{hold_key, seat_id_from_key-hold_key}
use grab_seat.Store.Opening.{PgxPool, open_pool}
use grab_seat.Main.Startup.{connect_store, linked}
use grab_seat.Main.Connecting.{meets, Serves, GaveUp, connect_iff}
use grab_seat.Tests.Seats.{alice, bob}
use grab_seat.Tests.House.{hub, hub-Valid}

-- The browser leaves before its snapshot is built.
abbrev left : Hub
left = elim (happen_all (disconnected 2 ∷ []) (add hub)) [ none ↦ hub | some h ↦ h ]

serve_panics_iff_example :
    (serve (codes "http://localhost:3000") [] none (disconnected 2 ∷ []) (ok (codes "snapshot")) hub
      ≡ none)
    ↔ ((upgrades (codes "http://localhost:3000") [] none ≡ true)
        × ((msg : Str) × (ok (codes "snapshot") ≡ ok msg))
        × (mem 2 left.clients ≡ false))
unfolding happen_all
serve_panics_iff_example =
    serve_panics_iff (codes "http://localhost:3000") [] none (disconnected 2 ∷ [])
      (ok (codes "snapshot")) hub left hub-Valid refl

-- A booking is broadcast between a browser's registration and its snapshot: it comes first.
abbrev overtaken : Hub
overtaken =
    elim (happen_all (broadcasted (codes "booked") ∷ snapshot_sent 0 (codes "snapshot") ∷ []) hub) [
      | none ↦ hub
      | some h ↦ h
    ]

event_comes_first : (overtaken.conns 0).send ≡ codes "booked" ∷ codes "snapshot" ∷ []
unfolding happen_all
event_comes_first = refl

-- Of four seats, one is held and one is booked.
abbrev all_seats : EventResponse
all_seats = record { seats = pos 1 ∷ pos 2 ∷ pos 3 ∷ pos 4 ∷ []; hold_ttl_seconds = pos 120 }

abbrev one_booked : Booked
one_booked = (pos 3, alice) ∷ []

abbrev one_held : Held
one_held = (pos 2, held_state (pos 2) bob 9) ∷ []

abbrev shown : StateResponse
shown = record {
  type = codes "snapshot";
  instance_id = codes "backend-1";
  seats = seat_states one_booked one_held;
  redis_healthy = true;
}

-- A backend whose answers are told apart by their text.
abbrev answers : Str → Got
answers path = record { status = 200; body = path }

abbrev stack : Net
stack = record {
  new_request = ok;
  send = λ req. ok (answers req.url);
  dial = λ url. ok (codes "snapshot" ∷ codes "freed" ∷ []);
  encode_seat = λ seat. [];
  fill_action = λ body. record {
    status = body;
    seat_id = pos 0;
    expires_at_ms = pos 0;
    code = [];
    error = [];
  };
  decode_event = λ body. ok all_seats;
  decode_state = λ body. ok shown;
  decode_snapshot = λ msg. ok shown;
  decode_message = λ msg. ok (record { seat_id = some (pos 2); type = msg });
}

take_seats_lem_example : take_seats stack (λ key. []) 2 ≡ some (pos 1 ∷ pos 4 ∷ [])
unfolding open_seats take held_state str_eq lookup url_or
take_seats_lem_example =
    take_seats_lem stack (λ key. []) 2 ((get (hold_key (pos 2)), ok bob) ∷ []) one_booked one_held
      (answers (codes "http://localhost:8080/api/event"))
      (answers (codes "http://localhost:8080/api/state")) all_seats shown (omega arith)
      ((tt, tt), ((refl, inl (seat_id_from_key-hold_key (pos 2) refl, refl)), tt)) refl refl refl
      refl refl

-- Postgres answers the ping in the second round; a pool is the round in which it was connected.
abbrev slow_start : PgxPool
slow_start = record {
  Settings = Str;
  Pool = ℕ;
  parse = ok;
  connect = λ i most cfg. ok i;
  ping = λ i pool. if i == 0 then err link_down else ok tt;
  exec = λ pool schema. ok tt;
}

connect_iff_example :
    (connect_store (meets slow_start (λ i. false) (codes "postgres://db")) ≡ linked 1) ↔ (
      (i : ℕ) × (i < 15)
      × Serves slow_start (λ i. false) (codes "postgres://db") i 1
      × ((j : ℕ) → j < i → GaveUp slow_start (λ i. false) (codes "postgres://db") j))
connect_iff_example = connect_iff slow_start (λ i. false) (codes "postgres://db") 1

second_round : connect_store (meets slow_start (λ i. false) (codes "postgres://db")) ≡ linked 1
unfolding connect_store open_pool
second_round = refl
