-- ===== src/Main/Wiring/Sells.antt =====
-- backend/main.go: what the components that main has wired sell.
use mathlib.Core.List.{Mem, map-map}
use mathlib.Core.List.Perm
use grab_seat.Base.{sym, refl, ◌++◌, inr, ◌≡◌, ◌↔◌, ap, subst, List, Option, none, some, ℕ}
use grab_seat.Base.Int.{ℤ, pos, negsuc}
use grab_seat.Base.Text.{Str, codes}
use grab_seat.Model.{Seat}
use grab_seat.Service.{Error}
use grab_seat.Config.{Config, load, getenv, read_config}
use grab_seat.Healthcheck.{health_url}
use grab_seat.RateLimit.{Rate}
use grab_seat.Api.Snapshot.{ids_of_seats}
use grab_seat.Api.Handlers.{SeatRequest, bookings, parse_seat_request}
use grab_seat.Api.Known.{Asks, parse_seat_request_iff}
use grab_seat.Store.Venue.{Stored, seat_of}
use grab_seat.Main.Boot.{Surroundings, Running, goes_on, boot}
use grab_seat.Main.Boot.Ready.{Fit, Ends, Lists, rows_of_event, boot-Ends}
use grab_seat.Main.Wiring.{ids_of_rows, new_service, Wired, components, wire_for, wire}

module _ (T : Rate) where
  wired_components :
      (st : Running) (z : ℤ) (w : Wired T)
      → wire_for T st z ≡ some w
      → (n : ℕ) × (components T st n ≡ w)
  unfolding wire_for
  wired_components st (pos n) w h = (n, cc h)
  wired_components st (negsuc n) w h = absurd cc

  booted : (g : Surroundings) (st : Running) → boot g ≡ goes_on st → Fit g st
  unfolding Ends
  booted g st h = subst (Ends g (Fit g)) h (boot-Ends g)

  -- The same requests, where the two lists have the same seats.
  same-Asks :
      (ids rows : List ℤ) (r : SeatRequest) (session : Str) (seat : ℤ)
      → Mem seat ids ↔ Mem seat rows
      → Asks ids r session seat ↔ Asks rows r session seat
  same-Asks ids rows r session seat (there, back) = (
    (λ (same, named, asks, listed). (same, named, asks, there listed)),
    (λ (same, named, asks, listed). (same, named, asks, back listed)),
  )

  listed_ids :
      (g : Surroundings) (st : Running) (seat : ℤ)
      → Lists g st
      → Mem seat (ids_of_seats st.seats)
        ↔ Mem seat (ids_of_rows (rows_of_event g st.event_id st.tables))
  listed_ids g st seat (ss, same, ascending, perm) =
      rw (same, map-map (λ (s : Seat). s.id) seat_of ss)
        (Perm.mem_iff (Perm.map (λ (row : Stored). row.0) perm))

  -- The URL of the healthcheck is at the address that the server listens at.
  abbrev pub Reached : Surroundings → Wired T → Type 0
  Reached g w =
      health_url (g.env (codes "BACKEND_PORT"))
      ≡ codes "http://127.0.0.1" ++ w.listens_at ++ codes "/healthz"

  reached :
      (g : Surroundings) (st : Running) (n : ℕ)
      → load g.env ≡ (st.config, none)
      → Reached g (components T st n)
  unfolding components health_url load getenv read_config
  reached g st n loaded =
      let same : st.config.port ≡ getenv g.env (codes "BACKEND_PORT") (codes "8080") =
        sym (ap (λ (z : Config × Option Error). z.0.port) loaded) in
      rw same refl

  -- The bookings are the ones that the handlers' model takes them for, the server answers the
  -- healthcheck's URL, and a request passes parseSeatRequest exactly for a seat in the tables.
  abbrev pub Sells : Surroundings → Running → Wired T → SeatRequest → Str → ℤ → Type 0
  Sells g st w r session seat =
      (bookings w.server ≡ w.bookings)
      × Reached g w
      × ((parse_seat_request w.server r ≡ inr (session, seat))
          ↔ Asks (ids_of_rows (rows_of_event g st.event_id st.tables)) r session seat)

  components-Sells :
      (g : Surroundings) (st : Running) (n : ℕ) (r : SeatRequest) (session : Str) (seat : ℤ)
      → Fit g st
      → Sells g st (components T st n) r session seat
  unfolding components new_service
  components-Sells g st n r session seat (loaded, named, same, lists) =
      let (there, back) = parse_seat_request_iff (components T st n).server r session seat in
      let (out, inside) =
        same-Asks (ids_of_seats st.seats) (ids_of_rows (rows_of_event g st.event_id st.tables)) r
          session seat (listed_ids g st seat lists) in
      (
        ap (λ z. new_service z st.instance_id n) same,
        reached g st n loaded,
        ((λ h. out (there h)), (λ asks. back (inside asks))),
      )

  -- When main serves and its hold time has not overflowed, the event of its snapshots is the event
  -- that its bookings are made for, the healthcheck asks the address at which it listens if both
  -- have the same environment, and a request passes parseSeatRequest exactly if it has a session and
  -- asks for a seat that the tables have for that event.
  pub wire-Sells :
      (g : Surroundings) (st : Running) (w : Wired T) (r : SeatRequest) (session : Str) (seat : ℤ)
      → boot g ≡ goes_on st
      → wire T st ≡ some w
      → Sells g st w r session seat
  unfolding wire
  wire-Sells g st w r session seat runs is_wired =
      let (n, is_parts) = wired_components st st.hold_ttl w is_wired in
      subst (λ w'. Sells g st w' r session seat) is_parts
        (components-Sells g st n r session seat (booted g st runs))
