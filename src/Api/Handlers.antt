-- ===== src/Api/Handlers.antt =====
-- backend/api/handlers.go: the handlers. A response is its status and its body; the JSON decoder is
-- left out, so a request carries the decoded seat id. A `none` is a handler that writes nothing.
use grab_seat.Base.{
  ℕ, ◌-◌, ◌/◌, Bool, true, false, List, [], ◌∷◌, Option, none, some, ◌⊎◌, inl, inr, is_some, leb,
  ◌++◌, if◌then◌else◌,
}
use grab_seat.Base.Int.{ℤ, pos, negsuc}
use grab_seat.Base.Text.{Str, codes}
use grab_seat.Base.Assoc.{lookup, insert}
use grab_seat.Store.Venue.{Event}
use grab_seat.Model.{Seat, Snapshot}
use grab_seat.Service.{Result, ok, err, Prog, ret, ◌>>=◌}
use grab_seat.Locking.{second, healthy}
use grab_seat.Store.{booking_stats, ping}
use grab_seat.Booking.{
  Outcome, held, taken, seat_booked, confirmed, already_mine, conflict, hold_expired,
  BookingService, hold, confirm,
}
use grab_seat.Api.Snapshot.{ids_of_seats, Server, build_snapshot}

pub data Body : Type 0 where
  -- "error" and "code"
  failure : Str → Str → Body
  -- "status" and "seat_id", with "expires_at_ms", with "message", or with neither
  held_until : Str → ℤ → ℕ → Body
  refused : Str → ℤ → Str → Body
  done : Str → ℤ → Body
  -- "bookings_total", "distinct_seats", "double_bookings"
  counts : ℕ → ℕ → ℤ → Body
  -- "status", "instance", "postgres", "redis", "clients"
  health : Str → Str → Bool → Bool → ℕ → Body
  -- "event", "seats", "hold_ttl_seconds", "instance"
  event_info : Event → List Seat → ℕ → Str → Body
  snapshot : Snapshot → Body
  empty : Body

pub record Response : Type 0 where
  pub status : ℕ
  pub body : Body

-- The session header, empty if absent, and the seat id of a body that is JSON.
pub record SeatRequest : Type 0 where
  pub session : Str
  pub seat_id : Option ℤ

abbrev respond : ℕ → Body → Option Response
respond status body = some (record { status = status; body = body })

-- The map validSeats that Handler builds.
unfoldable pub valid_seats : List ℤ → List (ℤ × Bool) → List (ℤ × Bool)
valid_seats [] m = m
valid_seats (seat ∷ seats) m = valid_seats seats (insert seat true m)

unfoldable pub check_seat : Server → Str → ℤ → Response ⊎ (Str × ℤ)
unfolding valid_seats
check_seat s session seat =
    if is_some (lookup seat (valid_seats (ids_of_seats s.seats) []))
    then inr (session, seat)
    else inl (record { status = 404; body = failure (codes "unknown seat") (codes "no_such_seat") })

-- parseSeatRequest: the error response, or the session and the seat.
unfoldable pub parse_seat_request : Server → SeatRequest → Response ⊎ (Str × ℤ)
unfolding check_seat
parse_seat_request s r = elim r.session [
  | [] ↦ inl (record {
    status = 400;
    body = failure (codes "missing X-Session-Id header") (codes "no_session");
  })
  | ◌∷◌ c session ↦ elim r.seat_id [
    | none ↦
        inl (record {
          status = 400;
          body = failure (codes "invalid JSON body") (codes "bad_request");
        })
    | some seat ↦ check_seat s (c ∷ session) seat
  ]
]

abbrev unavailable : Option Response
unavailable =
    respond 503
      (failure (codes "seat service temporarily unavailable, please retry") (codes "unavailable"))

-- The UTF-8 of a long dash.
abbrev pub dash : Str
dash = 226 ∷ 128 ∷ 148 ∷ []

unfoldable pub hold_response : ℤ → Result (Outcome × ℕ) → Option Response
hold_response seat (err e) = unavailable
hold_response seat (ok (held, expires)) = respond 200 (held_until (codes "held") seat expires)
hold_response seat (ok (taken, expires)) =
    respond 409 (refused (codes "taken") seat (codes "someone grabbed this seat first"))
hold_response seat (ok (seat_booked, expires)) =
    respond 409 (refused (codes "seat_booked") seat (codes "this seat is already sold"))
hold_response seat (ok (_, expires)) = none

unfoldable pub confirm_response : ℤ → Result Outcome → Option Response
confirm_response seat (err e) = unavailable
confirm_response seat (ok confirmed) = respond 200 (done (codes "confirmed") seat)
confirm_response seat (ok already_mine) = respond 200 (done (codes "already_mine") seat)
confirm_response seat (ok conflict) =
    respond 409 (refused (codes "conflict") seat (codes "this seat belongs to someone else"))
confirm_response seat (ok hold_expired) = respond 409 (
    refused (codes "hold_expired") seat
      (codes "your hold expired " ++ dash ++ codes " the seat is open again"))
confirm_response seat (ok _) = none

-- The booking.Service that main.go makes with the same settings.
abbrev pub bookings : Server → BookingService
bookings s = record { event_id = s.event.id; instance_id = s.instance_id; hold_ttl = s.hold_ttl }

unfoldable pub hold_parsed : Server → Response ⊎ (Str × ℤ) → Prog (Option Response)
unfolding hold_response
hold_parsed s (inl bad) = ret (some bad)
hold_parsed s (inr (session, seat)) =
    hold (bookings s) seat session >>= λ out. ret (hold_response seat out)

unfoldable pub handle_hold : Server → SeatRequest → Prog (Option Response)
unfolding parse_seat_request hold_parsed
handle_hold s r = hold_parsed s (parse_seat_request s r)

unfoldable pub confirm_parsed : Server → Response ⊎ (Str × ℤ) → Prog (Option Response)
unfolding confirm_response
confirm_parsed s (inl bad) = ret (some bad)
confirm_parsed s (inr (session, seat)) =
    confirm (bookings s) seat session >>= λ out. ret (confirm_response seat out)

unfoldable pub handle_confirm : Server → SeatRequest → Prog (Option Response)
unfolding parse_seat_request confirm_parsed
handle_confirm s r = confirm_parsed s (parse_seat_request s r)

unfoldable pub difference : ℕ → ℕ → ℤ
difference a b = if leb b a then pos (a - b) else negsuc (b - a - 1)

unfoldable pub stats_response : Result (ℕ × ℕ) → Option Response
unfolding difference
stats_response (err e) =
    respond 503 (failure (codes "could not read booking stats") (codes "unavailable"))
stats_response (ok (total, distinct)) =
    respond 200 (counts total distinct (difference total distinct))

unfoldable pub handle_stats : Server → Prog (Option Response)
unfolding stats_response
handle_stats s = booking_stats s.event.id >>= λ r. ret (stats_response r)

is_ok : {A : Type 0} → Result A → Bool
is_ok (ok _) = true
is_ok (err _) = false

-- Postgres answered the ping, whether Redis did, and how many clients the hub has.
unfoldable pub handle_health : Server → ℕ → Prog (Option Response)
unfolding is_ok
handle_health s clients = do
  pg ← ping
  redis ← healthy
  ret (respond 200 (health (codes "ok") s.instance_id (is_ok pg) redis clients))

unfoldable pub handle_event : Server → Prog (Option Response)
handle_event s = ret (respond 200 (event_info s.event s.seats (s.hold_ttl / second) s.instance_id))

unfoldable pub state_response : Result Snapshot → Option Response
state_response (err e) =
    respond 503 (failure (codes "could not build seat state") (codes "unavailable"))
state_response (ok snap) = respond 200 (snapshot snap)

-- With the fuel of HeldSeats; `none` outside is fuel that ran out.
unfoldable pub handle_state : Server → ℕ → Prog (Option (Option Response))
unfolding state_response
handle_state s fuel = do
  built ← build_snapshot s fuel
  ret (elim built [ none ↦ none | some r ↦ some (state_response r) ])
