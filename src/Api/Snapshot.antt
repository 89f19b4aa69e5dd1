-- ===== src/Api/Snapshot.antt =====
-- backend/api/api.go: BuildSnapshot. A Go map is an association list with each key once, and its
-- iteration order is the list's.
use grab_seat.Base.{
  ℕ, ◌/◌, ◌++◌, map, Bool, true, false, List, [], ◌∷◌, Option, none, some, is_some, if◌then◌else◌,
}
use grab_seat.Base.Int.{ℤ}
use grab_seat.Base.Text.{Str}
use grab_seat.Base.Assoc.{lookup}
use grab_seat.Store.Venue.{Event}
use grab_seat.Model.{Seat, SeatState, Snapshot, status_booked, msg_snapshot}
use grab_seat.Service.{Result, ok, err, now, Prog, ret, call, ◌>>=◌}
use grab_seat.Locking.{second, millisecond}
use grab_seat.Locking.Held.{Held, held_seats}
use grab_seat.Store.{booked_seats}

-- The fields of api.Server that the handlers read.
pub record Server : Type 0 where
  pub event : Event
  pub instance_id : Str
  pub hold_ttl : ℕ
  pub allowed_origin : Str
  pub seats : List Seat

abbrev pub ids_of_seats : List Seat → List ℤ
ids_of_seats seats = map (λ (s : Seat). s.id) seats

-- Seats and the sessions that bought them.
abbrev pub Booked : Type 0
Booked = List (ℤ × Str)

unfoldable pub booked_state : ℤ → Str → SeatState
booked_state seat session = record {
  seat_id = seat;
  status = status_booked;
  held_by = [];
  booked_by = session;
  expires_at_ms = 0;
}

unfoldable pub booked_states : Booked → List SeatState
unfolding booked_state
booked_states [] = []
booked_states ((seat, session) ∷ rest) = booked_state seat session ∷ booked_states rest

-- Booked wins over a stale hold.
unfoldable pub open_holds : Booked → Held → List SeatState
open_holds booked [] = []
open_holds booked ((seat, st) ∷ held) =
    let rest = open_holds booked held in if is_some (lookup seat booked) then rest else st ∷ rest

unfoldable pub seat_states : Booked → Held → List SeatState
unfolding booked_states open_holds
seat_states booked held = booked_states booked ++ open_holds booked held

unfoldable pub snapshot_of : Server → ℕ → Booked → Held → Bool → Snapshot
unfolding seat_states
snapshot_of s t booked held redis_healthy = record {
  type = msg_snapshot;
  instance_id = s.instance_id;
  hold_ttl_seconds = s.hold_ttl / second;
  server_time_ms = t / millisecond;
  seats = seat_states booked held;
  redis_healthy = redis_healthy;
}

-- With the holds read, or with none if Redis failed.
unfoldable pub after_held : Server → Booked → Option (Result Held) → Prog (Option (Result Snapshot))
unfolding snapshot_of
after_held s booked none = ret none
after_held s booked (some (ok held)) =
    call now (λ t. ret (some (ok (snapshot_of s t booked held true))))
after_held s booked (some (err e)) =
    call now (λ t. ret (some (ok (snapshot_of s t booked [] false))))

unfoldable pub after_booked : Server → ℕ → Result Booked → Prog (Option (Result Snapshot))
unfolding after_held
after_booked s fuel (err e) = ret (some (err e))
after_booked s fuel (ok booked) = held_seats fuel >>= after_held s booked

-- BuildSnapshot, with the fuel of HeldSeats
unfoldable pub build_snapshot : Server → ℕ → Prog (Option (Result Snapshot))
unfolding after_booked
build_snapshot s fuel = booked_seats s.event.id >>= after_booked s fuel
