-- ===== src/Store/Table.antt =====
-- The SELECT statements of backend/store/store.go over the rows of `bookings`.
use grab_seat.Base.{
  ℕ, ◌+◌, Bool, false, ◌||◌, List, [], ◌∷◌, Option, none, some, length, if◌then◌else◌,
}
use grab_seat.Base.Int.{ℤ, int_eq}
use grab_seat.Base.Text.{Str}
use grab_seat.Service.{no_rows, Result, ok, err}
use grab_seat.Service.Backends.{Booking, owner_of}

abbrev pub one_row : Option Str → Result Str
one_row none = err no_rows
one_row (some s) = ok s

-- SELECT session_id FROM bookings WHERE seat_id = $1
unfoldable pub owner_query : ℤ → List Booking → Result Str
owner_query seat rows = one_row (owner_of seat rows)

-- ... WHERE event_id = $1
unfoldable pub of_event : ℤ → List Booking → List Booking
of_event event [] = []
of_event event (b ∷ bs) =
    let rest = of_event event bs in if int_eq b.event_id event then b ∷ rest else rest

unfoldable pub project : List Booking → List (ℤ × Str)
project [] = []
project (b ∷ bs) = (b.seat_id, b.session_id) ∷ project bs

-- SELECT seat_id, session_id FROM bookings WHERE event_id = $1
unfoldable pub booked_query : ℤ → List Booking → List (ℤ × Str)
booked_query event rows = project (of_event event rows)

unfoldable pub has_seat : ℤ → List Booking → Bool
has_seat seat [] = false
has_seat seat (b ∷ bs) = int_eq b.seat_id seat || has_seat seat bs

-- count(DISTINCT seat_id)
unfoldable pub distinct_seats : List Booking → ℕ
distinct_seats [] = 0
distinct_seats (b ∷ bs) = (if has_seat b.seat_id bs then 0 else 1) + distinct_seats bs

-- SELECT count(*), count(DISTINCT seat_id) FROM bookings WHERE event_id = $1
unfoldable pub stats_query : ℤ → List Booking → ℕ × ℕ
stats_query event rows = (length (of_event event rows), distinct_seats (of_event event rows))
