-- ===== src/Store/Venue.antt =====
-- backend/store/store.go: the event and the seats, as they are read at the start. The id of a row is
-- the number that its table gave it. Postgres may refuse a query, and pgx the scan of a row.
pub mod Order
use grab_seat.Base.{ℕ, suc, Bool, List, [], ◌∷◌, ◌++◌, Option, none, some, leb, if◌then◌else◌}
use grab_seat.Base.Int.{ℤ, int_eq, int_ltb}
use grab_seat.Base.Text.{Str}
use grab_seat.Model.{Seat}
use grab_seat.Service.{Error, no_rows, Result, ok, err}

-- The start of the event is in nanoseconds.
pub record Event : Type 0 where
  pub id : ℤ
  pub slug : Str
  pub name : Str
  pub venue : Str
  pub starts_at : ℕ

-- The columns that an INSERT INTO seats gives.
pub record SeatRow : Type 0 where
  pub event_id : ℤ
  pub section : Str
  pub row_label : Str
  pub seat_number : ℕ
  pub price_cents : ℕ
  pub position : ℕ

unfoldable pub earlier : Event → Option Event → Event
earlier e none = e
earlier e (some f) = if int_ltb f.id e.id then f else e

-- SELECT ... FROM events ORDER BY id LIMIT 1
unfoldable pub primary_query : List Event → Option Event
unfolding earlier
primary_query [] = none
primary_query (e ∷ events) = some (earlier e (primary_query events))

unfoldable pub one_event : Option Event → Result Event
one_event none = err no_rows
one_event (some e) = ok e

-- PrimaryEvent
unfoldable pub primary_event : Option Error → List Event → Result Event
unfolding primary_query one_event
primary_event (some e) events = err e
primary_event none events = one_event (primary_query events)

-- A row of the table of seats, with its id.
abbrev pub Stored : Type 0
Stored = ℤ × SeatRow

abbrev pub position_of : Stored → ℕ
position_of (id, row) = row.position

-- The table: the ids are the serial numbers of its rows.
unfoldable pub numbered : (ℕ → ℤ) → ℕ → List SeatRow → List Stored
numbered serial n [] = []
numbered serial n (row ∷ rows) = (serial n, row) ∷ numbered serial (suc n) rows

-- WHERE event_id = $1
unfoldable pub seats_of_event : ℤ → List Stored → List Stored
seats_of_event event [] = []
seats_of_event event ((id, row) ∷ rows) =
    let rest = seats_of_event event rows in
    if int_eq row.event_id event then (id, row) ∷ rest else rest

unfoldable pub insert_by_position : Stored → List Stored → List Stored
insert_by_position s [] = s ∷ []
insert_by_position s (t ∷ ts) =
    let rest = insert_by_position s ts in
    if leb (position_of s) (position_of t) then s ∷ t ∷ ts else t ∷ rest

-- ORDER BY position
unfoldable pub order_by_position : List Stored → List Stored
unfolding insert_by_position
order_by_position [] = []
order_by_position (s ∷ ss) = insert_by_position s (order_by_position ss)

-- SELECT id, section, ... FROM seats WHERE event_id = $1 ORDER BY position
unfoldable pub seats_query : ℤ → List Stored → List Stored
unfolding seats_of_event order_by_position
seats_query event rows = order_by_position (seats_of_event event rows)

abbrev pub seat_of : Stored → Seat
seat_of (id, row) = record {
  id = id;
  section = row.section;
  row_label = row.row_label;
  seat_number = row.seat_number;
  price_cents = row.price_cents;
  position = row.position;
}

-- What can go wrong: the query, the scan of a row, and the rows at their end.
pub record SeatFailures : Type 0 where
  pub query : Option Error
  pub scan : Stored → Option Error
  pub rows : Option Error

abbrev pub ended : Option Error → List Seat → Result (List Seat)
ended none seats = ok seats
ended (some e) seats = err e

scan_seat : Option Error → Seat → (List Seat → Result (List Seat)) → List Seat → Result (List Seat)
scan_seat (some e) seat go out = err e
scan_seat none seat go out = go (out ++ (seat ∷ []))

-- The loop over the rows.
unfoldable pub scan_seats : SeatFailures → List Stored → List Seat → Result (List Seat)
unfolding scan_seat
scan_seats f [] out = ended f.rows out
scan_seats f (s ∷ ss) out = scan_seat (f.scan s) (seat_of s) (scan_seats f ss) out

query_seats : Option Error → SeatFailures → List Stored → Result (List Seat)
unfolding scan_seats
query_seats (some e) f rows = err e
query_seats none f rows = scan_seats f rows []

-- Seats
unfoldable pub seats : SeatFailures → ℤ → List Stored → Result (List Seat)
unfolding query_seats seats_query
seats f event rows = query_seats f.query f (seats_query event rows)
