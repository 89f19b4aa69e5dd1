-- ===== src/Model.antt =====
-- backend/model/model.go: the values that the components pass to one another. JSON names are the
-- field names; an `omitempty` field is the empty text or 0.
use grab_seat.Base.{ℕ, Bool, List}
use grab_seat.Base.Int.{ℤ}
use grab_seat.Base.Text.{Str, codes}

abbrev pub status_available : Str
status_available = codes "available"

abbrev pub status_held : Str
status_held = codes "held"

abbrev pub status_booked : Str
status_booked = codes "booked"

abbrev pub msg_snapshot : Str
msg_snapshot = codes "snapshot"

abbrev pub msg_held : Str
msg_held = codes "held"

abbrev pub msg_booked : Str
msg_booked = codes "booked"

abbrev pub msg_freed : Str
msg_freed = codes "freed"

pub record Seat : Type 0 where
  pub id : ℤ
  pub section : Str
  pub row_label : Str
  pub seat_number : ℕ
  pub price_cents : ℕ
  pub position : ℕ

pub record SeatState : Type 0 where
  pub seat_id : ℤ
  pub status : Str
  pub held_by : Str
  pub booked_by : Str
  pub expires_at_ms : ℕ

pub record SeatEvent : Type 0 where
  pub type : Str
  pub seat_id : ℤ
  pub status : Str
  pub held_by : Str
  pub booked_by : Str
  pub expires_at_ms : ℕ
  pub served_by : Str

pub record Snapshot : Type 0 where
  pub type : Str
  pub instance_id : Str
  pub hold_ttl_seconds : ℕ
  pub server_time_ms : ℕ
  pub seats : List SeatState
  pub redis_healthy : Bool
