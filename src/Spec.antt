-- ===== src/Spec.antt =====
-- What backend/booking/booking.go promises for one seat, with no keys, links or calls: what the two
-- operations do to the hold, the booked marker and the owner of the seat, what they answer, and what
-- they tell the other clients. Spec.Hold and Spec.Confirm relate the code to it.
pub mod Hold
pub mod Booked
pub mod Confirm
pub mod Journey
pub mod Purchase
pub mod Expiry
use grab_seat.Base.{
  ℕ, ◌+◌, ◌/◌, ◌≡◌, ◌≢◌, refl, ◌++◌, Bool, true, false, List, [], ◌∷◌, Option, none, some,
  if◌then◌else◌,
}
use grab_seat.Base.Int.{ℤ}
use grab_seat.Base.Text.{Str, str_eq}
use grab_seat.Model.{SeatEvent}
use grab_seat.Service.Backends.{Redis, Postgres}
use grab_seat.Locking.{millisecond}
use grab_seat.Locking.Keys.{hold_key, booked_key}
use grab_seat.Booking.{
  Outcome, held, taken, seat_booked, confirmed, already_mine, conflict, hold_expired,
  BookingService, held_event, booked_event,
}
use grab_seat.World.{World}
use grab_seat.World.Bookings.{owner}

pub record SeatView : Type 0 where
  pub holder : Option Str
  pub marker : Option Str
  pub owned_by : Option Str

abbrev pub seat_view : (R : Redis) (P : Postgres) → World R P → ℤ → SeatView
seat_view R P w seat = record {
  holder = R.find w.redis (hold_key seat);
  marker = R.find w.redis (booked_key seat);
  owned_by = owner P seat w.db;
}

pub record Effect : Type 0 where
  pub outcome : Outcome
  pub expires : ℕ
  pub told : List SeatEvent
  pub after : SeatView

abbrev pub quietly : Outcome → SeatView → Effect
quietly o v = record { outcome = o; expires = 0; told = []; after = v }

-- A seat is held if it is neither marked as booked nor held, also by the same session.
unfoldable pub hold_step : BookingService → ℤ → Str → ℕ → SeatView → Effect
hold_step b seat session clock v = elim v.marker [
  | some _ ↦ quietly seat_booked v
  | none ↦ elim v.holder [
    | some _ ↦ quietly taken v
    | none ↦
        let expires = (clock + b.hold_ttl) / millisecond in
        record {
          outcome = held;
          expires = expires;
          told = held_event b seat session expires ∷ [];
          after = record v { holder = some session };
        }
  ]
]

abbrev pub owner_outcome : Str → Str → Outcome
owner_outcome o session = if str_eq o session then already_mine else conflict

-- The holder books the seat, if nobody owns it. Anyone else is told who it belongs to.
unfoldable pub confirm_step : BookingService → ℤ → Str → SeatView → Effect
confirm_step b seat session v = elim v.owned_by [
  | some o ↦ quietly (owner_outcome o session) v
  | none ↦ elim v.holder [
    | none ↦ quietly hold_expired v
    | some h ↦
        if str_eq h session
        then record {
          outcome = confirmed;
          expires = 0;
          told = booked_event b seat session ∷ [];
          after = record { holder = none; marker = some session; owned_by = some session };
        }
        else quietly conflict v
  ]
]

-- From `w` to `w'` the effect took place, its messages the last first, and no other seat changed.
pub record Implements (R : Redis) (P : Postgres) (seat : ℤ) (e : Effect) (w w' : World R P)
    : Type 0 where
  pub messages : w'.channel ≡ e.told ++ w.channel
  pub this_seat : seat_view R P w' seat ≡ e.after
  pub other_seats : (x : ℤ) → seat ≢ x → seat_view R P w' x ≡ seat_view R P w x

pub quietly-Implements :
    (R : Redis) (P : Postgres) (seat : ℤ) (o : Outcome) (w : World R P)
    → Implements R P seat (quietly o (seat_view R P w seat)) w w
quietly-Implements R P seat o w = record {
  messages = refl;
  this_seat = refl;
  other_seats = λ x apart. refl;
}
