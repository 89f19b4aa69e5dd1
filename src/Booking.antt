-- ===== src/Booking.antt =====
-- backend/booking/booking.go: hold a seat, confirm a hold. Spans and log lines are left out.
pub mod Paths
pub mod Guard
pub mod Keyed
use grab_seat.Base.{ℕ, Bool, true, false, not, ◌||◌, ◌&&◌, [], if◌then◌else◌}
use grab_seat.Base.Int.{ℤ}
use grab_seat.Base.Text.{Str, codes, str_eq}
use grab_seat.Model.{SeatEvent, msg_held, msg_booked, status_held, status_booked}
use grab_seat.Service.{wrapped, Result, ok, err, Prog, ret, ◌>>=◌, ◌>>◌}
use grab_seat.Locking.{try_hold, hold_owner, mark_booked, publish_event}
use grab_seat.Locking.Keys.{hold_acquired, hold_booked}
use grab_seat.Store.{confirm_booking, booking_owner}

pub data Outcome : Type 0 where
  held taken seat_booked confirmed already_mine conflict hold_expired : Outcome

-- The fields of booking.Service that are data; the store and the lock are Service's calls.
pub record BookingService : Type 0 where
  pub event_id : ℤ
  pub instance_id : Str
  pub hold_ttl : ℕ

unfoldable pub held_event : BookingService → ℤ → Str → ℕ → SeatEvent
held_event s seat session expires = record {
  type = msg_held;
  seat_id = seat;
  status = status_held;
  held_by = session;
  booked_by = [];
  expires_at_ms = expires;
  served_by = s.instance_id;
}

unfoldable pub booked_event : BookingService → ℤ → Str → SeatEvent
booked_event s seat session = record {
  type = msg_booked;
  seat_id = seat;
  status = status_booked;
  held_by = [];
  booked_by = session;
  expires_at_ms = 0;
  served_by = s.instance_id;
}

-- What Hold does with the result of TryHold. A failed broadcast is only logged.
unfoldable pub after_try : BookingService → ℤ → Str → Result (Str × ℕ) → Prog (Result (Outcome × ℕ))
after_try s seat session (err e) = ret (err (wrapped (codes "hold") e))
after_try s seat session (ok (res, expires)) =
    if str_eq res hold_acquired
    then (publish_event (held_event s seat session expires) >>= λ _. ret (ok (held, expires)))
    else if str_eq res hold_booked
    then ret (ok (seat_booked, 0))
    else ret (ok (taken, 0))

-- Hold: the outcome and the expiry.
unfoldable pub hold : BookingService → ℤ → Str → Prog (Result (Outcome × ℕ))
unfolding after_try
hold s seat session = do tried ← try_hold seat session s.hold_ttl; after_try s seat session tried

-- The answer for the owner that was looked up, by a caller who is not the holder.
unfoldable pub from_record : Str → Bool → Result (Str × Bool) → Result Outcome
from_record session is_held (err e) = err (wrapped (codes "lookup booking") e)
from_record session is_held (ok (owner, found)) =
    if found && str_eq owner session
    then ok already_mine
    else if found
    then ok conflict
    else if is_held
    then ok conflict
    else ok hold_expired

-- The caller is not the holder: look the outcome up, and write nothing.
unfoldable pub resolve : ℤ → Str → Bool → Prog (Result Outcome)
unfolding from_record
resolve seat session is_held = do
  looked_up ← booking_owner seat
  ret (from_record session is_held looked_up)

-- The row was written just now: flip the cache and tell everyone. Failures are only logged.
unfoldable pub announce : BookingService → ℤ → Str → Prog (Result Outcome)
announce s seat session = do
  marked ← mark_booked seat session
  published ← publish_event (booked_event s seat session)
  ret (ok confirmed)

-- What the insert showed decides.
unfoldable pub settle : BookingService → ℤ → Str → Result (Bool × Str) → Prog (Result Outcome)
unfolding announce
settle s seat session (err e) = ret (err (wrapped (codes "confirm booking") e))
settle s seat session (ok (inserted, owner)) =
    if inserted
    then announce s seat session
    else if str_eq owner session
    then ret (ok already_mine)
    else ret (ok conflict)

-- The caller holds the seat.
unfoldable pub book : BookingService → ℤ → Str → Prog (Result Outcome)
unfolding settle
book s seat session = confirm_booking s.event_id seat session >>= settle s seat session

-- What Confirm does with the result of HoldOwner.
unfoldable pub after_check : BookingService → ℤ → Str → Result (Str × Bool) → Prog (Result Outcome)
unfolding resolve book
after_check s seat session (err e) = ret (err (wrapped (codes "check hold") e))
after_check s seat session (ok (holder, is_held)) =
    if not is_held || not (str_eq holder session)
    then resolve seat session is_held
    else book s seat session

-- Confirm
unfoldable pub confirm : BookingService → ℤ → Str → Prog (Result Outcome)
unfolding after_check
confirm s seat session = do checked ← hold_owner seat; after_check s seat session checked
