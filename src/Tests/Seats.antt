-- ===== src/Tests/Seats.antt =====
-- Holds and confirmations of a seat, alone and interleaved.
use grab_seat.Base.{ℕ, ◌*◌, ◌/◌, ◌<◌, ◌≤◌, ◌≡◌, ◌≢◌, refl, List, [], ◌∷◌, arith}
use grab_seat.Base.Int.{ℤ, pos}
use grab_seat.Base.Text.{Str, codes, str_eq, str_eq→ne}
use grab_seat.Service.{ok}
use grab_seat.Locking.{second, millisecond}
use grab_seat.Booking.{held, taken, BookingService, hold, confirm}
use grab_seat.World.{World, delivered, refused, reply_lost, run, wait}
use grab_seat.Spec.{hold_step, confirm_step, seat_view}
use grab_seat.Spec.Hold.{hold_refines}
use grab_seat.Spec.Confirm.{confirm_refines}
use grab_seat.Spec.Journey.{hold_now}
use grab_seat.Spec.Expiry.{Lives, Ended, hold_lasts}
use grab_seat.System.{hold_request, confirm_request}
use grab_seat.Service.Paths.{Ensures}
use grab_seat.Booking.Paths.{Backed, confirm-Backed}
use grab_seat.Booking.Guard.{Careful, confirm-Careful}
use grab_seat.Tests.Memory.{redis, postgres, memory}
use grab_seat.Tests.Schedule.{Move, arrive, next_call, Reached, play, running}

abbrev pub alice : Str
alice = codes "sess_a"

abbrev pub bob : Str
bob = codes "sess_b"

abbrev pub house : BookingService
house = record { event_id = pos 1; instance_id = codes "backend-1"; hold_ttl = 120 * second }

abbrev pub seat : ℤ
seat = pos 7

abbrev pub opening : World redis postgres
opening = record { redis = []; db = []; channel = []; clock = 5 * second }

-- Alice holds and confirms the seat; the answers of both sessions.
abbrev held_by_alice : World redis postgres
held_by_alice = (run redis postgres (λ _. delivered) (hold house seat alice) opening).1

hold_answers :
    (run redis postgres (λ _. delivered) (hold house seat alice) opening).0 ≡ ok (held, 125000)
unfolding running
hold_answers = refl

bob_is_refused :
    (run redis postgres (λ _. delivered) (hold house seat bob) held_by_alice).0 ≡ ok (taken, 0)
unfolding running
bob_is_refused = refl

-- Both hold and confirm one seat, their calls interleaved.
abbrev race : List Move
race =
    arrive 0 (hold_request house seat alice)
    ∷ arrive 1 (hold_request house seat bob)
    ∷ next_call 0 delivered
    ∷ next_call 1 delivered
    ∷ next_call 0 delivered
    ∷ next_call 0 reply_lost
    ∷ arrive 2 (confirm_request house seat alice)
    ∷ arrive 3 (confirm_request house seat bob)
    ∷ arrive 4 (confirm_request house seat alice)
    ∷ next_call 2 delivered
    ∷ next_call 3 delivered
    ∷ next_call 4 delivered
    ∷ next_call 2 delivered
    ∷ next_call 4 delivered
    ∷ next_call 3 delivered
    ∷ next_call 2 refused
    ∷ next_call 4 delivered
    ∷ next_call 2 delivered
    ∷ []

abbrev pub raced : Reached redis postgres opening
raced = play redis postgres opening race

hold_refines_example :
    (run redis postgres (λ _. delivered) (hold house seat bob) held_by_alice).0
    ≡ ok (
      (hold_step house seat bob held_by_alice.clock
          (seat_view redis postgres held_by_alice seat)).outcome,
      (hold_step house seat bob held_by_alice.clock
          (seat_view redis postgres held_by_alice seat)).expires,
    )
hold_refines_example = (hold_refines redis postgres house seat bob held_by_alice (omega arith)).0

confirm_refines_example :
    (run redis postgres (λ _. delivered) (confirm house seat alice) held_by_alice).0
    ≡ ok (confirm_step house seat alice (seat_view redis postgres held_by_alice seat)).outcome
confirm_refines_example = (confirm_refines redis postgres house seat alice held_by_alice).0

-- The table already has Alice's booking, and Redis has lost it.
abbrev pub rebooked : World redis postgres
rebooked = record opening {
  db = record { seat_id = seat; event_id = pos 1; session_id = alice } ∷ [];
}

confirm-Backed_example : Ensures (Backed seat alice) [] (confirm house seat alice)
confirm-Backed_example = confirm-Backed house seat alice

confirm-Careful_example :
    Ensures (λ es _. Careful 4 house seat alice es) [] (confirm house seat alice)
confirm-Careful_example = confirm-Careful house seat alice

pub alice-ne-bob : alice ≢ bob
unfolding str_eq
alice-ne-bob = str_eq→ne alice bob refl

-- Ninety seconds after the hold.
abbrev half_way : World redis postgres
half_way = wait redis postgres 90000 (hold_now redis postgres house seat alice opening).1

hold_lasts_example :
    (expires : ℕ) × ((hold_now redis postgres house seat alice opening).0 ≡ ok (held, expires))
    × (half_way.clock / millisecond < expires → Lives redis postgres house seat alice bob half_way)
    × (expires ≤ half_way.clock / millisecond → Ended redis postgres house seat alice bob half_way)
unfolding memory
hold_lasts_example =
    hold_lasts redis postgres house seat alice bob opening 120 90000 (omega arith) refl refl
