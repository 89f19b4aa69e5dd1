-- ===== src/Booking/Guard.antt =====
-- backend/booking/booking.go: the calls that Confirm makes.
use grab_seat.Base.{
  ℕ, suc, ◌≤◌, Bool, true, false, ◌≡◌, refl, inl, inr, List, [], ◌∷◌, Bool-cases, Any, length,
  arith,
}
use grab_seat.Base.Int.{ℤ}
use grab_seat.Base.Text.{Str, str_eq, str_eq→eq}
use grab_seat.Service.{redis_nil, Result, ok, err, insert_booking, select_owner, Event, ◌>>=◌}
use grab_seat.Service.Paths.{Ensures}
use grab_seat.Locking.{hold_owner, mark_booked, publish_event}
use grab_seat.Store.{confirm_booking, booking_owner, read_back, is_no_rows}
use grab_seat.Booking.{BookingService, resolve, announce, settle, book, confirm}
use grab_seat.Booking.Paths.{HeldBy}

-- An insert in the history is for this seat, event and session, and comes after a reading of the
-- hold that returned the session.
abbrev pub Allowed : BookingService → ℤ → Str → List Event → Event → Type 0
Allowed b seat session before (insert_booking e s t, _) =
    (e ≡ b.event_id) × (s ≡ seat) × (t ≡ session) × Any (HeldBy seat session) before
Allowed b seat session before _ = Unit

abbrev pub Guarded : BookingService → ℤ → Str → List Event → Type 0
Guarded b seat session [] = Unit
Guarded b seat session (e ∷ es) = Allowed b seat session es e × Guarded b seat session es

-- The calls of a request are few, and the inserts among them are guarded.
abbrev pub Careful : ℕ → BookingService → ℤ → Str → List Event → Type 0
Careful n b seat session es = Guarded b seat session es × (length es ≤ n)

Careful-read :
    (n : ℕ) (b : BookingService) (seat : ℤ) (session : Str) (s : ℤ) (r : Result Str)
    (es : List Event)
    → Careful n b seat session es
    → Careful (suc n) b seat session ((select_owner s, r) ∷ es)
Careful-read n b seat session s r es (g, few) = ((tt, g), omega arith)

resolve-Careful :
    (b : BookingService) (seat : ℤ) (session : Str) (es : List Event) (is_held : Bool)
    → Careful 3 b seat session es
    → Ensures (λ fs _. Careful 4 b seat session fs) es (resolve seat session is_held)
unfolding resolve booking_owner
resolve-Careful b seat session es is_held h = λ r. Careful-read 3 b seat session seat r es h

announce-Careful :
    (b : BookingService) (seat : ℤ) (session : Str) (es : List Event)
    → Careful 2 b seat session es
    → Ensures (λ fs _. Careful 4 b seat session fs) es (announce b seat session)
unfolding announce mark_booked publish_event
announce-Careful b seat session es (g, few) = elim [
  | ok _ ↦ λ published. ((tt, (tt, g)), omega arith)
  | err _ ↦ λ published. ((tt, (tt, g)), omega arith)
]

read_back-Careful :
    (b : BookingService) (seat : ℤ) (session : Str) (es : List Event)
    → Careful 3 b seat session es
    → Ensures (λ fs _. Careful 4 b seat session fs) es (read_back seat >>= settle b seat session)
unfolding settle read_back
read_back-Careful b seat session es h = elim [
  | ok owner ↦
      let after = Careful-read 3 b seat session seat (ok owner) es h in
      elim (Bool-cases (str_eq owner session)) [
        | inl same ↦ rw same after
        | inr other ↦ rw other after
      ]
  | err e ↦ Careful-read 3 b seat session seat (err e) es h
]

book-Careful :
    (b : BookingService) (seat : ℤ) (session : Str) (es : List Event)
    → Any (HeldBy seat session) es
    → Careful 1 b seat session es
    → Ensures (λ fs _. Careful 4 b seat session fs) es (book b seat session)
unfolding book confirm_booking
book-Careful b seat session es mine (g, few) = elim [
  | ok owner ↦ announce-Careful b seat session _ (((refl, refl, refl, mine), g), omega arith)
  | err e ↦ elim (Bool-cases (is_no_rows e)) [
    | inl none_found ↦
        rw none_found
          (read_back-Careful b seat session _ (((refl, refl, refl, mine), g), omega arith))
    | inr failed ↦ rw failed (((refl, refl, refl, mine), g), omega arith)
  ]
]

-- Whatever the services reply, Confirm makes at most four calls, and every insert that it sends is
-- for the given seat, event and session and follows a reading of the hold that returned the session.
pub confirm-Careful :
    (b : BookingService) (seat : ℤ) (session : Str)
    → Ensures (λ es _. Careful 4 b seat session es) [] (confirm b seat session)
unfolding confirm hold_owner
confirm-Careful b seat session = elim [
  | ok v ↦ elim (Bool-cases (str_eq v session)) [
    | inl mine ↦ rw mine (
        book-Careful b seat session _ (inl (refl, str_eq→eq v session mine))
          ((tt, tt), omega arith))
    | inr other ↦ rw other (resolve-Careful b seat session _ true ((tt, tt), omega arith))
  ]
  | err redis_nil ↦ resolve-Careful b seat session _ false ((tt, tt), omega arith)
  | err _ ↦ ((tt, tt), omega arith)
]
