-- ===== src/Loadtest/Open.antt =====
-- loadtest/harness.go with backend/api/api.go: the seats that a load test takes, by what the backend
-- knows of them.
use grab_seat.Base.{
  Option, ℕ, ◌<◌, true, ◌||◌, ◌≡◌, refl, ◌∙◌, ap, subst, inl, inr, List, [], ◌∷◌, ◌++◌, none, some,
  is_some, ltb, length, Bool-cases, All, All-append, if◌then◌else◌,
}
use grab_seat.Base.Int.{ℤ, int_eq}
use grab_seat.Base.Text.{Str, codes, str_eq}
use grab_seat.Base.Assoc.{lookup}
use grab_seat.Model.{SeatState}
use grab_seat.Service.{ok, Event}
use grab_seat.Config.{Environment}
use grab_seat.Locking.Held.{Held, held_state}
use grab_seat.Locking.Listing.{Live, Faithful}
use grab_seat.Api.Snapshot.{Booked, booked_state, booked_states, open_holds, seat_states}
use grab_seat.Api.Merge.{view, shown, view-seat_states}
use grab_seat.Api.Honest.{Live-Keyed}
use grab_seat.Loadtest.{base_url, is_taken, available_seats}
use grab_seat.Loadtest.Available.{taken_in, free_seats, take, available_seats_lem}
use grab_seat.Loadtest.Client.{
  get_event, get_state, or_fatal, StateResponse, EventResponse, Got, Sent, get, Net, take_seats,
}

-- The seats that are neither booked nor held, in their order.
unfoldable pub open_seats : Booked → Held → List ℤ → List ℤ
open_seats booked held [] = []
open_seats booked held (seat ∷ seats) =
    let rest = open_seats booked held seats in
    if is_some (lookup seat booked) || is_some (lookup seat held) then rest else seat ∷ rest

abbrev AllTaken : List SeatState → Type 0
AllTaken = All (λ s. is_taken s ≡ true)

taken_in-view :
    (seat : ℤ) (states : List SeatState)
    → AllTaken states
    → taken_in seat states ≡ is_some (view seat states)
unfolding taken_in view
taken_in-view seat [] h = refl
taken_in-view seat (s ∷ states) (taken, h) =
    let ih = taken_in-view seat states h in
    elim (Bool-cases (int_eq s.seat_id seat)) [
      | inl same ↦ rw (same, taken) refl
      | inr other ↦ rw other ih
    ]

booked_states-AllTaken : (booked : Booked) → AllTaken (booked_states booked)
unfolding booked_states booked_state str_eq
booked_states-AllTaken [] = tt
booked_states-AllTaken (p ∷ booked) = (refl, booked_states-AllTaken booked)

open_holds-AllTaken :
    (es : List Event) (booked : Booked) (held : Held)
    → All (Live es) held
    → AllTaken (open_holds booked held)
unfolding open_holds held_state str_eq
open_holds-AllTaken es booked [] h = tt
open_holds-AllTaken es booked ((seat, st) ∷ held) ((is_held, read), h) =
    let rest = open_holds-AllTaken es booked held h in
    elim (Bool-cases (is_some (lookup seat booked))) [
      | inl sold ↦ rw sold rest
      | inr unsold ↦ rw unsold (ap is_taken is_held ∙ refl, rest)
    ]

is_some-shown :
    (k : ℤ) (session : Option Str) (st : Option SeatState)
    → is_some (shown k session st) ≡ (is_some session || is_some st)
unfolding shown
is_some-shown k none st = refl
is_some-shown k (some session) st = refl

taken_when_shown :
    (es : List Event) (booked : Booked) (held : Held) (seat : ℤ)
    → Faithful es held
    → taken_in seat (seat_states booked held)
      ≡ (is_some (lookup seat booked) || is_some (lookup seat held))
unfolding seat_states
taken_when_shown es booked held seat (once, live) =
    taken_in-view seat (seat_states booked held) (
      All-append (λ s. is_taken s ≡ true) (booked_states booked) (open_holds booked held)
        (booked_states-AllTaken booked) (open_holds-AllTaken es booked held live))
    ∙ (ap is_some (view-seat_states seat booked held (Live-Keyed es held live))
        ∙ is_some-shown seat (lookup seat booked) (lookup seat held))

free_seats-open_seats :
    (es : List Event) (booked : Booked) (held : Held) (seats : List ℤ)
    → Faithful es held
    → free_seats (seat_states booked held) seats ≡ open_seats booked held seats
unfolding free_seats open_seats
free_seats-open_seats es booked held [] h = refl
free_seats-open_seats es booked held (seat ∷ seats) h =
    rw (taken_when_shown es booked held seat h, free_seats-open_seats es booked held seats h) refl

abbrev asked : Environment → Str → Sent
asked env path = record { method = get; url = base_url env ++ path; headers = []; body = [] }

-- The backend answers both requests of a load test, and its JSON is decoded again: the seats of the
-- event, and the states of a snapshot over a map of bookings and a map of holds as HeldSeats returns
-- it. Then the test takes, for n positive, the first n seats of the event, in their order, that are
-- neither booked nor held; it fails exactly when there are fewer.
pub take_seats_lem :
    (N : Net) (env : Environment) (n : ℕ) (es : List Event) (booked : Booked) (held : Held)
    (ev st : Got) (event : EventResponse) (state : StateResponse)
    → 0 < n
    → Faithful es held
    → N.send (asked env (codes "/api/event")) ≡ ok ev
    → N.decode_event ev.body ≡ ok event
    → N.send (asked env (codes "/api/state")) ≡ ok st
    → N.decode_state st.body ≡ ok state
    → state.seats ≡ seat_states booked held
    → let free = open_seats booked held event.seats in
      take_seats N env n ≡ (if ltb (length free) n then none else some (take n free))
unfolding take_seats get_event get_state or_fatal
take_seats_lem N env n es booked held ev st event state positive h sent decoded asked_state read
      same =
    rw (sent, decoded, asked_state, read, same)
      (subst
        (λ free.
          available_seats n event.seats (seat_states booked held)
          ≡ (if ltb (length free) n then none else some (take n free)))
        (free_seats-open_seats es booked held event.seats h)
        (available_seats_lem n event.seats (seat_states booked held) positive))
