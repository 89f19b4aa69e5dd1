-- ===== src/Booking/Paths.antt =====
-- What the calls of Hold and Confirm have shown by the time an outcome is returned, whatever Redis
-- and Postgres reply.
use grab_seat.Base.{
  Bool, true, false, ◌≡◌, ◌≢◌, refl, ◌⊎◌, inl, inr, List, [], ◌∷◌, Bool-cases, Any, if◌then◌else◌,
}
use grab_seat.Base.Int.{ℤ}
use grab_seat.Base.Text.{Str, str_eq, str_eq→eq, str_eq→ne}
use grab_seat.Service.{
  Error, redis_nil, Result, ok, err, get, insert_booking, select_owner, Event, ◌>>=◌,
}
use grab_seat.Service.Paths.{Ensures}
use grab_seat.Locking.{hold_owner, mark_booked, publish_event}
use grab_seat.Locking.Keys.{hold_key}
use grab_seat.Store.{confirm_booking, booking_owner, read_back, is_no_rows}
use grab_seat.Booking.{
  Outcome, confirmed, already_mine, conflict, hold_expired, BookingService, resolve, announce,
  settle, book, confirm,
}

-- The event inserted a row for the seat and session; it read the seat's owner; and so on.
abbrev pub Won : ℤ → Str → Event → Type 0
Won seat session (insert_booking _ s t, ok _) = (s ≡ seat) × (t ≡ session)
Won seat session _ = ⊥

abbrev pub Owned : ℤ → Str → Event → Type 0
Owned seat session (select_owner s, ok o) = (s ≡ seat) × (o ≡ session)
Owned seat session _ = ⊥

abbrev pub OwnedByOther : ℤ → Str → Event → Type 0
OwnedByOther seat session (select_owner s, ok o) = (s ≡ seat) × (o ≢ session)
OwnedByOther seat session _ = ⊥

abbrev pub NotBooked : ℤ → Event → Type 0
NotBooked seat (select_owner s, err e) = (s ≡ seat) × (is_no_rows e ≡ true)
NotBooked seat _ = ⊥

abbrev pub HeldBy : ℤ → Str → Event → Type 0
HeldBy seat session (get k, ok v) = (k ≡ hold_key seat) × (v ≡ session)
HeldBy seat session _ = ⊥

abbrev pub HeldByOther : ℤ → Str → Event → Type 0
HeldByOther seat session (get k, ok v) = (k ≡ hold_key seat) × (v ≢ session)
HeldByOther seat session _ = ⊥

abbrev pub NotHeld : ℤ → Event → Type 0
NotHeld seat (get k, err e) = (k ≡ hold_key seat) × (e ≡ redis_nil)
NotHeld seat _ = ⊥

abbrev pub Backed : ℤ → Str → List Event → Result Outcome → Type 0
Backed seat session es (ok confirmed) = Any (Won seat session) es
Backed seat session es (ok already_mine) = Any (Owned seat session) es
Backed seat session es (ok conflict) =
    Any (OwnedByOther seat session) es
    ⊎ (Any (NotBooked seat) es × Any (HeldByOther seat session) es)
Backed seat session es (ok hold_expired) = Any (NotBooked seat) es × Any (NotHeld seat) es
Backed seat session es (ok _) = ⊥
Backed seat session es (err _) = Unit

-- What the first call of Confirm showed where the caller is not the holder.
abbrev NotHolder : ℤ → Str → List Event → Bool → Type 0
NotHolder seat session es true = Any (HeldByOther seat session) es
NotHolder seat session es false = Any (NotHeld seat) es

unbooked_Backed :
    (seat : ℤ) (session : Str) (es : List Event) (is_held : Bool) (e : Error)
    → NotHolder seat session es is_held
    → is_no_rows e ≡ true
    → Backed seat session
        ((select_owner seat, err e) ∷ es)
        (if is_held then ok conflict else ok hold_expired)
unbooked_Backed seat session es true e h none_found = inr (inl (refl, none_found), inr h)
unbooked_Backed seat session es false e h none_found = (inl (refl, none_found), inr h)

resolve-Backed :
    (seat : ℤ) (session : Str) (es : List Event) (is_held : Bool)
    → NotHolder seat session es is_held
    → Ensures (Backed seat session) es (resolve seat session is_held)
unfolding resolve booking_owner
resolve-Backed seat session es is_held h = elim [
  | ok owner ↦ elim (Bool-cases (str_eq owner session)) [
    | inl same ↦ rw same (inl (refl, str_eq→eq owner session same))
    | inr other ↦ rw other (inl (inl (refl, str_eq→ne owner session other)))
  ]
  | err e ↦ elim (Bool-cases (is_no_rows e)) [
    | inl none_found ↦ rw none_found (unbooked_Backed seat session es is_held e h none_found)
    | inr failed ↦ rw failed tt
  ]
]

announce-Backed :
    (s : BookingService) (seat : ℤ) (session : Str) (es : List Event)
    → Any (Won seat session) es
    → Ensures (Backed seat session) es (announce s seat session)
unfolding announce mark_booked publish_event
announce-Backed s seat session es h = elim [
  | ok _ ↦ λ published. inr (inr h)
  | err _ ↦ λ published. inr (inr h)
]

read_back-Backed :
    (s : BookingService) (seat : ℤ) (session : Str) (es : List Event)
    → Ensures (Backed seat session) es (read_back seat >>= settle s seat session)
unfolding settle read_back
read_back-Backed s seat session es = elim [
  | ok owner ↦ elim (Bool-cases (str_eq owner session)) [
    | inl same ↦ rw same (inl (refl, str_eq→eq owner session same))
    | inr other ↦ rw other (inl (inl (refl, str_eq→ne owner session other)))
  ]
  | err e ↦ tt
]

book-Backed :
    (s : BookingService) (seat : ℤ) (session : Str) (es : List Event)
    → Ensures (Backed seat session) es (book s seat session)
unfolding book confirm_booking
book-Backed s seat session es = elim [
  | ok owner ↦ announce-Backed s seat session _ (inl (refl, refl))
  | err e ↦ elim (Bool-cases (is_no_rows e)) [
    | inl none_found ↦ rw none_found (read_back-Backed s seat session _)
    | inr failed ↦ rw failed tt
  ]
]

-- Whatever the services reply, Confirm returns `confirmed` only after its own insert returned a
-- row, `already_mine` only after it read this session as the owner, `conflict` only after it read
-- another owner, or another holder and no booking, and `hold_expired` only after it found no hold
-- and no booking.
-- It returns none of Hold's outcomes.
pub confirm-Backed :
    (s : BookingService) (seat : ℤ) (session : Str)
    → Ensures (Backed seat session) [] (confirm s seat session)
unfolding confirm hold_owner
confirm-Backed s seat session = elim [
  | ok v ↦ elim (Bool-cases (str_eq v session)) [
    | inl mine ↦ rw mine (book-Backed s seat session _)
    | inr other ↦
        rw other (resolve-Backed seat session _ true (inl (refl, str_eq→ne v session other)))
  ]
  | err redis_nil ↦ resolve-Backed seat session _ false (inl (refl, refl))
  | err _ ↦ tt
]
