-- ===== src/Api/Honest.antt =====
-- backend/api/api.go: where the states in a snapshot come from.
use grab_seat.Base.{
  ℕ, Bool, true, false, ◌≡◌, refl, sym, subst, ap, ◌⊎◌, inl, inr, List, [], ◌∷◌, Option, none, some,
  All, Any, All-mono, All-append, is_some, Bool-cases,
}
use grab_seat.Base.Int.{ℤ}
use grab_seat.Base.Text.{Str}
use grab_seat.Base.Assoc.{lookup, insert, Unique, Unique-insert, All-insert}
use grab_seat.Model.{SeatState, Snapshot}
use grab_seat.Service.{Result, ok, err, select_booked, now, Event}
use grab_seat.Service.Paths.{Ensures, Ensures-bind, Ensures-keeps, Ensures-both}
use grab_seat.Locking.Held.{Held, held_state, held_seats}
use grab_seat.Locking.Listing.{Names, Live, Faithful, FaithfulEnd, held_seats-Faithful}
use grab_seat.Store.{collect, booked_seats}
use grab_seat.Api.Snapshot.{
  Server, Booked, booked_state, booked_states, open_holds, seat_states, snapshot_of, after_held,
  after_booked, build_snapshot,
}
use grab_seat.Api.Merge.{Keyed, Once, seat_states-Once}

-- Postgres listed this booking among those of the event.
abbrev pub Listed : ℤ → ℤ × Str → Event → Type 0
Listed event p (select_booked e, ok rows) = (e ≡ event) × Any (λ q. q ≡ p) rows
Listed event p _ = ⊥

-- A state is a booking that Postgres listed or a hold that was read from Redis.
abbrev pub Shown : ℤ → List Event → SeatState → Type 0
Shown event es st =
    ((st ≡ booked_state st.seat_id st.booked_by) × Any (Listed event (st.seat_id, st.booked_by)) es)
    ⊎ ((st ≡ held_state st.seat_id st.held_by st.expires_at_ms)
        × Any (Names st.seat_id st.held_by) es)

abbrev pub IsBooked : SeatState → Type 0
IsBooked st = st ≡ booked_state st.seat_id st.booked_by

abbrev pub Honest : ℤ → List Event → Option (Result Snapshot) → Type 0
Honest event es (some (ok snap)) =
    Once snap.seats
    × All (Shown event es) snap.seats
    × (snap.redis_healthy ≡ false → All IsBooked snap.seats)
Honest event es _ = Unit

-- The map that BookedSeats returns: each seat once, each with a row of the reply.
abbrev AllListed : ℤ → List Event → Booked → Type 0
AllListed event es booked = Unique booked × All (λ p. Any (Listed event p) es) booked

collect-All :
    (P : ℤ × Str → Type 0) (rows out : Booked)
    → All P rows
    → Unique out × All P out
    → Unique (collect rows out) × All P (collect rows out)
unfolding collect
collect-All P [] out h o = o
collect-All P ((id, session) ∷ rows) out (p, h) (u, o) =
    collect-All P rows (insert id session out) h
      (Unique-insert id session out u, All-insert P id session out p o)

rows_listed : (rows : Booked) → All (λ p. Any (λ q. q ≡ p) rows) rows
rows_listed [] = tt
rows_listed (p ∷ rows) = (inl refl, All-mono _ _ (λ q h. inr h) rows (rows_listed rows))

Listed_once :
    (event : ℤ) (es : List Event) (rows : Booked)
    → AllListed event ((select_booked event, ok rows) ∷ es) (collect rows [])
Listed_once event es rows =
    collect-All (λ p. Any (Listed event p) ((select_booked event, ok rows) ∷ es)) rows []
      (All-mono _ _ (λ p h. inl (refl, h)) rows (rows_listed rows)) (tt, tt)

booked_states-Shown :
    (event : ℤ) (es : List Event) (booked : Booked)
    → All (λ p. Any (Listed event p) es) booked
    → All (Shown event es) (booked_states booked)
unfolding booked_states booked_state
booked_states-Shown event es [] h = tt
booked_states-Shown event es ((seat, session) ∷ booked) (p, h) =
    (inl (refl, p), booked_states-Shown event es booked h)

booked_states-IsBooked : (booked : Booked) → All IsBooked (booked_states booked)
unfolding booked_states booked_state
booked_states-IsBooked [] = tt
booked_states-IsBooked (p ∷ booked) = (refl, booked_states-IsBooked booked)

Live-Shown :
    (event : ℤ) (es : List Event) (seat : ℤ) (st : SeatState)
    → Live es (seat, st)
    → (st.seat_id ≡ seat) × Shown event es st
unfolding held_state
Live-Shown event es seat st (is_held, read) =
    let same : st.seat_id ≡ seat = ap (λ (u : SeatState). u.seat_id) is_held in
    (
      same,
      inr (
          subst (λ z. (st ≡ held_state z st.held_by st.expires_at_ms) × Any (Names z st.held_by) es)
            (sym same) (is_held, read)),
    )

pub Live-Keyed : (es : List Event) (held : Held) → All (Live es) held → Keyed held
Live-Keyed es [] h = tt
Live-Keyed es ((seat, st) ∷ held) (l, h) = ((Live-Shown seat es seat st l).0, Live-Keyed es held h)

open_holds-Shown :
    (event : ℤ) (es : List Event) (booked : Booked) (held : Held)
    → All (Live es) held
    → All (Shown event es) (open_holds booked held)
unfolding open_holds
open_holds-Shown event es booked [] h = tt
open_holds-Shown event es booked ((seat, st) ∷ held) (l, h) =
    elim (Bool-cases (is_some (lookup seat booked))) [
      | inl sold ↦ rw sold (open_holds-Shown event es booked held h)
      | inr unsold ↦
          rw unsold ((Live-Shown event es seat st l).1, open_holds-Shown event es booked held h)
    ]

states-Honest :
    (event : ℤ) (es : List Event) (booked : Booked) (held : Held)
    → AllListed event es booked
    → Faithful es held
    → Once (seat_states booked held) × All (Shown event es) (seat_states booked held)
unfolding seat_states
states-Honest event es booked held (b, listed) (u, live) = (
  seat_states-Once booked held b u (Live-Keyed es held live),
  All-append (Shown event es) (booked_states booked) (open_holds booked held)
      (booked_states-Shown event es booked listed) (open_holds-Shown event es booked held live),
)

AllListed-later :
    (event : ℤ) (e : Event) (es : List Event) (booked : Booked)
    → AllListed event es booked
    → AllListed event (e ∷ es) booked
AllListed-later event e es booked (u, listed) = (u, All-mono _ _ (λ p h. inr h) booked listed)

Faithful-now :
    (t : ℕ) (es : List Event) (held : Held) → Faithful es held → Faithful ((now, t) ∷ es) held
Faithful-now t es held (u, live) = (
  u,
  All-mono (Live es) (Live ((now, t) ∷ es)) (λ p (is_held, read). (is_held, inr read)) held live,
)

only_booked : (booked : Booked) → All IsBooked (seat_states booked [])
unfolding seat_states open_holds
only_booked booked =
    All-append IsBooked (booked_states booked) [] (booked_states-IsBooked booked) tt

snapshot_of-Honest :
    (s : Server) (t : ℕ) (es : List Event) (booked : Booked) (held : Held) (up : Bool)
    → AllListed s.event.id es booked
    → Faithful es held
    → (up ≡ false → held ≡ [])
    → Honest s.event.id ((now, t) ∷ es) (some (ok (snapshot_of s t booked held up)))
unfolding snapshot_of
snapshot_of-Honest s t es booked held up b h down =
    let (once, all_shown) =
      states-Honest s.event.id ((now, t) ∷ es) booked held
        (AllListed-later s.event.id (now, t) es booked b) (Faithful-now t es held h) in
    (
      once,
      all_shown,
      λ is_down.
          subst (λ z. All IsBooked (seat_states booked z)) (sym (down is_down))
            (only_booked booked),
    )

after_held-Honest :
    (s : Server) (booked : Booked) (r : Option (Result Held)) (es : List Event)
    → AllListed s.event.id es booked
    → FaithfulEnd es r
    → Ensures (Honest s.event.id) es (after_held s booked r)
unfolding after_held
after_held-Honest s booked none es b h = tt
after_held-Honest s booked (some (ok held)) es b h =
    λ t. snapshot_of-Honest s t es booked held true b h (λ no. cc)
after_held-Honest s booked (some (err e)) es b h =
    λ t. snapshot_of-Honest s t es booked [] false b (tt, tt) (λ _. refl)

after_booked-Honest :
    (s : Server) (fuel : ℕ) (es : List Event) (booked : Booked)
    → AllListed s.event.id es booked
    → Ensures (Honest s.event.id) es (after_booked s fuel (ok booked))
unfolding after_booked
after_booked-Honest s fuel es booked b =
    let J : List Event → Type 0 = λ fs. AllListed s.event.id fs booked in
    Ensures-bind (λ fs r. J fs × FaithfulEnd fs r) (Honest s.event.id) es (held_seats fuel)
      (after_held s booked)
      (Ensures-both (λ fs _. J fs) FaithfulEnd es (held_seats fuel)
        (Ensures-keeps J (λ e fs. AllListed-later s.event.id e fs booked) es (held_seats fuel) b)
        (held_seats-Faithful fuel es))
      (λ fs r (j, h). after_held-Honest s booked r fs j h)

-- Whatever the services reply, a snapshot has each seat at most once; each state in it is a booking
-- that Postgres listed for the event or a hold that was read from Redis while the snapshot was
-- built; and one that says Redis is down shows bookings alone.
pub build_snapshot-Honest :
    (s : Server) (fuel : ℕ) (es : List Event)
    → Ensures (Honest s.event.id) es (build_snapshot s fuel)
unfolding build_snapshot booked_seats after_booked
build_snapshot-Honest s fuel es = elim [
  | err e ↦ tt
  | ok rows ↦
      after_booked-Honest s fuel ((select_booked s.event.id, ok rows) ∷ es) (collect rows [])
        (Listed_once s.event.id es rows)
]
