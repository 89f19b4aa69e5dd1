-- ===== src/Api/Abstract.antt =====
-- backend/api/api.go: a Go map has no order, so the seat map of a snapshot as a function of the two
-- maps, with the order in which they are ranged over forgotten.
use mathlib.Core.Quot
use mathlib.Core.Quot.{Quot, Quot-set}
use grab_seat.Base.{◌≡◌, refl, sym, ◌∙◌, List, Option}
use grab_seat.Base.Int.{ℤ}
use grab_seat.Base.Text.{Str}
use grab_seat.Base.Assoc.{lookup, Unique}
use grab_seat.Model.{SeatState}
use grab_seat.Locking.Held.{Held}
use grab_seat.Api.Snapshot.{Booked, seat_states}
use grab_seat.Api.Merge.{view, Keyed, shown, view-seat_states, Once, seat_states-Once}

-- What a range over one of the maps gives: each key once, and each hold under its seat; and states
-- with each seat at most once.
abbrev pub BookedRange : Type 0
BookedRange = (b : Booked) × Unique b

abbrev pub HeldRange : Type 0
HeldRange = (h : Held) × Unique h × Keyed h

abbrev pub States : Type 0
States = (xs : List SeatState) × Once xs

-- Two ranges over one map; and two lists of states that show the same of every seat.
abbrev pub SameBooked : BookedRange → BookedRange → Type 0
SameBooked b c = (k : ℤ) → lookup k b.0 ≡ lookup k c.0

abbrev pub SameHeld : HeldRange → HeldRange → Type 0
SameHeld g h = (k : ℤ) → lookup k g.0 ≡ lookup k h.0

abbrev pub SameStates : States → States → Type 0
SameStates xs ys = (k : ℤ) → view k xs.0 ≡ view k ys.0

abbrev pub BookedMap : Type 0
BookedMap = Quot SameBooked

abbrev pub HeldMap : Type 0
HeldMap = Quot SameHeld

abbrev pub SeatMap : Type 0
SeatMap = Quot SameStates

-- BuildSnapshot's states, for one order of the two maps.
abbrev listed : BookedRange → HeldRange → States
listed (b, bu) (h, hu, hk) = (seat_states b h, seat_states-Once b h bu hu hk)

-- Whatever the order of the two ranges, the states show the same.
any_order :
    (b c : BookedRange) (g h : HeldRange)
    → SameBooked b c
    → SameHeld g h
    → SameStates (listed b g) (listed c h)
any_order (b, bu) (c, cu) (g, gu, gk) (h, hu, hk) same_b same_h k =
    view-seat_states k b g gk ∙ (rw (same_b k, same_h k) (sym (view-seat_states k c h hk)))

-- BuildSnapshot's states, for one order of the bookings, and for none.
states_over : BookedRange → HeldMap → SeatMap
states_over b =
    Quot.lift Quot-set (λ h. Quot.mk (listed b h))
      (λ g h same. Quot.sound (any_order b b g h (λ k. refl) same))

over_same :
    (b c : BookedRange) (hm : HeldMap) → SameBooked b c → states_over b hm ≡ states_over c hm
unfolding states_over
over_same b c hm same =
    Quot.ind {β = λ z. states_over b z ≡ states_over c z} (λ z. Quot-set _ _)
      (λ h. Quot.sound (any_order b c h h same (λ k. refl))) hm

pub seat_map : BookedMap → HeldMap → SeatMap
unfolding states_over
seat_map bm hm = Quot.lift Quot-set (λ b. states_over b hm) (λ b c same. over_same b c hm same) bm

state-set : IsSet (Option SeatState)
state-set = hlevel

session-set : IsSet (Option Str)
session-set = hlevel

-- What the three maps have under a seat.
pub state_at : ℤ → SeatMap → Option SeatState
state_at k = Quot.lift state-set (λ xs. view k xs.0) (λ xs ys same. same k)

pub booked_at : ℤ → BookedMap → Option Str
booked_at k = Quot.lift session-set (λ b. lookup k b.0) (λ b c same. same k)

pub held_at : ℤ → HeldMap → Option SeatState
held_at k = Quot.lift state-set (λ h. lookup k h.0) (λ g h same. same k)

-- The seat map of a snapshot is a function of the two Go maps, whose order plays no part: each seat
-- stands in it at most once, with the booking if there is one, else with the hold if there is one.
pub state_at-seat_map :
    (bm : BookedMap) (hm : HeldMap) (k : ℤ)
    → state_at k (seat_map bm hm) ≡ shown k (booked_at k bm) (held_at k hm)
unfolding state_at seat_map states_over booked_at held_at
state_at-seat_map bm hm k =
    Quot.ind {β = λ z. state_at k (seat_map z hm) ≡ shown k (booked_at k z) (held_at k hm)}
      (λ z. state-set _ _)
      (λ b.
        Quot.ind {β = λ z. state_at k (states_over b z) ≡ shown k (lookup k b.0) (held_at k z)}
          (λ z. state-set _ _) (λ h. view-seat_states k b.0 h.0 h.2) hm)
      bm
