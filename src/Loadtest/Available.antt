-- ===== src/Loadtest/Available.antt =====
-- loadtest/harness.go: which seats a load test takes.
use grab_seat.Base.{
  ℕ, zero, suc, ◌+◌, ◌<◌, Bool, true, false, ◌||◌, ◌&&◌, subst, ◌≡◌, refl, ◌∙◌, inl, inr, List, [],
  ◌∷◌, ◌++◌, none, some, ltb, ◌==◌, length, length-append, append_nil, append_assoc, Bool-cases,
  arith, if◌then◌else◌,
}
use grab_seat.Base.Int.{ℤ, int_eq}
use grab_seat.Base.Assoc.{lookup, insert, lookup-insert}
use grab_seat.Model.{SeatState}
use grab_seat.Loadtest.{is_taken, taken_map, is_in, pick, available_seats}

-- Some state says that the seat is held or booked.
unfoldable pub taken_in : ℤ → List SeatState → Bool
taken_in seat [] = false
taken_in seat (s ∷ ss) = (int_eq s.seat_id seat && is_taken s) || taken_in seat ss

-- The seats of which no state says so, in their order.
unfoldable pub free_seats : List SeatState → List ℤ → List ℤ
unfolding taken_in
free_seats states [] = []
free_seats states (seat ∷ seats) =
    let rest = free_seats states seats in if taken_in seat states then rest else seat ∷ rest

unfoldable pub take : ℕ → List ℤ → List ℤ
take zero xs = []
take (suc n) [] = []
take (suc n) (x ∷ xs) = x ∷ take n xs

is_in-insert :
    (t : Bool) (k seat : ℤ) (m : List (ℤ × Bool))
    → is_in seat (if t then insert k true m else m) ≡ ((int_eq k seat && t) || is_in seat m)
is_in-insert true k seat m = rw (lookup-insert k seat true m) (ground arith)
is_in-insert false k seat m = ground arith

taken_map_lem :
    (states : List SeatState) (seat : ℤ) (m : List (ℤ × Bool))
    → is_in seat (taken_map states m) ≡ (taken_in seat states || is_in seat m)
unfolding taken_map taken_in
taken_map_lem [] seat m = refl
taken_map_lem (s ∷ ss) seat m =
    taken_map_lem ss seat _ ∙ (rw (is_in-insert (is_taken s) s.seat_id seat m) (ground arith))

no_marks : (seat : ℤ) → is_in seat [] ≡ false
unfolding lookup
no_marks seat = refl

known :
    (states : List SeatState) (seat : ℤ) → is_in seat (taken_map states []) ≡ taken_in seat states
known states seat = taken_map_lem states seat [] ∙ (rw (no_marks seat) (ground arith))

-- The loop has found `out` and needs `suc d` more.
-- A free seat is the last one, or the loop goes on with it.
picked :
    (states : List SeatState) (seat : ℤ) (seats : List ℤ) (d : ℕ) (out : List ℤ)
    → ((e : ℕ) (out : List ℤ)
        → pick (length out + suc e) (taken_map states []) seats out
          ≡ out ++ take (suc e) (free_seats states seats))
    → (if length (out ++ (seat ∷ [])) == (length out + suc d)
        then out ++ (seat ∷ [])
        else pick (length out + suc d) (taken_map states []) seats (out ++ (seat ∷ [])))
      ≡ out ++ (seat ∷ take d (free_seats states seats))
unfolding take
picked states seat seats zero out again =
    let last : (length (out ++ (seat ∷ [])) == (length out + 1)) ≡ true =
      ground (arith, length-append out (seat ∷ [])) in
    rw last refl
picked states seat seats (suc e) out again =
    let longer : length (out ++ (seat ∷ [])) + suc e ≡ length out + suc (suc e) =
      omega (arith, length-append out (seat ∷ [])) in
    let more : (length (out ++ (seat ∷ [])) == (length out + suc (suc e))) ≡ false =
      ground (arith, longer) in
    rw more (
      subst
        (λ m.
          pick m (taken_map states []) seats (out ++ (seat ∷ []))
          ≡ (out ++ (seat ∷ [])) ++ take (suc e) (free_seats states seats))
        longer (again e (out ++ (seat ∷ [])))
      ∙ append_assoc out (seat ∷ []) (take (suc e) (free_seats states seats)))

pick_lem :
    (states : List SeatState) (seats : List ℤ) (d : ℕ) (out : List ℤ)
    → pick (length out + suc d) (taken_map states []) seats out
      ≡ out ++ take (suc d) (free_seats states seats)
unfolding pick free_seats take
pick_lem states [] d out = append_nil out
pick_lem states (seat ∷ seats) d out = elim (Bool-cases (taken_in seat states)) [
  | inl taken ↦ rw (known states seat, taken) (pick_lem states seats d out)
  | inr free ↦ rw (known states seat, free) (picked states seat seats d out (pick_lem states seats))
]

ltb-take : (n : ℕ) (xs : List ℤ) → ltb (length (take n xs)) n ≡ ltb (length xs) n
unfolding take
ltb-take zero xs = ground arith
ltb-take (suc n) [] = refl
ltb-take (suc n) (x ∷ xs) = ground (arith, ltb-take n xs)

-- For n seats, n positive, a load test takes the first n seats of the event, in their order, of which
-- no state says that they are held or booked; it fails exactly when there are fewer.
pub available_seats_lem :
    (n : ℕ) (seats : List ℤ) (states : List SeatState)
    → 0 < n
    → available_seats n seats states ≡ (
        if ltb (length (free_seats states seats)) n
        then none
        else some (take n (free_seats states seats)))
unfolding available_seats
available_seats_lem zero seats states positive = absurd (omega (arith, positive))
available_seats_lem (suc d) seats states positive =
    let found : pick (suc d) (taken_map states []) seats []
        ≡ take (suc d) (free_seats states seats) =
      subst (λ m. pick m (taken_map states []) seats [] ≡ take (suc d) (free_seats states seats))
        (omega arith) (pick_lem states seats d []) in
    rw (found, ltb-take (suc d) (free_seats states seats)) refl
