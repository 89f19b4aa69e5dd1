-- ===== src/Store/Venue/Order.antt =====
-- backend/store/store.go: what Seats returns.
use mathlib.Core.List.{Perm}
use mathlib.Core.List.Perm
use grab_seat.Base.{
  ◌≤◌, ◌≡◌, refl, ◌∙◌, inl, inr, List, [], ◌∷◌, ◌++◌, map, none, some, leb, Bool-cases, arith,
  append_nil, append_assoc, All, All-mono, ◌⊎◌, Option-cases, Option,
}
use grab_seat.Base.Int.{ℤ}
use grab_seat.Model.{Seat}
use grab_seat.Service.{Error, Result, ok, err}
use grab_seat.Store.Venue.{
  Stored, position_of, seats_of_event, insert_by_position, order_by_position, seats_query, seat_of,
  SeatFailures, scan_seat, ended, scan_seats, query_seats, seats,
}

-- The positions ascend.
abbrev pub Ascending : List Stored → Type 0
Ascending [] = Unit
Ascending (s ∷ ss) = All (λ t. position_of s ≤ position_of t) ss × Ascending ss

insert-perm : (s : Stored) (ts : List Stored) → Perm (insert_by_position s ts) (s ∷ ts)
unfolding insert_by_position
insert-perm s [] = Perm.refl (s ∷ [])
insert-perm s (t ∷ ts) = elim (Bool-cases (leb (position_of s) (position_of t))) [
  | inl before ↦ rw before (Perm.refl (s ∷ t ∷ ts))
  | inr after ↦ rw after (Perm.trans (Perm.cons t (insert-perm s ts)) (Perm.swap s t ts))
]

order-perm : (ss : List Stored) → Perm (order_by_position ss) ss
unfolding order_by_position
order-perm [] = Perm.refl []
order-perm (s ∷ ss) =
    Perm.trans (insert-perm s (order_by_position ss)) (Perm.cons s (order-perm ss))

All-insert :
    (P : Stored → Type 0) (s : Stored) (ts : List Stored)
    → P s
    → All P ts
    → All P (insert_by_position s ts)
unfolding insert_by_position
All-insert P s [] p h = (p, tt)
All-insert P s (t ∷ ts) p (q, h) = elim (Bool-cases (leb (position_of s) (position_of t))) [
  | inl before ↦ rw before (p, (q, h))
  | inr after ↦ rw after (q, All-insert P s ts p h)
]

insert-Ascending :
    (s : Stored) (ts : List Stored) → Ascending ts → Ascending (insert_by_position s ts)
unfolding insert_by_position
insert-Ascending s [] h = (tt, tt)
insert-Ascending s (t ∷ ts) (above, h) = elim (Bool-cases (leb (position_of s) (position_of t))) [
  | inl before ↦
      let less : position_of s ≤ position_of t = ground (arith, before) in
      rw before (
        (
          less,
          All-mono (λ u. position_of t ≤ position_of u) (λ u. position_of s ≤ position_of u)
              (λ u more. omega (arith, less, more)) ts above,
        ),
        (above, h),
      )
  | inr after ↦ rw after (
    All-insert (λ u. position_of t ≤ position_of u) s ts (ground (arith, after)) above,
    insert-Ascending s ts h,
  )
]

order-Ascending : (ss : List Stored) → Ascending (order_by_position ss)
unfolding order_by_position
order-Ascending [] = tt
order-Ascending (s ∷ ss) = insert-Ascending s (order_by_position ss) (order-Ascending ss)

-- Postgres or a scan fails.
abbrev pub Fails : SeatFailures → Error → Type 0
Fails f e = (f.query ≡ some e) ⊎ ((s : Stored) × (f.scan s ≡ some e)) ⊎ (f.rows ≡ some e)

-- What Seats returns: an error of Postgres or of a scan, or the seats of some rows, which ascend and
-- are the event's.
abbrev pub Listed : SeatFailures → ℤ → List Stored → Result (List Seat) → Type 0
Listed f event rows (err e) = Fails f e
Listed f event rows (ok out) =
    (ss : List Stored) × (out ≡ map seat_of ss) × Ascending ss × Perm ss (seats_of_event event rows)

-- The loop either fails or appends every row's seat.
abbrev Scanned : SeatFailures → List Stored → List Seat → Result (List Seat) → Type 0
Scanned f ss out (err e) = Fails f e
Scanned f ss out (ok seats) = seats ≡ out ++ map seat_of ss

ended-Scanned :
    (f : SeatFailures) (out : List Seat) (o : Option Error)
    → f.rows ≡ o
    → Scanned f [] out (ended o out)
ended-Scanned f out none says = append_nil out
ended-Scanned f out (some e) says = inr (inr says)

moved :
    (f : SeatFailures) (s : Stored) (ss : List Stored) (out : List Seat) (r : Result (List Seat))
    → Scanned f ss (out ++ (seat_of s ∷ [])) r
    → Scanned f (s ∷ ss) out r
moved f s ss out (err e) h = h
moved f s ss out (ok seats) h = h ∙ append_assoc out (seat_of s ∷ []) (map seat_of ss)

scan-Scanned :
    (f : SeatFailures) (ss : List Stored) (out : List Seat) → Scanned f ss out (scan_seats f ss out)
unfolding scan_seats scan_seat
scan-Scanned f [] out = ended-Scanned f out f.rows refl
scan-Scanned f (s ∷ ss) out = elim (Option-cases (f.scan s)) [
  | inl none_there ↦
      rw none_there (moved f s ss out _ (scan-Scanned f ss (out ++ (seat_of s ∷ []))))
  | inr (e, bad) ↦ rw bad (inr (inl (s, bad)))
]

listed :
    (f : SeatFailures) (event : ℤ) (rows : List Stored) (r : Result (List Seat))
    → Scanned f (order_by_position (seats_of_event event rows)) [] r
    → Listed f event rows r
listed f event rows (err e) h = h
listed f event rows (ok seats) h =
    let rows_there = seats_of_event event rows in
    (order_by_position rows_there, h, order-Ascending rows_there, order-perm rows_there)

query-Listed :
    (f : SeatFailures) (event : ℤ) (rows : List Stored) (o : Option Error)
    → f.query ≡ o
    → Listed f event rows (query_seats o f (seats_query event rows))
unfolding query_seats seats_query
query-Listed f event rows (some e) says = inl says
query-Listed f event rows none says =
    listed f event rows _ (scan-Scanned f (order_by_position (seats_of_event event rows)) [])

-- Seats fails only as Postgres or a scan does; otherwise it returns exactly the rows of the event,
-- each as often as it is there, in the order of their positions.
pub seats-Listed :
    (f : SeatFailures) (event : ℤ) (rows : List Stored) → Listed f event rows (seats f event rows)
unfolding seats
seats-Listed f event rows = query-Listed f event rows f.query refl
