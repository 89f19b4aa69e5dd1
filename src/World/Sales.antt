-- ===== src/World/Sales.antt =====
-- The rows of `bookings` for a seat that has been sold, and the query of BookedSeats over them.
use grab_seat.Base.{
  false, ◌≡◌, refl, ap, subst, ◌⊎◌, inl, inr, List, [], ◌∷◌, none, some, Bool-cases, Option-cases,
  All, All-mono, Any,
}
use grab_seat.Base.Int.{ℤ, int_eq, int_eq_refl, int_eq→eq}
use grab_seat.Base.Text.{Str}
use grab_seat.Base.Assoc.{lookup, insert, lookup-insert}
use grab_seat.Service.{Call, Result, ok, err, insert_booking, Event}
use grab_seat.Service.Backends.{Redis, Booking, Postgres, owner_of}
use grab_seat.Store.{collect}
use grab_seat.Store.Table.{of_event, project, booked_query}
use grab_seat.World.{Link, delivered, refused, reply_lost, World, exec, row}
use grab_seat.World.Bookings.{owner, exec_keeps, insert_wins}

-- The booking is among the rows, and they have no other for its seat.
abbrev pub SoldTo : Booking → List Booking → Type 0
SoldTo b rows = Any (λ r. r ≡ b) rows × All (λ r. r.seat_id ≡ b.seat_id → r ≡ b) rows

not_free :
    (b : Booking) (rows : List Booking) → Any (λ r. r ≡ b) rows → owner_of b.seat_id rows ≡ none → ⊥
unfolding owner_of
not_free b [] h free = absurd h
not_free b (r ∷ rows) (inl same) free = cc (rw (same, int_eq_refl b.seat_id) at free)
not_free b (r ∷ rows) (inr h) free = elim (Bool-cases (int_eq r.seat_id b.seat_id)) [
  | inl here ↦ cc (rw here at free)
  | inr other ↦ not_free b rows h (rw other at free)
]

none_there :
    (seat : ℤ) (rows : List Booking)
    → owner_of seat rows ≡ none
    → All (λ r. r.seat_id ≡ seat → ⊥) rows
unfolding owner_of
none_there seat [] free = tt
none_there seat (r ∷ rows) free = elim (Bool-cases (int_eq r.seat_id seat)) [
  | inl same ↦ cc (rw same at free)
  | inr other ↦ (
    λ e. cc (int_eq_refl seat, subst (λ z. int_eq z seat ≡ false) e other),
    none_there seat rows (rw other at free),
  )
]

sold_first :
    (b : Booking) (rows : List Booking) → owner_of b.seat_id rows ≡ none → SoldTo b (b ∷ rows)
sold_first b rows free = (
  inl refl,
  (
    (λ same. refl),
    All-mono _ _ (λ r no same. absurd (no same)) rows (none_there b.seat_id rows free),
  ),
)

-- BookedSeats: the seat's row is in the reply, and no other for the seat.
abbrev IsListed : ℤ → Str → List (ℤ × Str) → Type 0
IsListed seat session rows =
    Any (λ p. p ≡ (seat, session)) rows × All (λ p. p.0 ≡ seat → p ≡ (seat, session)) rows

query_lists :
    (b : Booking) (rows : List Booking)
    → Any (λ r. r ≡ b) rows
    → Any (λ p. p ≡ (b.seat_id, b.session_id)) (booked_query b.event_id rows)
unfolding booked_query of_event project
query_lists b [] h = absurd h
query_lists b (r ∷ rows) (inl same) = rw (same, int_eq_refl b.event_id) (inl refl)
query_lists b (r ∷ rows) (inr h) = elim (Bool-cases (int_eq r.event_id b.event_id)) [
  | inl here ↦ rw here (inr (query_lists b rows h))
  | inr other ↦ rw other (query_lists b rows h)
]

query_lists_only :
    (b : Booking) (event : ℤ) (rows : List Booking)
    → All (λ r. r.seat_id ≡ b.seat_id → r ≡ b) rows
    → All (λ p. p.0 ≡ b.seat_id → p ≡ (b.seat_id, b.session_id)) (booked_query event rows)
unfolding booked_query of_event project
query_lists_only b event [] h = tt
query_lists_only b event (r ∷ rows) (only, h) = elim (Bool-cases (int_eq r.event_id event)) [
  | inl here ↦ rw here (
    λ same. ap (λ (z : Booking). (z.seat_id, z.session_id)) (only same),
    query_lists_only b event rows h,
  )
  | inr other ↦ rw other (query_lists_only b event rows h)
]

still_listed :
    (seat : ℤ) (session : Str) (k : ℤ) (v : Str) (rows out : List (ℤ × Str))
    → int_eq k seat ≡ false
    → Any (λ p. p ≡ (seat, session)) ((k, v) ∷ rows) ⊎ (lookup seat out ≡ some session)
    → Any (λ p. p ≡ (seat, session)) rows ⊎ (lookup seat (insert k v out) ≡ some session)
still_listed seat session k v rows out other (inl (inl e)) =
    cc (int_eq_refl seat, subst (λ p. int_eq p.0 seat ≡ false) e other)
still_listed seat session k v rows out other (inl (inr h)) = inl h
still_listed seat session k v rows out other (inr h) =
    inr (rw (lookup-insert k seat v out, other) h)

collect-IsListed :
    (seat : ℤ) (session : Str) (rows out : List (ℤ × Str))
    → Any (λ p. p ≡ (seat, session)) rows ⊎ (lookup seat out ≡ some session)
    → All (λ p. p.0 ≡ seat → p ≡ (seat, session)) rows
    → lookup seat (collect rows out) ≡ some session
unfolding collect
collect-IsListed seat session [] out (inl h) only = absurd h
collect-IsListed seat session [] out (inr h) only = h
collect-IsListed seat session ((k, v) ∷ rows) out h (mine, only) =
    elim (Bool-cases (int_eq k seat)) [
      | inl same ↦
          collect-IsListed seat session rows (insert k v out)
            (inr (
              rw (lookup-insert k seat v out, same)
                (ap (λ p. some p.1) (mine (int_eq→eq k seat same)))))
            only
      | inr other ↦
          collect-IsListed seat session rows (insert k v out)
            (still_listed seat session k v rows out other h) only
    ]

-- The map of BookedSeats has the buyer of a sold seat.
pub lookup-collect :
    (b : Booking) (rows : List Booking)
    → SoldTo b rows
    → lookup b.seat_id (collect (booked_query b.event_id rows) []) ≡ some b.session_id
lookup-collect b rows (there, only) =
    collect-IsListed b.seat_id b.session_id (booked_query b.event_id rows) []
      (inl (query_lists b rows there)) (query_lists_only b b.event_id rows only)

module _ (P : Postgres) where
  insert-SoldTo :
      (b c : Booking) (d : P.Db) → SoldTo b (P.rows d) → SoldTo b (P.rows (P.insert c d).1)
  insert-SoldTo b c d (there, only) = elim (Option-cases (owner P c.seat_id d)) [
    | inl free ↦ rw (P.rows-insert c d free) (
      inr there,
      (
        (λ same. absurd (not_free b (P.rows d) there (subst (λ z. owner P z d ≡ none) same free))),
        only,
      ),
    )
    | inr (o, old) ↦ rw (P.insert_conflict c d old) (there, only)
  ]

  -- An insert that returned a row has sold the seat.
  abbrev pub Sale : P.Db → Event → Type 0
  Sale d (insert_booking e s t, ok _) = SoldTo (row e s t) (P.rows d)
  Sale d _ = Unit

module _ (R : Redis) (P : Postgres) where
  pub exec-Sale :
      (c : Call) (l : Link) (w : World R P) (e : Event)
      → Sale P w.db e
      → Sale P (exec R P c l w).1.db e
  exec-Sale c l w (insert_booking e s t, ok o) h =
      exec_keeps R P (λ d. SoldTo (row e s t) (P.rows d)) (insert-SoldTo P (row e s t)) c l w h
  exec-Sale c l w (insert_booking e s t, err _) h = tt
  exec-Sale c l w _ h = tt

  insert_sells :
      (e s : ℤ) (t : Str) (l : Link) (w : World R P) {o : Str}
      → (exec R P (insert_booking e s t) l w).0 ≡ ok o
      → SoldTo (row e s t) (P.rows (exec R P (insert_booking e s t) l w).1.db)
  unfolding exec
  insert_sells e s t delivered w h =
      let free = (insert_wins R P e s t delivered w h).0 in
      rw (P.rows-insert (row e s t) w.db free) (sold_first (row e s t) (P.rows w.db) free)
  insert_sells e s t refused w h = cc h
  insert_sells e s t reply_lost w h = cc h

  insert-Sale :
      (e s : ℤ) (t : Str) (l : Link) (w : World R P) (r : Result Str)
      → (exec R P (insert_booking e s t) l w).0 ≡ r
      → Sale P (exec R P (insert_booking e s t) l w).1.db (insert_booking e s t, r)
  insert-Sale e s t l w (ok o) h = insert_sells e s t l w h
  insert-Sale e s t l w (err _) h = tt

  pub reply-Sale :
      (c : Call) (l : Link) (w : World R P) → Sale P (exec R P c l w).1.db (c, (exec R P c l w).0)
  reply-Sale (insert_booking e s t) l w = insert-Sale e s t l w _ refl
  reply-Sale _ l w = tt
