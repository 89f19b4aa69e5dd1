-- ===== src/System/Stats.antt =====
-- One row for a seat: what UNIQUE (seat_id) comes to, and what GET /api/stats shows of it.
use grab_seat.Base.{
  false, ◌≡◌, refl, sym, inl, inr, List, [], ◌∷◌, none, Option-cases, length, arith,
}
use grab_seat.Base.Int.{ℤ}
use grab_seat.Service.Backends.{Redis, Booking, Postgres, owner_of}
use grab_seat.Store.Table.{of_event, has_seat, distinct_seats, stats_query}
use grab_seat.World.Bookings.{exec_keeps}
use grab_seat.World.{World}
use grab_seat.System.{System, Step, arrives, calls, waits, redis_changes, Reach, start, later}

abbrev pub UniqueSeats : List Booking → Type 0
UniqueSeats [] = Unit
UniqueSeats (b ∷ bs) = (owner_of b.seat_id bs ≡ none) × UniqueSeats bs

has_seat-of_event :
    (event seat : ℤ) (rows : List Booking)
    → owner_of seat rows ≡ none
    → has_seat seat (of_event event rows) ≡ false
unfolding has_seat of_event owner_of
has_seat-of_event event seat [] h = refl
has_seat-of_event event seat (b ∷ bs) h = ground (arith, has_seat-of_event event seat bs)

distinct_of_unique :
    (event : ℤ) (rows : List Booking)
    → UniqueSeats rows
    → distinct_seats (of_event event rows) ≡ length (of_event event rows)
unfolding distinct_seats of_event
distinct_of_unique event [] h = refl
distinct_of_unique event (b ∷ bs) (new, h) =
    ground (arith, has_seat-of_event event b.seat_id bs new, distinct_of_unique event bs h)

module _ (R : Redis) (P : Postgres) where
  insert-UniqueSeats :
      (b : Booking) (d : P.Db) → UniqueSeats (P.rows d) → UniqueSeats (P.rows (P.insert b d).1)
  insert-UniqueSeats b d h = elim (Option-cases (owner_of b.seat_id (P.rows d))) [
    | inl free ↦ rw (P.rows-insert b d free) (free, h)
    | inr (o, old) ↦ rw (P.insert_conflict b d old) h
  ]

  Step-UniqueSeats :
      {s t : System R P}
      → Step R P s t
      → UniqueSeats (P.rows s.world.db)
      → UniqueSeats (P.rows t.world.db)
  Step-UniqueSeats (arrives i q free) h = h
  Step-UniqueSeats {s} (calls i l q c k es here) h =
      exec_keeps R P (λ d. UniqueSeats (P.rows d)) insert-UniqueSeats c l s.world h
  Step-UniqueSeats (waits d) h = h
  Step-UniqueSeats (redis_changes k) h = h

  Reach-UniqueSeats :
      {w : World R P} {s : System R P}
      → UniqueSeats (P.rows w.db)
      → Reach R P w s
      → UniqueSeats (P.rows s.world.db)
  Reach-UniqueSeats h start = h
  Reach-UniqueSeats h (later r st) = Step-UniqueSeats st (Reach-UniqueSeats h r)

  -- From a table with one row for a seat, whatever requests are served in whatever order, the two
  -- counts of GET /api/stats are equal: `double_bookings` is 0.
  pub stats_agree :
      {w : World R P} {s : System R P} (event : ℤ)
      → UniqueSeats (P.rows w.db)
      → Reach R P w s
      → (stats_query event (P.rows s.world.db)).0 ≡ (stats_query event (P.rows s.world.db)).1
  unfolding stats_query
  stats_agree {s} event h r =
      sym (distinct_of_unique event (P.rows s.world.db) (Reach-UniqueSeats h r))
