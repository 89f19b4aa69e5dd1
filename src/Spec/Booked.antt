-- ===== src/Spec/Booked.antt =====
-- backend/booking/booking.go: what Confirm leaves behind when it has inserted the row.
use grab_seat.Base.{◌≡◌, ◌≢◌, refl, ◌∷◌, none, some, if◌then◌else◌}
use grab_seat.Base.Int.{ℤ, int_eq, int_eq_refl, ne→int_eq}
use grab_seat.Base.Text.{Str, str_eq, str_eq_refl}
use grab_seat.Service.Backends.{Redis, Postgres, owner_of}
use grab_seat.Locking.Keys.{
  hold_key, booked_key, hold_keys_apart, booked_keys_apart, hold_booked_apart, booked_hold_apart,
}
use grab_seat.Locking.Script.{book_script}
use grab_seat.Booking.{BookingService, booked_event}
use grab_seat.World.{World, row}
use grab_seat.World.Bookings.{owner}
use grab_seat.Spec.{seat_view}

module _ (R : Redis) (P : Postgres) (b : BookingService) (seat : ℤ) (session : Str)
    (w : World R P) where
  -- What a new booking leaves behind.
  unfoldable pub booked : P.Db → World R P
  booked d = record {
    redis = (book_script R (hold_key seat) (booked_key seat) session w.redis).1;
    db = d;
    channel = booked_event b seat session ∷ w.channel;
    clock = w.clock;
  }

  booked-db : (d : P.Db) → (booked d).db ≡ d
  unfolding booked
  booked-db d = refl

  marked_view :
      (d : P.Db) (k : Str)
      → R.find (booked d).redis k ≡ (
          if str_eq (booked_key seat) k
          then some session
          else if str_eq (hold_key seat) k
          then none
          else R.find w.redis k)
  unfolding booked book_script
  marked_view d k = rw (
    R.find-put (booked_key seat) session (R.remove (hold_key seat) w.redis) k,
    R.find-remove (hold_key seat) w.redis k,
  )

  owner-insert :
      owner P seat w.db ≡ none
      → (x : ℤ)
      → owner P x (P.insert (row b.event_id seat session) w.db).1
        ≡ (if int_eq seat x then some session else owner P x w.db)
  unfolding owner_of
  owner-insert e x = rw (P.rows-insert (row b.event_id seat session) w.db e)

  -- The table with the new row.
  abbrev pub added : P.Db
  added = (P.insert (row b.event_id seat session) w.db).1

  -- The seat after the booking: marked as booked, held by no one, owned by the session.
  pub booked_view :
      owner P seat w.db ≡ none
      → seat_view R P (booked added) seat
        ≡ record { holder = none; marker = some session; owned_by = some session }
  booked_view e = rw (
    marked_view added (hold_key seat),
    marked_view added (booked_key seat),
    booked-db added,
    owner-insert e seat,
    booked_hold_apart seat seat,
    str_eq_refl (hold_key seat),
    str_eq_refl (booked_key seat),
    int_eq_refl seat,
  )

  pub booked_others :
      owner P seat w.db ≡ none
      → (x : ℤ) → seat ≢ x
      → seat_view R P (booked added) x ≡ seat_view R P w x
  booked_others e x h = rw (
    marked_view added (hold_key x),
    marked_view added (booked_key x),
    booked-db added,
    owner-insert e x,
    booked_hold_apart seat x,
    hold_keys_apart seat x h,
    booked_keys_apart seat x h,
    hold_booked_apart seat x,
    ne→int_eq seat x h,
  )
