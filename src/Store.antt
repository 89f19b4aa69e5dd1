-- ===== src/Store.antt =====
-- backend/store/store.go: the durable side. Each method is a program over Service; the statements
-- that it sends are in Store.Table.
pub mod Table
pub mod Venue
pub mod Seed
pub mod Opening
use grab_seat.Base.{ℕ, Bool, true, false, List, [], ◌∷◌, if◌then◌else◌}
use grab_seat.Base.Int.{ℤ}
use grab_seat.Base.Text.{Str, codes}
use grab_seat.Base.Assoc.{insert}
use grab_seat.Service.{
  Error, no_rows, wrapped, Result, ok, err, insert_booking, select_owner, select_booked,
  select_stats, ping_postgres, Prog, ret, call, ask, ◌>>=◌,
}

-- errors.Is(err, pgx.ErrNoRows)
abbrev pub is_no_rows : Error → Bool
is_no_rows no_rows = true
is_no_rows (wrapped _ e) = is_no_rows e
is_no_rows _ = false

unfoldable pub existing_reply : Result Str → Result (Bool × Str)
existing_reply (ok owner) = ok (false, owner)
existing_reply (err e) = err (wrapped (codes "read existing booking") e)

-- After a conflict: read back who owns the seat.
unfoldable pub read_back : ℤ → Prog (Result (Bool × Str))
unfolding existing_reply
read_back seat = do existing ← ask (select_owner seat); ret (existing_reply existing)

unfoldable pub insert_reply : ℤ → Result Str → Prog (Result (Bool × Str))
unfolding read_back
insert_reply seat (ok owner) = ret (ok (true, owner))
insert_reply seat (err e) =
    if is_no_rows e then read_back seat else ret (err (wrapped (codes "insert booking") e))

-- ConfirmBooking: whether a row was inserted, and the seat's owner.
unfoldable pub confirm_booking : ℤ → ℤ → Str → Prog (Result (Bool × Str))
unfolding insert_reply
confirm_booking event seat session = do
  inserted ← ask (insert_booking event seat session)
  insert_reply seat inserted

unfoldable pub owner_reply : Result Str → Result (Str × Bool)
owner_reply (ok owner) = ok (owner, true)
owner_reply (err e) = if is_no_rows e then ok ([], false) else err e

-- BookingOwner: the owner and whether there is one.
unfoldable pub booking_owner : ℤ → Prog (Result (Str × Bool))
unfolding owner_reply
booking_owner seat = do reply ← ask (select_owner seat); ret (owner_reply reply)

-- `out[id] = sess` for each row
unfoldable pub collect : List (ℤ × Str) → List (ℤ × Str) → List (ℤ × Str)
collect [] out = out
collect ((id, session) ∷ rows) out = collect rows (insert id session out)

-- BookedSeats
unfoldable pub booked_seats : ℤ → Prog (Result (List (ℤ × Str)))
unfolding collect
booked_seats event = do
  reply ← ask (select_booked event)
  elim reply [ ok rows ↦ ret (ok (collect rows [])) | err e ↦ ret (err e) ]

-- BookingStats: all rows, and the seats among them.
unfoldable pub booking_stats : ℤ → Prog (Result (ℕ × ℕ))
booking_stats event = ask (select_stats event)

-- Ping
unfoldable pub ping : Prog (Result (Unit {0}))
ping = ask ping_postgres
