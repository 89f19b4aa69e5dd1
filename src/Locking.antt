-- ===== src/Locking.antt =====
-- backend/locking/locking.go: the ephemeral side. Each method is a program over Service; log lines
-- and the connection options are left out. The Lua scripts are in Locking.Script, the keys in
-- Locking.Keys, and `HeldSeats` in Locking.Held.
pub mod Keys
pub mod Script
pub mod Laws
pub mod Held
pub mod Listing
pub mod Pages
use grab_seat.Base.{ℕ, ◌+◌, ◌/◌, ◌^◌, Bool, true, false, List, [], ◌∷◌, if◌then◌else◌}
use grab_seat.Base.Int.{ℤ}
use grab_seat.Base.Text.{Str, codes, str_eq}
use grab_seat.Model.{SeatEvent}
use grab_seat.Service.{
  Error, redis_nil, wrapped, Result, ok, err, get, set, eval_hold, eval_book, publish, ping_redis,
  now, Prog, ret, call, ask, ◌>>=◌,
}
use Keys.{hold_key, booked_key, hold_acquired}

-- A time.Duration in nanoseconds.
abbrev pub second : ℕ
second = 10 ^ 9

abbrev pub millisecond : ℕ
millisecond = 10 ^ 6

-- What TryHold returns for the script's reply.
unfoldable pub hold_reply : ℕ → Result Str → Prog (Result (Str × ℕ))
hold_reply ttl (err e) = ret (err (wrapped (codes "hold script") e))
hold_reply ttl (ok res) =
    if str_eq res hold_acquired
    then call now (λ t. ret (ok (res, (t + ttl) / millisecond)))
    else ret (ok (res, 0))

-- TryHold: the result, and the time in milliseconds when an acquired hold runs out.
unfoldable pub try_hold : ℤ → Str → ℕ → Prog (Result (Str × ℕ))
try_hold seat session ttl = do
  reply ← ask (eval_hold (hold_key seat) (booked_key seat) session (ttl / second))
  hold_reply ttl reply

abbrev pub is_nil : Error → Bool
is_nil redis_nil = true
is_nil _ = false

unfoldable pub holder_reply : Result Str → Result (Str × Bool)
holder_reply (ok v) = ok (v, true)
holder_reply (err e) = if is_nil e then ok ([], false) else err e

-- HoldOwner: the holder's session and whether there is one.
unfoldable pub hold_owner : ℤ → Prog (Result (Str × Bool))
unfolding holder_reply
hold_owner seat = do reply ← ask (get (hold_key seat)); ret (holder_reply reply)

-- MarkBooked
unfoldable pub mark_booked : ℤ → Str → Prog (Result (Unit {0}))
mark_booked seat session = do
  reply ← ask (eval_book (hold_key seat) (booked_key seat) session)
  elim reply [ ok _ ↦ ret (ok tt) | err e ↦ ret (err e) ]

-- Publish; encoding a SeatEvent as JSON cannot fail.
unfoldable pub publish_event : SeatEvent → Prog (Result (Unit {0}))
publish_event ev = ask (publish ev)

-- Healthy, Ping
unfoldable pub healthy : Prog Bool
healthy = call ping_redis λ reply. ret (elim reply [ ok _ ↦ true | err _ ↦ false ])

-- The pipeline of RehydrateBooked: all commands are sent, and the first error is the result.
unfoldable pub set_all : List (ℤ × Str) → Result (Unit {0}) → Prog (Result (Unit {0}))
set_all [] first = ret first
set_all ((seat, session) ∷ rest) first =
    call (set (booked_key seat) session)
      λ reply. set_all rest (elim first [ ok _ ↦ reply | err e ↦ err e ])

unfoldable pub rehydrate_booked : List (ℤ × Str) → Prog (Result (Unit {0}))
unfolding set_all
rehydrate_booked booked = set_all booked (ok tt)
