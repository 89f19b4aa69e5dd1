-- ===== src/Locking/Script.antt =====
-- The two Lua scripts of backend/locking/locking.go. Redis runs a script in one step.
use grab_seat.Base.{ℕ, if◌then◌else◌}
use grab_seat.Base.Text.{Str, codes}
use grab_seat.Service.Backends.{Redis}
use grab_seat.Locking.Keys.{hold_acquired, hold_taken, hold_booked}

module _ (R : Redis) where
  open R use {Keyspace, find, exists, put, remove, put_nx_ex}

  -- holdScript: KEYS[1], KEYS[2], ARGV[1], ARGV[2]
  unfoldable pub hold_script : Str → Str → Str → ℕ → Keyspace → Str × Keyspace
  hold_script hold booked session seconds s =
      if exists s booked
      then (hold_booked, s)
      else let (set, s') = put_nx_ex hold session seconds s in
        if set then (hold_acquired, s') else (hold_taken, s')

  -- bookScript: KEYS[1], KEYS[2], ARGV[1]
  unfoldable pub book_script : Str → Str → Str → Keyspace → Str × Keyspace
  book_script hold booked session s = (codes "OK", put booked session (remove hold s))
