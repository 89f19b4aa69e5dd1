-- ===== src/Locking/Laws.antt =====
-- backend/locking/locking.go: the branches of the hold script, by the documented behaviour of Redis.
use grab_seat.Base.{ℕ, ◌<◌, ◌≡◌, none, some, arith}
use grab_seat.Base.Text.{Str}
use grab_seat.Service.Backends.{Redis}
use grab_seat.Locking.Keys.{hold_acquired, hold_taken, hold_booked}
use grab_seat.Locking.Script.{hold_script}

module _ (R : Redis) (hold booked session : Str) (n : ℕ) (s : R.Keyspace) where
  -- A seat that is marked as booked is refused, and nothing changes.
  pub hold_script_sold :
      {v : Str}
      → R.find s booked ≡ some v
      → hold_script R hold booked session n s ≡ (hold_booked, s)
  unfolding hold_script
  hold_script_sold e = ground (arith, R.exists_lem s booked)

  -- A seat that is held is refused, whoever asks, and nothing changes.
  pub hold_script_held :
      {v : Str}
      → R.find s booked ≡ none
      → R.find s hold ≡ some v
      → hold_script R hold booked session n s ≡ (hold_taken, s)
  unfolding hold_script
  hold_script_held e f = ground (arith, R.exists_lem s booked, R.nx_taken hold session n s f)

  pub hold_script_free :
      0 < n
      → R.find s booked ≡ none
      → R.find s hold ≡ none
      → hold_script R hold booked session n s ≡ (hold_acquired, (R.put_nx_ex hold session n s).1)
  unfolding hold_script
  hold_script_free p e f = ground (arith, R.exists_lem s booked, R.nx_free hold session n s p f)
