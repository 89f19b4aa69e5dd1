-- ===== src/Tests/Schedule.antt =====
-- Interleavings that run: a schedule says which task makes the next call, on what link.
use grab_seat.Base.{ℕ, ◌≡◌, refl, List, [], ◌∷◌}
use grab_seat.Service.{ret, call}
use grab_seat.Service.Backends.{Redis, Postgres}
use grab_seat.World.{Link, World, wait as passed}
use grab_seat.Strconv.{itoa}
use grab_seat.Locking.{try_hold, hold_reply, hold_owner, mark_booked, publish_event}
use grab_seat.Locking.Keys.{hold_key, booked_key}
use grab_seat.Locking.Script.{hold_script, book_script}
use grab_seat.Store.{confirm_booking, booking_owner}
use grab_seat.Store.Table.{owner_query}
use grab_seat.Booking.{hold, confirm}
use grab_seat.World.{exec, run}
use grab_seat.Tests.Memory.{memory}
use grab_seat.System.{
  Request, Task, idle, busy, System, advance, arrives, calls, waits, Reach, start, later, update,
  code,
}

pub data Move : Type 0 where
  arrive : ℕ → Request → Move
  next_call : ℕ → Link → Move
  wait : ℕ → Move

module _ (R : Redis) (P : Postgres) (w : World R P) where
  abbrev pub Reached : Type 0
  Reached = (s : System R P) × Reach R P w s

  admit :
      (s : System R P) (i : ℕ) (q : Request) (t : Task) → s.tasks i ≡ t → Reach R P w s → Reached
  admit s i q idle e r =
      (record s { tasks = update s.tasks i (busy q (code q) []) }, later r (arrives i q e))
  admit s i q (busy _ _ _) e r = (s, r)

  proceed : (s : System R P) (i : ℕ) (l : Link) (t : Task) → s.tasks i ≡ t → Reach R P w s → Reached
  proceed s i l (busy q (call c k) es) e r =
      (advance R P s i l q c k es, later r (calls i l q c k es e))
  proceed s i l (busy q (ret a) es) e r = (s, r)
  proceed s i l idle e r = (s, r)

  -- A move that is not possible changes nothing.
  move : Reached → Move → Reached
  unfolding admit proceed
  move (s, r) (arrive i q) = admit s i q (s.tasks i) refl r
  move (s, r) (next_call i l) = proceed s i l (s.tasks i) refl r
  move (s, r) (wait d) = (record s { world = passed R P d s.world }, later r (waits d))

  moves : Reached → List Move → Reached
  unfolding move
  moves t [] = t
  moves t (m ∷ ms) = moves (move t m) ms

  unfoldable pub play : List Move → Reached
  unfolding moves
  play ms = moves (record { world = w; tasks = λ _. idle }, start) ms

-- A test that runs requests unfolds this.
unfoldable pub running : Unit {0}
unfolding itoa try_hold hold_reply hold_owner mark_booked publish_event hold_key booked_key
    hold_script book_script confirm_booking booking_owner owner_query hold confirm exec run code
    memory play
running = tt
