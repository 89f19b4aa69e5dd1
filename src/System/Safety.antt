-- ===== src/System/Safety.antt =====
-- What clients can rely on, in every state that the requests of all instances can reach.
use grab_seat.Base.{ℕ, ◌≡◌, sym, subst, List, some, Any, All}
use grab_seat.Base.Int.{ℤ}
use grab_seat.Base.Text.{Str}
use grab_seat.Service.{ok, ret, Event}
use grab_seat.Service.Backends.{Redis, Postgres}
use grab_seat.Booking.{Outcome, BookingService, confirmed, already_mine}
use grab_seat.Booking.Paths.{Won, Backed}
use grab_seat.World.{World}
use grab_seat.World.Bookings.{owner, IsTrue}
use grab_seat.System.{confirm_request, confirm_answer, Task, busy, past, System, Reach}
use grab_seat.System.Events.{Answers}
use grab_seat.System.Invariant.{
  Explained, past-owned, past-read, Reach-Explained, Reach-IsTrue, Reach-OneWinner,
}

-- The task is a request to confirm, and it has been answered.
abbrev pub Answered : BookingService → ℤ → Str → Outcome → List Event → Task → Type 0
Answered s seat session o es t =
    t ≡ busy (confirm_request s seat session) (ret (confirm_answer (ok o))) es

-- The outcomes that the API answers with 200.
abbrev pub Succeeds : Outcome → Type 0
Succeeds confirmed = Unit
Succeeds already_mine = Unit
Succeeds _ = ⊥

module _ (R : Redis) (P : Postgres) {w : World R P} {s : System R P} (r : Reach R P w s) where
  pub Answered-Backed :
      (i : ℕ) (b : BookingService) (seat : ℤ) (session : Str) (o : Outcome) (es : List Event)
      → Answered b seat session o es (s.tasks i)
      → Backed seat session es (ok o)
  Answered-Backed i b seat session o es e = subst (Answers Explained) e (Reach-Explained R P r i)

  Answered-IsTrue :
      (i : ℕ) (b : BookingService) (seat : ℤ) (session : Str) (o : Outcome) (es : List Event)
      → Answered b seat session o es (s.tasks i)
      → All (IsTrue P s.world.db) es
  Answered-IsTrue i b seat session o es e =
      subst (λ z. All (IsTrue P s.world.db) (past z)) e (Reach-IsTrue R P r i)

  -- In a reachable state, however the requests interleave, whatever fails and whatever Redis loses: of all requests to
  -- confirm a seat, by any sessions on any instances, at most one is answered `confirmed`.
  pub no_double_booking :
      (i j : ℕ) (a b : BookingService) (seat : ℤ) (t u : Str) (es fs : List Event)
      → Answered a seat t confirmed es (s.tasks i)
      → Answered b seat u confirmed fs (s.tasks j)
      → i ≡ j
  no_double_booking i j a b seat t u es fs x y =
      Reach-OneWinner R P r i j seat t u
        (subst (λ z. Any (Won seat t) (past z)) (sym x) (Answered-Backed i a seat t confirmed es x))
        (subst (λ z. Any (Won seat u) (past z)) (sym y) (Answered-Backed j b seat u confirmed fs y))

  -- In a reachable state, a session whose request to confirm a seat was answered `confirmed` or
  -- `already_mine` owns the seat in the table.
  pub success_owns :
      (i : ℕ) (b : BookingService) (seat : ℤ) (session : Str) (o : Outcome) (es : List Event)
      → Answered b seat session o es (s.tasks i)
      → Succeeds o
      → owner P seat s.world.db ≡ some session
  success_owns i b seat session confirmed es x h =
      past-owned R P s.world.db seat session es (Answered-IsTrue i b seat session confirmed es x)
        (Answered-Backed i b seat session confirmed es x)
  success_owns i b seat session already_mine es x h =
      past-read R P s.world.db seat session es (Answered-IsTrue i b seat session already_mine es x)
        (Answered-Backed i b seat session already_mine es x)
  success_owns i b seat session _ es x h = absurd h

  -- In a reachable state, two requests to confirm one seat that were both answered `confirmed` or
  -- `already_mine` come from one session.
  pub one_buyer :
      (i j : ℕ) (a b : BookingService) (seat : ℤ) (t u : Str) (o p : Outcome) (es fs : List Event)
      → Answered a seat t o es (s.tasks i)
      → Answered b seat u p fs (s.tasks j)
      → Succeeds o
      → Succeeds p
      → t ≡ u
  one_buyer i j a b seat t u o p es fs x y h k =
      cc (success_owns i a seat t o es x h, success_owns j b seat u p fs y k)
