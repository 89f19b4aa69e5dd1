-- ===== src/System.antt =====
-- Many requests at once, on any number of backend instances (backend/main.go starts each request in
-- its own goroutine): an interleaving is a sequence of steps, each one call of one request. Between
-- them time passes and Redis may lose or change anything.
pub mod Invariant
pub mod Safety
pub mod Stats
pub mod Events
pub mod Retry
pub mod Holds
pub mod Calls
pub mod Web
pub mod Again
pub mod Contest
pub mod Shown
pub mod Counts
use grab_seat.Base.{
  ℕ, Bool, true, false, ◌≡◌, List, [], ◌∷◌, ◌==◌, if◌then◌else◌, Bool-cases, inl, inr, arith,
}
use grab_seat.Base.Int.{ℤ}
use grab_seat.Base.Text.{Str}
use grab_seat.Service.{Result, Call, Reply, Prog, ret, call, Event, ◌>>=◌}
use grab_seat.Service.Backends.{Redis, Postgres}
use grab_seat.Booking.{Outcome, BookingService, hold, confirm}
use grab_seat.Api.Server.{Served}
use grab_seat.Api.Program.{Visit, program}
use grab_seat.World.{Link, World, wait, exec}

pub data Request : Type 0 where
  hold_request confirm_request : BookingService → ℤ → Str → Request
  -- an HTTP request to an instance
  web_request : Visit → Request

pub data Answer : Type 0 where
  hold_answer : Result (Outcome × ℕ) → Answer
  confirm_answer : Result Outcome → Answer
  web_answer : Served → Answer

-- The code that serves a request.
unfoldable pub code : Request → Prog Answer
code (hold_request s seat session) = hold s seat session >>= λ a. ret (hold_answer a)
code (confirm_request s seat session) = confirm s seat session >>= λ a. ret (confirm_answer a)
code (web_request v) = program v >>= λ a. ret (web_answer a)

-- A request that has come in, what is left to do for it, and the calls made, the last first.
pub data Task : Type 0 where
  idle : Task
  busy : Request → Prog Answer → List Event → Task

abbrev pub past : Task → List Event
past idle = []
past (busy _ _ es) = es

abbrev pub update : (ℕ → Task) → ℕ → Task → ℕ → Task
update f i t j = if i == j then t else f j

pub record System (R : Redis) (P : Postgres) : Type 0 where
  pub world : World R P
  pub tasks : ℕ → Task

module _ (R : Redis) (P : Postgres) where
  -- Call `c` of task `i` is carried out on the link `l`, and the task goes on with the reply.
  abbrev pub advance :
      System R P
      → ℕ
      → Link
      → Request
      → (c : Call) → (Reply c → Prog Answer)
      → List Event
      → System R P
  advance s i l q c k es =
      let (r, w) = exec R P c l s.world in
      record { world = w; tasks = update s.tasks i (busy q (k r) ((c, r) ∷ es)) }

  pub data Step (s : System R P) : System R P → Type 0 where
    arrives :
        (i : ℕ) (q : Request)
        → s.tasks i ≡ idle
        → Step s (record s { tasks = update s.tasks i (busy q (code q) []) })
    calls :
        (i : ℕ) (l : Link) (q : Request) (c : Call) (k : Reply c → Prog Answer) (es : List Event)
        → s.tasks i ≡ busy q (call c k) es
        → Step s (advance s i l q c k es)
    waits : (d : ℕ) → Step s (record s { world = wait R P d s.world })
    redis_changes : (k : R.Keyspace) → Step s (record s { world = record s.world { redis = k } })

  pub data Reach (w : World R P) : System R P → Type 0 where
    start : Reach w (record { world = w; tasks = λ _. idle })
    later : {s t : System R P} → Reach w s → Step s t → Reach w t

-- What holds of every task still does after one of them has changed.
pub update-all :
    (Q : Task → Type 0) (f : ℕ → Task) (i : ℕ) (t : Task)
    → ((j : ℕ) → Q (f j))
    → Q t
    → (j : ℕ) → Q (update f i t j)
update-all Q f i t h new j = elim (Bool-cases (i == j)) [
  | inl same ↦ rw same new
  | inr other ↦ rw other (h j)
]
