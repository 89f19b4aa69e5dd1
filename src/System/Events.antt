-- ===== src/System/Events.antt =====
-- What the calls of all requests have in common, and what their answers say of them.
use grab_seat.Base.{ℕ, subst, List, [], All, All-mono}
use grab_seat.Service.{Call, Event}
use grab_seat.Service.Paths.{Ensures}
use grab_seat.Service.Backends.{Redis, Postgres}
use grab_seat.World.{Link, World, exec}
use grab_seat.System.{
  Request, Answer, code, Task, idle, busy, past, System, Step, arrives, calls, waits, redis_changes,
  Reach, start, later, update-all,
}

module _ (R : Redis) (P : Postgres) (D : P.Db → Type 0) (E : Event → Type 0)
    (keeps : (c : Call) (l : Link) (w : World R P) → D w.db → D (exec R P c l w).1.db)
    (shows : (c : Call) (l : Link) (w : World R P) → D w.db → E (c, (exec R P c l w).0)) where
  abbrev AllShow : System R P → Type 0
  AllShow s = D s.world.db × ((i : ℕ) → All E (past (s.tasks i)))

  Step-AllShow : {s t : System R P} → Step R P s t → AllShow s → AllShow t
  Step-AllShow {s} (arrives i q free) (d, h) =
      (d, update-all (λ z. All E (past z)) s.tasks i _ h tt)
  Step-AllShow {s} (calls i l q c k es here) (d, h) = (
    keeps c l s.world d,
    update-all (λ z. All E (past z)) s.tasks i _ h
        (shows c l s.world d, subst (λ z. All E (past z)) here (h i)),
  )
  Step-AllShow (waits n) h = h
  Step-AllShow (redis_changes k) h = h

  pub Reach-AllShow : {w : World R P} {s : System R P} → D w.db → Reach R P w s → AllShow s
  Reach-AllShow d start = (d, λ i. tt)
  Reach-AllShow d (later r st) = Step-AllShow st (Reach-AllShow d r)

-- What every call's reply says of the table that it leaves, if no later call undoes it.
module _ (R : Redis) (P : Postgres) (E : P.Db → Event → Type 0)
    (keeps : (c : Call) (l : Link) (w : World R P) (e : Event)
      → E w.db e
      → E (exec R P c l w).1.db e)
    (shows : (c : Call) (l : Link) (w : World R P)
      → E (exec R P c l w).1.db (c, (exec R P c l w).0)) where
  abbrev AllTrue : System R P → Type 0
  AllTrue s = (i : ℕ) → All (E s.world.db) (past (s.tasks i))

  Step-AllTrue : {s t : System R P} → Step R P s t → AllTrue s → AllTrue t
  Step-AllTrue {s} (arrives i q free) h =
      update-all (λ z. All (E s.world.db) (past z)) s.tasks i _ h tt
  Step-AllTrue {s} (calls i l q c k es here) h =
      let D = (exec R P c l s.world).1.db in
      let later_all : (fs : List Event) → All (E s.world.db) fs → All (E D) fs =
        All-mono (E s.world.db) (E D) (keeps c l s.world) in
      update-all (λ z. All (E D) (past z)) s.tasks i _ (λ j. later_all (past (s.tasks j)) (h j))
        (shows c l s.world, later_all es (subst (λ z. All (E s.world.db) (past z)) here (h i)))
  Step-AllTrue (waits n) h = h
  Step-AllTrue (redis_changes k) h = h

  pub Reach-AllTrue : {w : World R P} {s : System R P} → Reach R P w s → AllTrue s
  Reach-AllTrue start = λ i. tt
  Reach-AllTrue (later r st) = Step-AllTrue st (Reach-AllTrue r)

-- What the code of a request ensures of its answer, whatever the replies, is so of every task.
abbrev pub Answers : (Request → List Event → Answer → Type 0) → Task → Type 0
Answers Q idle = Unit
Answers Q (busy q p es) = Ensures (Q q) es p

module _ (Q : Request → List Event → Answer → Type 0)
    (ensured : (q : Request) → Ensures (Q q) [] (code q)) (R : Redis) (P : Postgres) where
  abbrev AllAnswer : System R P → Type 0
  AllAnswer s = (i : ℕ) → Answers Q (s.tasks i)

  Step-AllAnswer : {s t : System R P} → Step R P s t → AllAnswer s → AllAnswer t
  Step-AllAnswer {s} (arrives i q free) h = update-all (Answers Q) s.tasks i _ h (ensured q)
  Step-AllAnswer {s} (calls i l q c k es here) h =
      update-all (Answers Q) s.tasks i _ h (subst (Answers Q) here (h i) (exec R P c l s.world).0)
  Step-AllAnswer (waits n) h = h
  Step-AllAnswer (redis_changes k) h = h

  pub Reach-AllAnswer : {w : World R P} {s : System R P} → Reach R P w s → AllAnswer s
  Reach-AllAnswer start = λ i. tt
  Reach-AllAnswer (later r st) = Step-AllAnswer st (Reach-AllAnswer r)
