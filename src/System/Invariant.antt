-- ===== src/System/Invariant.antt =====
-- What holds after every step, in whatever order the requests of all instances make their calls.
use grab_seat.Base.{
  ℕ, ◌≡◌, refl, sym, ◌∙◌, subst, inl, inr, List, [], ◌∷◌, none, some, ◌==◌, ==_iff, Bool-cases, All,
  Any, All-Any,
}
use grab_seat.Base.Int.{ℤ}
use grab_seat.Base.Text.{Str}
use grab_seat.Service.{
  Result, ok, err, Call, insert_booking, select_owner, Reply, Prog, ret, call, Event,
}
use grab_seat.Service.Backends.{Redis, Postgres}
use grab_seat.Service.Paths.{Ensures, Ensures-bind, Ensures-any}
use grab_seat.Booking.{confirm}
use grab_seat.Booking.Paths.{Won, Owned, Backed, confirm-Backed}
use grab_seat.Api.Program.{program}
use grab_seat.Api.Sold.{Says, program-Says}
use grab_seat.World.{Link, World, exec}
use grab_seat.World.Bookings.{owner, IsTrue, IsTrue-mono, exec-Grows, exec-IsTrue, insert_wins}
use grab_seat.System.{
  Request, hold_request, confirm_request, Answer, confirm_answer, web_request, web_answer, code,
  Task, busy, past, update, System, advance, arrives, calls, waits, redis_changes, Reach, start,
  later,
}
use grab_seat.System.Events.{Answers, Reach-AllAnswer, Reach-AllTrue}

-- What the answer to a request says of the calls made for it.
abbrev pub Explained : Request → List Event → Answer → Type 0
Explained (confirm_request s seat session) es (confirm_answer r) = Backed seat session es r
Explained (confirm_request s seat session) es _ = ⊥
Explained (web_request v) es (web_answer a) = Says v es a
Explained (web_request v) es _ = ⊥
Explained (hold_request _ _ _) es _ = Unit

code-Explained : (q : Request) → Ensures (Explained q) [] (code q)
code-Explained (hold_request s seat session) =
    Ensures-any (Explained (hold_request s seat session)) (λ es a. tt) [] _
code-Explained (confirm_request s seat session) =
    unfold code in
    Ensures-bind (Backed seat session) (Explained (confirm_request s seat session)) []
      (confirm s seat session) (λ a. ret (confirm_answer a)) (confirm-Backed s seat session)
      (λ fs a h. h)
code-Explained (web_request v) =
    unfold code in
    Ensures-bind (Says v) (Explained (web_request v)) [] (program v) (λ a. ret (web_answer a))
      (program-Says v) (λ fs a h. h)

-- At most one task has events of some kinds, after one task has changed: no other task has them if
-- the new one does.
pub update-one :
    {K : Type 0} (W : K → Event → Type 0) (f : ℕ → Task) (i : ℕ) (t : Task)
    → ((j : ℕ) (k l : K) → Any (W k) (past t) → Any (W l) (past (f j)) → i ≡ j)
    → ((a b : ℕ) (k l : K) → Any (W k) (past (f a)) → Any (W l) (past (f b)) → a ≡ b)
    → (a b : ℕ) (k l : K) → Any (W k) (past (update f i t a))
    → Any (W l) (past (update f i t b))
    → a ≡ b
update-one W f i t alone one a b k l = elim (Bool-cases (i == a)) [
  | inl ia ↦ elim (Bool-cases (i == b)) [
    | inl ib ↦ λ _ _. sym ((==_iff i a).0 ia) ∙ (==_iff i b).0 ib
    | inr other ↦ rw (ia, other) (λ won old. sym ((==_iff i a).0 ia) ∙ alone b k l won old)
  ]
  | inr other ↦ elim (Bool-cases (i == b)) [
    | inl ib ↦ rw (other, ib) (λ old won. sym (alone a l k won old) ∙ (==_iff i b).0 ib)
    | inr others ↦ rw (other, others) (one a b k l)
  ]
]

-- At most one task has ever inserted a row for a seat.
abbrev pub OneWinner : (ℕ → Task) → Type 0
OneWinner f =
    (i j : ℕ) (seat : ℤ) (t u : Str)
    → Any (Won seat t) (past (f i))
    → Any (Won seat u) (past (f j))
    → i ≡ j

module _ (R : Redis) (P : Postgres) where
  -- The answer of every task is explained by its calls, and what they replied is true of the table.
  pub Reach-Explained :
      {w : World R P} {s : System R P} → Reach R P w s → (i : ℕ) → Answers Explained (s.tasks i)
  Reach-Explained = Reach-AllAnswer Explained code-Explained R P

  pub Reach-IsTrue :
      {w : World R P} {s : System R P}
      → Reach R P w s
      → (i : ℕ) → All (IsTrue P s.world.db) (past (s.tasks i))
  Reach-IsTrue =
      Reach-AllTrue R P (IsTrue P) (λ c l w. IsTrue-mono P w.db _ (exec-Grows R P c l w))
        (exec-IsTrue R P)

  Won-owned :
      (d : P.Db) (seat : ℤ) (t : Str) (e : Event)
      → IsTrue P d e
      → Won seat t e
      → owner P seat d ≡ some t
  Won-owned d seat t (insert_booking _ s u, ok _) h (p, q) = cc
  Won-owned d seat t e h w = absurd w

  pub past-owned :
      (d : P.Db) (seat : ℤ) (t : Str) (es : List Event)
      → All (IsTrue P d) es
      → Any (Won seat t) es
      → owner P seat d ≡ some t
  past-owned d seat t es =
      All-Any (IsTrue P d) (Won seat t) (owner P seat d ≡ some t) (Won-owned d seat t) es

  Owned-owner :
      (d : P.Db) (seat : ℤ) (t : Str) (e : Event)
      → IsTrue P d e
      → Owned seat t e
      → owner P seat d ≡ some t
  Owned-owner d seat t (select_owner _, ok _) h (p, q) = cc
  Owned-owner d seat t e h w = absurd w

  pub past-read :
      (d : P.Db) (seat : ℤ) (t : Str) (es : List Event)
      → All (IsTrue P d) es
      → Any (Owned seat t) es
      → owner P seat d ≡ some t
  past-read d seat t es =
      All-Any (IsTrue P d) (Owned seat t) (owner P seat d ≡ some t) (Owned-owner d seat t) es

  insert_fresh :
      (event s : ℤ) (u : Str) (l : Link) (w : World R P) (seat : ℤ) (t : Str) (r : Result Str)
      → (exec R P (insert_booking event s u) l w).0 ≡ r
      → Won seat t (insert_booking event s u, r)
      → owner P seat w.db ≡ none
  insert_fresh event s u l w seat t (ok o) e (p, q) =
      subst (λ z. owner P z w.db ≡ none) p (insert_wins R P event s u l w e).0
  insert_fresh event s u l w seat t (err _) e h = absurd h

  -- A call that inserts a row found the seat free.
  fresh_win :
      (c : Call) (l : Link) (w : World R P) (seat : ℤ) (t : Str)
      → Won seat t (c, (exec R P c l w).0)
      → owner P seat w.db ≡ none
  fresh_win (insert_booking event s u) l w seat t h = insert_fresh event s u l w seat t _ refl h
  fresh_win (select_owner s) l w seat t h = absurd h
  fresh_win _ l w seat t h = absurd h

  module _ {w : World R P} (s : System R P) (r : Reach R P w s) (i : ℕ) (l : Link) (q : Request)
      (c : Call) (k : Reply c → Prog Answer) (es : List Event)
      (here : s.tasks i ≡ busy q (call c k) es) (one : OneWinner s.tasks) where
    -- A task whose call inserted a row is the first: no other task has won that seat.
    alone :
        (j : ℕ) (seat : ℤ) (t u : Str)
        → Any (Won seat t) ((c, (exec R P c l s.world).0) ∷ es)
        → Any (Won seat u) (past (s.tasks j))
        → i ≡ j
    alone j seat t u (inl new) old = absurd (
        cc (
          fresh_win c l s.world seat t new,
          past-owned s.world.db seat u (past (s.tasks j)) (Reach-IsTrue r j) old,
        ))
    alone j seat t u (inr won) old =
        one i j seat t u (subst (λ z. Any (Won seat t) (past z)) (sym here) won) old

    calls-OneWinner : OneWinner (advance R P s i l q c k es).tasks
    calls-OneWinner a b seat t u =
        update-one (Won seat) s.tasks i _ (λ j t u. alone j seat t u) (λ a b t u. one a b seat t u)
          a b t u

  -- A task that has just come in has made no call.
  pub arrives-past :
      (W : Event → Type 0) (f : ℕ → Task) (i : ℕ) (q : Request) (p : Prog Answer) (a : ℕ)
      → Any W (past (update f i (busy q p []) a))
      → Any W (past (f a))
  arrives-past W f i q p a h = elim (Bool-cases (i == a)) [
    | inl same ↦ absurd (rw same at h)
    | inr other ↦ rw other at h
  ]

  -- Every step of any request on any instance, time that passes, and any change in Redis keep it.
  pub Reach-OneWinner : {w : World R P} {s : System R P} → Reach R P w s → OneWinner s.tasks
  Reach-OneWinner start = λ i j seat t u h. absurd h
  Reach-OneWinner (later {s} r (arrives i q free)) = λ a b seat t u x y.
      Reach-OneWinner r a b seat t u (arrives-past (Won seat t) s.tasks i q (code q) a x)
        (arrives-past (Won seat u) s.tasks i q (code q) b y)
  Reach-OneWinner (later {s} r (calls i l q c k es here)) =
      calls-OneWinner s r i l q c k es here (Reach-OneWinner r)
  Reach-OneWinner (later r (waits d)) = Reach-OneWinner r
  Reach-OneWinner (later r (redis_changes k)) = Reach-OneWinner r
