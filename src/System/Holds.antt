-- ===== src/System/Holds.antt =====
-- How many requests to hold a seat can be granted while Redis keeps the hold and the marker of it.
use grab_seat.Base.{ℕ, ◌≡◌, sym, subst, inl, inr, List, [], ◌∷◌, Any}
use grab_seat.Base.Int.{ℤ}
use grab_seat.Base.Text.{Str}
use grab_seat.Service.{ok, Call, Reply, Prog, ret, call, Event}
use grab_seat.Service.Backends.{Redis, Postgres}
use grab_seat.Service.Paths.{Ensures, Ensures-bind, Ensures-any, Only}
use grab_seat.Booking.{held, BookingService, hold}
use grab_seat.Booking.Keyed.{Keyed, Acquired, Granted, hold-Granted}
use grab_seat.World.{Link, World, exec}
use grab_seat.World.Holds.{Locked, Free-Locked, exec-Locked, exec-acquires}
use grab_seat.System.{
  Request, hold_request, confirm_request, Answer, hold_answer, web_request, web_answer, code, Task,
  idle, past, busy, update-all, System, advance, Step, arrives, calls, waits, redis_changes, Reach,
  start, later,
}
use grab_seat.Api.Program.{program}
use grab_seat.Api.Sold.{Says, program-Says}
use grab_seat.System.Calls.{Lasting, code-Keyed}
use grab_seat.System.Invariant.{update-one, arrives-past}

-- What the answer to a request to hold says of the calls made for it.
abbrev pub GrantedFor : Request → List Event → Answer → Type 0
GrantedFor (hold_request s seat session) es (hold_answer r) = Granted seat es r
GrantedFor (hold_request s seat session) es _ = ⊥
GrantedFor (confirm_request _ _ _) es _ = Unit
GrantedFor (web_request v) es (web_answer a) = Says v es a
GrantedFor (web_request v) es _ = ⊥

-- A task that keeps to its request.
abbrev pub Sound : Task → Type 0
Sound idle = Unit
Sound (busy q p es) = Ensures (GrantedFor q) es p × Only Keyed p

code-GrantedFor : (q : Request) → Ensures (GrantedFor q) [] (code q)
unfolding code
code-GrantedFor (hold_request s seat session) =
    Ensures-bind (Granted seat) (GrantedFor (hold_request s seat session)) [] (hold s seat session)
      (λ a. ret (hold_answer a)) (hold-Granted s seat session) (λ fs a h. h)
code-GrantedFor (confirm_request s seat session) =
    Ensures-any (GrantedFor (confirm_request s seat session)) (λ es a. tt) [] _
code-GrantedFor (web_request v) =
    Ensures-bind (Says v) (GrantedFor (web_request v)) [] (program v) (λ a. ret (web_answer a))
      (program-Says v) (λ fs a h. h)

module _ (R : Redis) (P : Postgres) (seat : ℤ) where
  abbrev Got : Unit {0} → Event → Type 0
  Got _ = Acquired seat

  -- A step that takes no hold or marker of the seat from Redis, but by a call; and a request that
  -- comes in is of a service whose holds last a second or more.
  abbrev pub Gentle : {s t : System R P} → Step R P s t → Type 0
  Gentle (arrives i q free) = Lasting q
  Gentle (calls i l q c k es here) = Unit
  Gentle {s} (waits d) = Locked R seat s.world.redis → Locked R seat (R.elapse d s.world.redis)
  Gentle {s} (redis_changes k) = Locked R seat s.world.redis → Locked R seat k

  abbrev pub Undisturbed : {w : World R P} {s : System R P} → Reach R P w s → Type 0
  Undisturbed start = Unit
  Undisturbed (later r st) = Undisturbed r × Gentle st

  pub record HoldInv (s : System R P) : Type 0 where
    pub sound : (i : ℕ) → Sound (s.tasks i)
    pub locked : (i : ℕ) → Any (Acquired seat) (past (s.tasks i)) → Locked R seat s.world.redis
    pub one :
        (i j : ℕ) (k l : Unit {0})
        → Any (Acquired seat) (past (s.tasks i))
        → Any (Acquired seat) (past (s.tasks j))
        → i ≡ j

  module _ (s : System R P) (inv : HoldInv s) (i : ℕ) (l : Link) (q : Request) (c : Call)
      (k : Reply c → Prog Answer) (es : List Event) (here : s.tasks i ≡ busy q (call c k) es) where
    own-Sound : Sound (busy q (call c k) es)
    own-Sound = subst Sound here (inv.sound i)

    keyed : Keyed c
    keyed = own-Sound.1.0

    own_past : Any (Acquired seat) es → Any (Acquired seat) (past (s.tasks i))
    own_past got = subst (λ z. Any (Acquired seat) (past z)) (sym here) got

    -- A task that acquires the hold is the only one that has.
    alone :
        (j : ℕ)
        → Any (Acquired seat) ((c, (exec R P c l s.world).0) ∷ es)
        → Any (Acquired seat) (past (s.tasks j))
        → i ≡ j
    alone j (inl new) old = absurd (
        Free-Locked R seat s.world.redis (exec-acquires R P c l s.world seat keyed new).0
          (inv.locked j old))
    alone j (inr before) old = inv.one i j tt tt (own_past before) old

    stays : Locked R seat s.world.redis → Locked R seat (exec R P c l s.world).1.redis
    stays = exec-Locked R P c l s.world seat keyed

    after-Locked :
        Any (Acquired seat) ((c, (exec R P c l s.world).0) ∷ es)
        → Locked R seat (exec R P c l s.world).1.redis
    after-Locked (inl new) = (exec-acquires R P c l s.world seat keyed new).1
    after-Locked (inr before) = stays (inv.locked i (own_past before))

    calls-HoldInv : HoldInv (advance R P s i l q c k es)
    calls-HoldInv = record {
      sound = update-all Sound s.tasks i _ inv.sound (own-Sound.0 _, own-Sound.1.1 _);
      locked =
          update-all
            (λ z. Any (Acquired seat) (past z) → Locked R seat (exec R P c l s.world).1.redis)
            s.tasks i _ (λ j got. stays (inv.locked j got)) after-Locked;
      one = update-one Got s.tasks i _ (λ j a b. alone j) inv.one;
    }

  Step-HoldInv : {s t : System R P} (st : Step R P s t) → Gentle st → HoldInv s → HoldInv t
  Step-HoldInv {s} (arrives i q free) lasts inv = record {
    sound = update-all Sound s.tasks i _ inv.sound ((code-GrantedFor q, code-Keyed q lasts));
    locked = λ j got. inv.locked j (arrives-past R P (Acquired seat) s.tasks i q (code q) j got);
    one = λ a b k l x y.
        inv.one a b k l (arrives-past R P (Acquired seat) s.tasks i q (code q) a x)
          (arrives-past R P (Acquired seat) s.tasks i q (code q) b y);
  }
  Step-HoldInv {s} (calls i l q c k es here) gentle inv = calls-HoldInv s inv i l q c k es here
  Step-HoldInv (waits d) keeps inv = record {
    sound = inv.sound;
    locked = λ i got. keeps (inv.locked i got);
    one = inv.one;
  }
  Step-HoldInv (redis_changes k) keeps inv = record {
    sound = inv.sound;
    locked = λ i got. keeps (inv.locked i got);
    one = inv.one;
  }

  pub Reach-HoldInv :
      {w : World R P} {s : System R P} (r : Reach R P w s) → Undisturbed r → HoldInv s
  Reach-HoldInv start u = record {
    sound = λ i. tt;
    locked = λ i got. absurd got;
    one = λ i j k l got. absurd got;
  }
  Reach-HoldInv (later r st) (u, gentle) = Step-HoldInv st gentle (Reach-HoldInv r u)

  -- The task is a request to hold the seat, and it has been granted.
  abbrev pub IsHolder : BookingService → Str → ℕ → List Event → Task → Type 0
  IsHolder s session expires es t =
      t ≡ busy (hold_request s seat session) (ret (hold_answer (ok (held, expires)))) es

  -- However the requests of all instances interleave and whatever links fail: as long as Redis itself
  -- drops neither the hold nor the booked marker of a seat, and holds last a second or more, of all
  -- requests to hold the seat at most one is granted.
  pub one_holder :
      {w : World R P} {s : System R P} (r : Reach R P w s)
      → Undisturbed r
      → (i j : ℕ) (a b : BookingService) (t u : Str) (m n : ℕ) (es fs : List Event)
      → IsHolder a t m es (s.tasks i)
      → IsHolder b u n fs (s.tasks j)
      → i ≡ j
  one_holder {s} r gentle i j a b t u m n es fs x y =
      let inv = Reach-HoldInv r gentle in
      inv.one i j tt tt
        (subst (λ z. Any (Acquired seat) (past z)) (sym x) (subst Sound x (inv.sound i)).0)
        (subst (λ z. Any (Acquired seat) (past z)) (sym y) (subst Sound y (inv.sound j)).0)
