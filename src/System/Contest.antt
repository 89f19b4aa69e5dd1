-- ===== src/System/Contest.antt =====
-- backend/api over the shared services: of those that ask to hold a seat, how many get it.
use grab_seat.Base.{ℕ, ◌≡◌, sym, subst, inl, inr, List, Any, Any-mono, some, arith}
use grab_seat.Base.Int.{ℤ}
use grab_seat.Base.Text.{Str}
use grab_seat.Service.{ok, eval_hold, Event}
use grab_seat.Service.Backends.{Redis, Postgres}
use grab_seat.Booking.Keyed.{Acquired}
use grab_seat.World.{World}
use grab_seat.System.{past, System, Reach}
use grab_seat.Api.Program.{Visit}
use grab_seat.Api.Sold.{HoldSays}
use grab_seat.System.Web.{Responded}
use grab_seat.Api.Answers.{Tried}
use grab_seat.Api.Handlers.{Response}
use grab_seat.Api.Server.{hold_route, route, seat_request}
use grab_seat.Locking.Keys.{hold_key, hold_acquired}
use grab_seat.System.Holds.{Sound, HoldInv, Undisturbed, Reach-HoldInv}

module _ (R : Redis) (P : Postgres) (seat : ℤ) where
  -- The request is a POST of /api/hold for the seat.
  abbrev pub Asks : Visit → Type 0
  Asks v =
      (route v.request.method v.request.path ≡ hold_route) × (v.request.seat.seat_id ≡ some seat)

  Tried-Acquired :
      (x : ℤ) (session : Str) (e : Event)
      → x ≡ seat
      → Tried x session hold_acquired e
      → Acquired seat e
  Tried-Acquired x session (eval_hold h b t n, ok v) same (is_hold, _, _, got) =
      (subst (λ z. h ≡ hold_key z) same is_hold, got)
  Tried-Acquired x session e same h = absurd h

  says-Acquired :
      (v : Visit) (a : Response) (es : List Event)
      → HoldSays v.server (seat_request v.request) es a
      → v.request.seat.seat_id ≡ some seat
      → a.status ≡ 200
      → Any (Acquired seat) es
  says-Acquired v a es (inl other) asked h = absurd (other h)
  says-Acquired v a es (inr (session, x, (_, _, named, _), inl (_, tried))) asked h =
      Any-mono _ _ (λ e. Tried-Acquired x session e (cc (named, asked))) es tried
  says-Acquired v a es (inr (session, x, p, inr (inl (refused, _)))) asked h =
      absurd (omega (arith, refused, h))
  says-Acquired v a es (inr (session, x, p, inr (inr failed))) asked h =
      absurd (omega (arith, failed, h))

  got_hold :
      {s : System R P} (inv : HoldInv R P seat s) (i : ℕ) (v : Visit) (a : Response)
      (es : List Event)
      → Responded v a es (s.tasks i)
      → Asks v
      → a.status ≡ 200
      → Any (Acquired seat) (past (s.tasks i))
  got_hold inv i v a es x (at_hold, asked) h =
      let ((_, says), _) = subst Sound x (inv.sound i) in
      subst (λ z. Any (Acquired seat) (past z)) (sym x)
        (says-Acquired v a es (says at_hold) asked h)

  -- However the HTTP requests to all instances interleave and whatever links fail: as long as Redis
  -- itself drops neither the hold nor the booked marker of a seat, and holds last a second or more,
  -- of all POSTs of /api/hold for the seat at most one is answered 200.
  pub web_one_holder :
      {w : World R P} {s : System R P} (r : Reach R P w s)
      → Undisturbed R P seat r
      → (i j : ℕ) (u v : Visit) (a b : Response) (es fs : List Event) → Responded u a es (s.tasks i)
      → Responded v b fs (s.tasks j)
      → Asks u
      → Asks v
      → a.status ≡ 200
      → b.status ≡ 200
      → i ≡ j
  web_one_holder r gentle i j u v a b es fs x y c d h k =
      let inv = Reach-HoldInv R P seat r gentle in
      inv.one i j tt tt (got_hold inv i u a es x c h) (got_hold inv j v b fs y d k)
