-- ===== src/System/Web.antt =====
-- backend/api over the shared services: what browsers can rely on, in every state that the HTTP
-- requests to all instances can reach.
use grab_seat.Base.{ℕ, ◌≡◌, refl, sym, subst, ap, inl, inr, List, ◌∷◌, arith, some, Any, All}
use grab_seat.Base.Int.{ℤ}
use grab_seat.Base.Text.{Str}
use grab_seat.Service.{ret, Event}
use grab_seat.Service.Backends.{Redis, Postgres}
use grab_seat.Booking.Paths.{Won}
use grab_seat.Api.Handlers.{Response, Body, done}
use grab_seat.Api.Server.{answered, confirm_route, route, seat_request}
use grab_seat.Api.Program.{Visit}
use grab_seat.Api.Sold.{Sold, sold_now, ConfirmSays, outcome-Sold}
use grab_seat.World.{World}
use grab_seat.World.Bookings.{owner, IsTrue}
use grab_seat.System.{web_request, web_answer, Task, busy, past, System, Reach}
use grab_seat.System.Events.{Answers}
use grab_seat.System.Invariant.{
  Explained, past-owned, past-read, Reach-Explained, Reach-IsTrue, Reach-OneWinner,
}

-- The task is an HTTP request, and it has been answered.
abbrev pub Responded : Visit → Response → List Event → Task → Type 0
Responded v resp es t = t ≡ busy (web_request v) (ret (web_answer (answered resp))) es

-- The request is a POST of /api/confirm for the seat.
abbrev pub Confirms : Visit → ℤ → Type 0
Confirms v seat =
    (route v.request.method v.request.path ≡ confirm_route) × (v.request.seat.seat_id ≡ some seat)

abbrev pub session_of : Visit → Str
session_of v = v.request.client.session_id

says-Sold :
    (v : Visit) (seat : ℤ) (resp : Response) (es : List Event)
    → ConfirmSays v.server (seat_request v.request) es resp
    → v.request.seat.seat_id ≡ some seat
    → resp.status ≡ 200
    → Sold (session_of v) seat es resp
says-Sold v seat resp es (inl (other, _)) asked h = absurd (other h)
says-Sold v seat resp es (inr (session, x, o, (same, given, named, known), says, backed)) asked h =
    let is_seat : x ≡ seat = cc (named, asked) in
    let sold : Sold session x es resp = outcome-Sold session x es o resp says h backed in
    subst (λ z. Sold z seat es resp) (sym same) (subst (λ z. Sold session z es resp) is_seat sold)

first_letter : Body → ℕ
first_letter (done (c ∷ cs) seat) = c
first_letter _ = 0

module _ (R : Redis) (P : Postgres) {w : World R P} {s : System R P} (r : Reach R P w s) where
  facts :
      (i : ℕ) (v : Visit) (resp : Response) (es : List Event)
      → Responded v resp es (s.tasks i)
      → All (IsTrue P s.world.db) es
  facts i v resp es x = subst (λ z. All (IsTrue P s.world.db) (past z)) x (Reach-IsTrue R P r i)

  sale :
      (i : ℕ) (v : Visit) (seat : ℤ) (resp : Response) (es : List Event)
      → Responded v resp es (s.tasks i)
      → Confirms v seat
      → resp.status ≡ 200
      → Sold (session_of v) seat es resp
  sale i v seat resp es x (at_confirm, asked) h =
      let (says, _) = subst (Answers Explained) x (Reach-Explained R P r i) in
      says-Sold v seat resp es (says at_confirm) asked h

  Sold-owner :
      (seat : ℤ) (session : Str) (resp : Response) (es : List Event)
      → All (IsTrue P s.world.db) es
      → Sold session seat es resp
      → owner P seat s.world.db ≡ some session
  Sold-owner seat session resp es h (inl (_, won)) = past-owned R P s.world.db seat session es h won
  Sold-owner seat session resp es h (inr (_, owned)) =
      past-read R P s.world.db seat session es h owned

  buyer :
      (i : ℕ) (v : Visit) (seat : ℤ) (resp : Response) (es : List Event)
      → Responded v resp es (s.tasks i)
      → Confirms v seat
      → resp.status ≡ 200
      → owner P seat s.world.db ≡ some (session_of v)
  buyer i v seat resp es x c h =
      Sold-owner seat (session_of v) resp es (facts i v resp es x) (sale i v seat resp es x c h)

  -- In a reachable state, however the HTTP requests to all instances interleave, whatever fails and
  -- whatever Redis loses: two POSTs of /api/confirm for one seat that were both answered 200 come
  -- from one session, and it owns the seat in the table of bookings.
  pub web_one_buyer :
      (i j : ℕ) (u v : Visit) (seat : ℤ) (a b : Response) (es fs : List Event)
      → Responded u a es (s.tasks i)
      → Responded v b fs (s.tasks j)
      → Confirms u seat
      → Confirms v seat
      → a.status ≡ 200
      → b.status ≡ 200
      → (session_of u ≡ session_of v) × (owner P seat s.world.db ≡ some (session_of u))
  web_one_buyer i j u v seat a b es fs x y c d h k =
      let mine = buyer i u seat a es x c h in (cc (mine, buyer j v seat b fs y d k), mine)

  sold_now-Won :
      (session : Str) (seat : ℤ) (es : List Event)
      → Sold session seat es (sold_now seat)
      → Any (Won seat session) es
  unfolding first_letter
  sold_now-Won session seat es (inl (_, won)) = won
  sold_now-Won session seat es (inr (same, _)) =
      absurd (omega (arith, ap (λ (z : Response). first_letter z.body) same))

  -- Such an answer rests on a row that the request inserted.
  pub web-Won :
      (i : ℕ) (v : Visit) (seat : ℤ) (es : List Event)
      → Responded v (sold_now seat) es (s.tasks i)
      → Confirms v seat
      → Any (Won seat (session_of v)) es
  web-Won i v seat es x c =
      sold_now-Won (session_of v) seat es (sale i v seat (sold_now seat) es x c refl)

  -- However the HTTP requests to all instances interleave, whatever fails and whatever Redis loses:
  -- of all POSTs of /api/confirm for a seat, at most one is answered 200 with the status "confirmed".
  pub web_no_double_booking :
      (i j : ℕ) (u v : Visit) (seat : ℤ) (es fs : List Event)
      → Responded u (sold_now seat) es (s.tasks i)
      → Responded v (sold_now seat) fs (s.tasks j)
      → Confirms u seat
      → Confirms v seat
      → i ≡ j
  web_no_double_booking i j u v seat es fs x y c d =
      Reach-OneWinner R P r i j seat (session_of u) (session_of v)
        (subst (λ z. Any (Won seat (session_of u)) (past z)) (sym x) (web-Won i u seat es x c))
        (subst (λ z. Any (Won seat (session_of v)) (past z)) (sym y) (web-Won j v seat fs y d))
