-- ===== src/Spec/Purchase.antt =====
-- backend/api with backend/booking/booking.go: one purchase, as the HTTP requests of two browsers.
use mathlib.Core.List.{Mem}
use grab_seat.Base.{none, ◌+◌, ℕ, ◌/◌, ◌<◌, ◌≡◌, ◌≢◌, refl, ◌∙◌, ap, true, inr, some, Option, []}
use grab_seat.Base.Int.{ℤ}
use grab_seat.Base.Text.{Str, codes, str_eq}
use grab_seat.Service.{Result, Prog, ret, call, ◌>>=◌}
use grab_seat.Service.Backends.{Redis, Postgres}
use grab_seat.Locking.{second, millisecond}
use grab_seat.Booking.{Outcome, hold, confirm}
use grab_seat.Api.Snapshot.{ids_of_seats, Server}
use grab_seat.Api.Handlers.{
  Response, SeatRequest, held_until, refused, bookings, hold_response, confirm_response,
  hold_parsed, confirm_parsed, handle_hold, handle_confirm, parse_seat_request,
}
use grab_seat.Api.Known.{parse_seat_request_iff}
use grab_seat.Api.Server.{post_method, route, Served, answered, wrote}
use grab_seat.Api.Program.{Visit, if_admitted, at_route, for_method, program}
use grab_seat.Api.Sold.{sold_now, sold_before, sold_elsewhere}
use grab_seat.World.{World, Link, delivered, run}
use grab_seat.Spec.{seat_view, hold_step}
use grab_seat.Spec.Journey.{free, hold_now, confirm_now, hold_on, purchase}

abbrev pub sold_out : ℤ → Response
sold_out seat = record {
  status = 409;
  body = refused (codes "seat_booked") seat (codes "this seat is already sold");
}

abbrev pub held_response : ℤ → ℕ → Response
held_response seat expires = record { status = 200; body = held_until (codes "held") seat expires }

-- A POST that the limiter lets through.
abbrev pub post_to : Str → Server → ℤ → Str → Visit
post_to path s seat session = record {
  passes = true;
  server = s;
  fuel = 0;
  clients = 0;
  request = record {
    method = post_method;
    path = path;
    client = record { session_id = session; forwarded_for = []; remote_addr = [] };
    seat = record { session = session; seat_id = some seat };
    origin = [];
    handshake = none;
  };
}

module _ (R : Redis) (P : Postgres) where
  run-ret :
      {A B : Type 0} (f : A → B) (m : Prog A) (links : ℕ → Link) (w : World R P)
      → run R P links (m >>= λ a. ret (f a)) w ≡ (f (run R P links m w).0, (run R P links m w).1)
  unfolding run
  run-ret f (ret a) links w = refl
  run-ret f (call c k) links w = run-ret f (k _) _ _

  -- A handler that answers what it makes of a result.
  run-wrote :
      {A : Type 0} (f : A → Option Response) (m : Prog A) (links : ℕ → Link) (w : World R P)
      → let r = run R P links m w in
        run R P links ((m >>= λ a. ret (f a)) >>= λ a. ret (wrote a)) w ≡ (wrote (f r.0), r.1)
  run-wrote f m links w =
      run-ret wrote (m >>= λ a. ret (f a)) links w
      ∙ ap (λ (z : Option Response × World R P). (wrote z.0, z.1)) (run-ret f m links w)

  module _ (s : Server) (seat : ℤ) where
    -- A request that is served while the links are up and nothing else happens.
    abbrev pub hold_visit : Str → World R P → Served × World R P
    hold_visit session w =
        run R P (λ _. delivered) (program (post_to (codes "/api/hold") s seat session)) w

    abbrev pub confirm_visit : Str → World R P → Served × World R P
    confirm_visit session w =
        run R P (λ _. delivered) (program (post_to (codes "/api/confirm") s seat session)) w

    module _ (session : Str) (named : session ≢ []) (known : Mem seat (ids_of_seats s.seats)) where
      abbrev asked : SeatRequest
      asked = record { session = session; seat_id = some seat }

      parsed : parse_seat_request s asked ≡ inr (session, seat)
      parsed = (parse_seat_request_iff s asked session seat).1 (refl, named, refl, known)

      hold_visit_lem :
          (w : World R P)
          → let r = hold_now R P (bookings s) seat session w in
            hold_visit session w ≡ (wrote (hold_response seat r.0), r.1)
      unfolding program for_method at_route if_admitted route str_eq handle_hold hold_parsed
      hold_visit_lem w =
          rw parsed (run-wrote (hold_response seat) (hold (bookings s) seat session) _ w)

      confirm_visit_lem :
          (w : World R P)
          → let r = confirm_now R P (bookings s) seat session w in
            confirm_visit session w ≡ (wrote (confirm_response seat r.0), r.1)
      unfolding program for_method at_route if_admitted route str_eq handle_confirm confirm_parsed
      confirm_visit_lem w =
          rw parsed (run-wrote (confirm_response seat) (confirm (bookings s) seat session) _ w)

      -- What the browser is told, where the services are as in `v`.
      hold_told :
          (w v : World R P) (r : Result (Outcome × ℕ))
          → w ≡ v
          → (hold_now R P (bookings s) seat session v).0 ≡ r
          → (hold_visit session w).0 ≡ wrote (hold_response seat r)
      hold_told w v r same h =
          rw (same, hold_visit_lem v) (ap (λ z. wrote (hold_response seat z)) h)

      confirm_told :
          (w v : World R P) (r : Result Outcome)
          → w ≡ v
          → (confirm_now R P (bookings s) seat session v).0 ≡ r
          → (confirm_visit session w).0 ≡ wrote (confirm_response seat r)
      confirm_told w v r same h =
          rw (same, confirm_visit_lem v) (ap (λ z. wrote (confirm_response seat z)) h)

    -- The two requests of a purchase, one after the other.
    abbrev pub after_purchase : Str → World R P → World R P
    after_purchase session w = (confirm_visit session (hold_visit session w).1).1

    -- While the links are up, the limiter lets the requests through, the hold time is a second or
    -- more, and no one else interferes: a POST of /api/hold and then one of /api/confirm for a free
    -- seat of the venue, by a session that is not empty, are answered 200, with the end of the hold
    -- and with `confirmed`; a second confirm is told `already_mine`, and any other session that is
    -- not empty gets a 409 from then on, to hold and to confirm.
    pub web_purchase :
        (session other : Str) (w : World R P)
        → 0 < s.hold_ttl / second
        → session ≢ other
        → session ≢ []
        → other ≢ []
        → Mem seat (ids_of_seats s.seats)
        → seat_view R P w seat ≡ free R P (bookings s) seat
        → let bought = after_purchase session w in
          ((hold_visit session w).0
            ≡ answered (held_response seat ((w.clock + s.hold_ttl) / millisecond)))
          × ((confirm_visit session (hold_visit session w).1).0 ≡ answered (sold_now seat))
          × ((confirm_visit session bought).0 ≡ answered (sold_before seat))
          × ((hold_visit other bought).0 ≡ answered (sold_out seat))
          × ((confirm_visit other bought).0 ≡ answered (sold_elsewhere seat))
    unfolding hold_response confirm_response hold_step
    web_purchase session other w p different named other_named known is_free =
        let b = bookings s in
        let (sold, again, no_hold, no_sale) =
          purchase R P b seat session other w p different is_free in
        let granted = (hold_on R P b seat session w (free R P b seat) p is_free).0 in
        let mine = hold_visit_lem session named known w in
        let after_hold = ap (λ (z : Served × World R P). z.1) mine in
        let bought =
          ap (λ z. (confirm_visit session z).1) after_hold
          ∙ ap (λ (z : Served × World R P). z.1)
              (confirm_visit_lem session named known (hold_now R P b seat session w).1) in
        (
          hold_told session named known w w _ refl granted,
          confirm_told session named known (hold_visit session w).1 _ _ after_hold sold,
          confirm_told session named known (after_purchase session w) _ _ bought again,
          hold_told other other_named known (after_purchase session w) _ _ bought no_hold,
          confirm_told other other_named known (after_purchase session w) _ _ bought no_sale,
        )
