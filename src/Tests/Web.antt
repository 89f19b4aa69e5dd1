-- ===== src/Tests/Web.antt =====
-- HTTP requests of two browsers to one instance, their calls interleaved.
use grab_seat.Base.{ℕ, ◌≡◌, refl, List, [], ◌∷◌, none, some, true, inl, inr, arith, if◌then◌else◌}
use grab_seat.Base.Text.{Str, codes, str_eq}
use Prim.Native.String.{String}
use grab_seat.Base.Assoc.{lookup, insert}
use grab_seat.Api.Handlers.{
  Response, handle_hold, handle_confirm, parse_seat_request, check_seat, held_until,
}
use grab_seat.Api.Server.{get_method, post_method, route, answered}
use grab_seat.Api.Program.{Visit, program}
use grab_seat.Api.Sold.{sold_now, sold_before, sold_elsewhere}
use grab_seat.Api.Snapshot.{build_snapshot}
use grab_seat.World.{World, delivered}
use grab_seat.World.Bookings.{owner}
use grab_seat.System.{past, web_request}
use grab_seat.System.Web.{web_one_buyer, web_no_double_booking, Responded}
use grab_seat.System.Holds.{Undisturbed}
use grab_seat.System.Again.{web_confirm_again}
use grab_seat.System.Contest.{web_one_holder}
use grab_seat.System.Counts.{Accounts, stats_count}
use grab_seat.System.Shown.{FirstServed, ShowsSale, web_sale_shown}
use grab_seat.Tests.Schedule.{Move, arrive, next_call, wait, Reached, play, running}
use mathlib.Core.List.{mem-cons_self}
use grab_seat.Spec.Purchase.{
  held_response, sold_out, hold_visit, confirm_visit, after_purchase, web_purchase,
}
use grab_seat.Tests.Memory.{redis, postgres, memory}
use grab_seat.Tests.Seats.{alice, bob, seat, opening, rebooked, alice-ne-bob}
use grab_seat.Tests.House.{server}

abbrev visit_of : Str → String → Visit
visit_of session path = record {
  passes = true;
  server = server;
  fuel = 3;
  clients = 0;
  request = record {
    method = post_method;
    path = codes path;
    client = record { session_id = session; forwarded_for = []; remote_addr = [] };
    seat = record { session = session; seat_id = some seat };
    origin = [];
    handshake = none;
  };
}

-- Alice's request to hold the seat comes first; each then tries to confirm, and Alice retries.
abbrev rush : List Move
rush =
    arrive 0 (web_request (visit_of alice "/api/hold"))
    ∷ arrive 1 (web_request (visit_of bob "/api/hold"))
    ∷ next_call 0 delivered
    ∷ next_call 1 delivered
    ∷ next_call 0 delivered
    ∷ next_call 0 delivered
    ∷ wait 60000
    ∷ arrive 2 (web_request (visit_of alice "/api/confirm"))
    ∷ arrive 3 (web_request (visit_of bob "/api/confirm"))
    ∷ arrive 4 (web_request (visit_of alice "/api/confirm"))
    ∷ next_call 2 delivered
    ∷ next_call 3 delivered
    ∷ next_call 4 delivered
    ∷ next_call 2 delivered
    ∷ next_call 4 delivered
    ∷ next_call 3 delivered
    ∷ next_call 2 delivered
    ∷ next_call 4 delivered
    ∷ next_call 2 delivered
    ∷ []

abbrev rushed : Reached redis postgres opening
rushed = play redis postgres opening rush

unfoldable serving : Unit {0}
unfolding running program route handle_hold handle_confirm parse_seat_request check_seat lookup
    insert str_eq
serving = tt

alice_buys :
    Responded
      (visit_of alice "/api/confirm")
      (sold_now seat)
      (past (rushed.0.tasks 2))
      (rushed.0.tasks 2)
unfolding serving
alice_buys = refl

alice_retries :
    Responded
      (visit_of alice "/api/confirm")
      (sold_before seat)
      (past (rushed.0.tasks 4))
      (rushed.0.tasks 4)
unfolding serving
alice_retries = refl

web_no_double_booking_example : ◌≡◌ {A = ℕ} 2 2
unfolding serving
web_no_double_booking_example =
    web_no_double_booking redis postgres rushed.1 2 2 (visit_of alice "/api/confirm")
      (visit_of alice "/api/confirm") seat (past (rushed.0.tasks 2)) (past (rushed.0.tasks 2))
      alice_buys alice_buys (refl, refl) (refl, refl)

web_one_buyer_example : (alice ≡ alice) × (owner postgres seat rushed.0.world.db ≡ some alice)
unfolding serving
web_one_buyer_example =
    web_one_buyer redis postgres rushed.1 2 4 (visit_of alice "/api/confirm")
      (visit_of alice "/api/confirm") seat (sold_now seat) (sold_before seat)
      (past (rushed.0.tasks 2)) (past (rushed.0.tasks 4)) alice_buys alice_retries (refl, refl)
      (refl, refl) refl refl

web_sale_shown_example :
    FirstServed redis postgres rushed.0.world (ShowsSale 3 seat alice) (build_snapshot server 3)
unfolding serving
web_sale_shown_example =
    web_sale_shown redis postgres rushed.1 2 (visit_of alice "/api/confirm") seat
      (past (rushed.0.tasks 2)) server 3 alice_buys (refl, refl) refl

stats_count_example : FirstServed redis postgres rushed.0.world (Accounts 1) (
    program (record (visit_of alice "/api/stats") {
      request = record (visit_of alice "/api/stats").request { method = get_method };
    }))
unfolding serving
stats_count_example =
    stats_count redis postgres rushed.1
      (record (visit_of alice "/api/stats") {
        request = record (visit_of alice "/api/stats").request { method = get_method };
      })
      (seat ∷ []) tt refl refl (tt, tt)
      (
        (2, visit_of alice "/api/confirm", past (rushed.0.tasks 2), alice_buys, (refl, refl), refl),
        tt,
      )

-- Both try to hold the seat; a minute passes before the winner is answered.
abbrev contest : List Move
contest =
    arrive 0 (web_request (visit_of alice "/api/hold"))
    ∷ arrive 1 (web_request (visit_of bob "/api/hold"))
    ∷ next_call 1 delivered
    ∷ next_call 0 delivered
    ∷ wait 60000
    ∷ next_call 1 delivered
    ∷ next_call 1 delivered
    ∷ []

abbrev contested : Reached redis postgres opening
contested = play redis postgres opening contest

contested-Undisturbed : Undisturbed redis postgres seat contested.1
unfolding serving
contested-Undisturbed =
    (((((((tt, omega arith), omega arith), tt), tt), λ h. inl (bob, refl)), tt), tt)

abbrev granted : Response
granted = record { status = 200; body = held_until (codes "held") seat 185000 }

web_one_holder_example : ◌≡◌ {A = ℕ} 1 1
unfolding serving
web_one_holder_example =
    web_one_holder redis postgres seat contested.1 contested-Undisturbed 1 1
      (visit_of bob "/api/hold") (visit_of bob "/api/hold") granted granted
      (past (contested.0.tasks 1)) (past (contested.0.tasks 1)) refl refl (refl, refl) (refl, refl)
      refl refl

-- Redis has lost the marker of the seat that Alice bought; Bob asks for it.
abbrev late : List Move
late =
    arrive 0 (web_request (visit_of bob "/api/confirm"))
    ∷ next_call 0 delivered
    ∷ next_call 0 delivered
    ∷ []

abbrev too_late : Reached redis postgres rebooked
too_late = play redis postgres rebooked late

web_confirm_again_example :
    sold_elsewhere seat ≡ (if str_eq alice bob then sold_before seat else sold_elsewhere seat)
unfolding serving
web_confirm_again_example =
    web_confirm_again redis postgres seat alice 0 (visit_of bob "/api/confirm")
      (sold_elsewhere seat) (past (too_late.0.tasks 0)) refl too_late.1 refl (refl, refl) (inr refl)

abbrev bought : World redis postgres
bought = after_purchase redis postgres server seat alice opening

web_purchase_example :
    ((hold_visit redis postgres server seat alice opening).0 ≡ answered (held_response seat 125000))
    × ((confirm_visit redis postgres server seat alice
          (hold_visit redis postgres server seat alice opening).1).0
        ≡ answered (sold_now seat))
    × ((confirm_visit redis postgres server seat alice bought).0 ≡ answered (sold_before seat))
    × ((hold_visit redis postgres server seat bob bought).0 ≡ answered (sold_out seat))
    × ((confirm_visit redis postgres server seat bob bought).0 ≡ answered (sold_elsewhere seat))
unfolding memory
web_purchase_example =
    web_purchase redis postgres server seat alice bob opening (omega arith) alice-ne-bob (λ e. cc e)
      (λ e. cc e) mem-cons_self refl
