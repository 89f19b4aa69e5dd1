-- ===== src/System/Shown.antt =====
-- backend/api/api.go with backend/booking/booking.go: a sold seat in the snapshots taken after the sale.
use grab_seat.Base.{
  ℕ, ◌≤◌, ◌≡◌, refl, sym, subst, List, [], ◌∷◌, Option, none, some, All, All-Any, Any-mono,
  Any-both, Any,
}
use grab_seat.Base.Int.{ℤ}
use grab_seat.Base.Text.{Str}
use grab_seat.Base.Assoc.{lookup, Unique}
use grab_seat.Model.{Snapshot}
use grab_seat.Service.{Result, ok, err, insert_booking, Event, Prog, ret, call}
use grab_seat.Service.Paths.{Ensures, Ensures-bind, Ensures-both, Only-Ensures}
use grab_seat.Service.Backends.{Redis, Postgres}
use grab_seat.Locking.Held.{Held, held_seats}
use grab_seat.Locking.Listing.{FaithfulEnd, held_seats-Faithful}
use grab_seat.Locking.Pages.{more_pages, Spent, held_seats-Spent}
use grab_seat.Store.{booked_seats}
use grab_seat.Booking.{BookingService, confirmed}
use grab_seat.Booking.Paths.{Won}
use grab_seat.Api.Snapshot.{
  Server, Booked, booked_state, snapshot_of, after_held, after_booked, build_snapshot,
}
use grab_seat.Api.Merge.{view, view_sold, Once, seat_states-Once}
use grab_seat.Api.Honest.{Live-Keyed}
use grab_seat.Store.Table.{booked_query}
use grab_seat.Main.Startup.{collect-Unique}
use grab_seat.World.{delivered, World, exec, row}
use grab_seat.World.Sales.{SoldTo, lookup-collect, Sale, exec-Sale, reply-Sale}
use grab_seat.System.{
  past, Request, busy, confirm_request, web_request, web_answer, Answer, confirm_answer, code,
  System, Reach,
}
use grab_seat.System.Events.{Reach-AllTrue, Answers, Reach-AllAnswer}
use grab_seat.System.Safety.{Answered, Answered-Backed}
use grab_seat.System.Calls.{service, OfEvent, code-OfEvent}
use grab_seat.System.Web.{Responded, Confirms, session_of, web-Won}
use grab_seat.Api.Server.{answered}
use grab_seat.Api.Program.{Visit}
use grab_seat.Api.Sold.{sold_now}

-- The event inserted a row of the event for the seat and session.
abbrev Inserted : ℤ → ℤ → Str → Event → Type 0
Inserted event seat session (insert_booking e s t, ok _) = (e ≡ event) × (s ≡ seat) × (t ≡ session)
Inserted event seat session _ = ⊥

own_event :
    (event seat : ℤ) (session : Str) (e : Event)
    → OfEvent event e.0 × Won seat session e
    → Inserted event seat session e
own_event event seat session (insert_booking e s t, ok o) (h, (p, q)) = (h, p, q)
own_event event seat session e (h, won) = absurd won

-- The rows that a request inserts are of its instance's event.
abbrev Inserts : Request → List Event → Answer → Type 0
Inserts q es a = All (λ e. OfEvent (service q).event_id e.0) es

code-Inserts : (q : Request) → Ensures (Inserts q) [] (code q)
code-Inserts q = Only-Ensures (OfEvent (service q).event_id) [] (code q) (code-OfEvent q) tt

-- The snapshot has every seat at most once, and this one as booked by the session; or HeldSeats has
-- used up its fuel on pages.
abbrev pub ShowsSale : ℕ → ℤ → Str → List Event → Option (Result Snapshot) → Type 0
ShowsSale fuel seat session es (some (ok snap)) =
    Once snap.seats × (view seat snap.seats ≡ some (booked_state seat session))
ShowsSale fuel seat session es (some (err _)) = ⊥
ShowsSale fuel seat session es none = fuel ≤ more_pages es

after_held-ShowsSale :
    (srv : Server) (fuel : ℕ) (seat : ℤ) (session : Str) (booked : Booked) (es : List Event)
    (r : Option (Result Held))
    → Unique booked
    → lookup seat booked ≡ some session
    → Spent fuel es r × FaithfulEnd es r
    → Ensures (ShowsSale fuel seat session) es (after_held srv booked r)
unfolding after_held snapshot_of
after_held-ShowsSale srv fuel seat session booked es none unique sold (spent, h) = spent refl
after_held-ShowsSale srv fuel seat session booked es (some (ok held)) unique sold
      (spent, (once, live)) =
    let keyed = Live-Keyed es held live in
    λ t. (seat_states-Once booked held unique once keyed, view_sold seat booked held keyed sold)
after_held-ShowsSale srv fuel seat session booked es (some (err e)) unique sold (spent, h) =
    λ t. (seat_states-Once booked [] unique tt tt, view_sold seat booked [] tt sold)

after_booked-ShowsSale :
    (srv : Server) (fuel : ℕ) (seat : ℤ) (session : Str) (booked : Booked) (es : List Event)
    → Unique booked
    → lookup seat booked ≡ some session
    → Ensures (ShowsSale fuel seat session) es (after_booked srv fuel (ok booked))
unfolding after_booked
after_booked-ShowsSale srv fuel seat session booked es unique sold =
    Ensures-bind (λ fs r. Spent fuel fs r × FaithfulEnd fs r) (ShowsSale fuel seat session) es
      (held_seats fuel) (after_held srv booked)
      (Ensures-both (Spent fuel) FaithfulEnd es (held_seats fuel) (held_seats-Spent fuel es)
        (held_seats-Faithful fuel es))
      (λ fs r. after_held-ShowsSale srv fuel seat session booked fs r unique sold)

module _ (R : Redis) (P : Postgres) where
  -- A program whose first call is served in the world, and whose later calls get any reply.
  abbrev pub FirstServed : {A : Type 0} → World R P → (List Event → A → Type 0) → Prog A → Type 0
  FirstServed w Q (ret a) = Q [] a
  FirstServed w Q (call c k) = let r = (exec R P c delivered w).0 in Ensures Q ((c, r) ∷ []) (k r)

  sold_row :
      (d : P.Db) (event seat : ℤ) (session : Str) (e : Event)
      → Sale P d e
      → Inserted event seat session e
      → SoldTo (row event seat session) (P.rows d)
  sold_row d event seat session (insert_booking e s t, ok _) sale (p, q, u) =
      rw (sym p, sym q, sym u) sale
  sold_row d event seat session e sale h = absurd h

  module _ {w : World R P} {s : System R P} (r : Reach R P w s) where
    pub Won-SoldTo :
        (i : ℕ) (q : Request) (a : Answer) (seat : ℤ) (session : Str) (es : List Event)
        → s.tasks i ≡ busy q (ret a) es
        → Any (Won seat session) es
        → SoldTo (row (service q).event_id seat session) (P.rows s.world.db)
    Won-SoldTo i q a seat session es x won =
        let event = (service q).event_id in
        All-Any (Sale P s.world.db) (Inserted event seat session) _
          (sold_row s.world.db event seat session) es
          (subst (λ z. All (Sale P s.world.db) (past z)) x
            (Reach-AllTrue R P (Sale P) (exec-Sale R P) (reply-Sale R P) r i))
          (Any-mono _ _ (own_event event seat session) es (
            Any-both (λ e. OfEvent event e.0) (Won seat session) es
              (subst (Answers Inserts) x (Reach-AllAnswer Inserts code-Inserts R P r i)) won))

    shown_after :
        (i : ℕ) (q : Request) (a : Answer) (seat : ℤ) (session : Str) (es : List Event)
        (srv : Server) (fuel : ℕ)
        → s.tasks i ≡ busy q (ret a) es
        → Any (Won seat session) es
        → srv.event.id ≡ (service q).event_id
        → FirstServed s.world (ShowsSale fuel seat session) (build_snapshot srv fuel)
    unfolding build_snapshot booked_seats exec
    shown_after i q a seat session es srv fuel x won same =
        let sold =
          lookup-collect (row (service q).event_id seat session) (P.rows s.world.db)
            (Won-SoldTo i q a seat session es x won) in
        after_booked-ShowsSale srv fuel seat session _ _
          (collect-Unique (booked_query srv.event.id (P.rows s.world.db)) [] tt) (rw same sold)

    -- In a reachable state in which Confirm has returned `confirmed` for a seat: if an instance that
    -- serves the same event takes a snapshot, its query of the bookings is served in that state, and
    -- Redis replies whatever it may, then the snapshot has each seat at most once, and this one as booked
    -- by that session, unless the fuel of HeldSeats is used up by pages after which Redis announced another.
    pub sold_stays_shown :
        (i : ℕ) (b : BookingService) (seat : ℤ) (session : Str) (es : List Event) (srv : Server)
        (fuel : ℕ)
        → Answered b seat session confirmed es (s.tasks i)
        → srv.event.id ≡ b.event_id
        → FirstServed s.world (ShowsSale fuel seat session) (build_snapshot srv fuel)
    sold_stays_shown i b seat session es srv fuel x =
        shown_after i (confirm_request b seat session) (confirm_answer (ok confirmed)) seat session
          es srv fuel x (Answered-Backed R P r i b seat session confirmed es x)

    -- In a reachable state in which a POST of /api/confirm for a seat has been answered 200 with the
    -- status "confirmed": if an instance that serves the same event takes a snapshot, its query of
    -- the bookings is served in that state, and Redis replies whatever it may, then the snapshot has each
    -- seat at most once, and this one as booked by the session of that request. There is none only
    -- if the fuel of HeldSeats is used up by pages after which Redis announced another.
    pub web_sale_shown :
        (i : ℕ) (v : Visit) (seat : ℤ) (es : List Event) (srv : Server) (fuel : ℕ)
        → Responded v (sold_now seat) es (s.tasks i)
        → Confirms v seat
        → srv.event.id ≡ v.server.event.id
        → FirstServed s.world (ShowsSale fuel seat (session_of v)) (build_snapshot srv fuel)
    web_sale_shown i v seat es srv fuel x c =
        shown_after i (web_request v) (web_answer (answered (sold_now seat))) seat (session_of v) es
          srv fuel x (web-Won R P r i v seat es x c)
