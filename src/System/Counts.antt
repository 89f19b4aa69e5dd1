-- ===== src/System/Counts.antt =====
-- GET /api/stats over the shared services: backend/api/handlers.go with BookingStats of
-- backend/store/store.go and the confirmations that have been answered.
use grab_seat.Base.{
  ℕ, ◌≤◌, suc, true, Bool-cases, ◌≡◌, ◌≢◌, refl, sym, ◌∙◌, subst, inl, inr, List, [], ◌∷◌, length,
  All, All-mono, Any, if◌then◌else◌, arith,
}
use grab_seat.Base.Int.{ℤ, pos, int_eq, int_eq_refl, int_eq→eq, ne→int_eq}
use grab_seat.Service.{Event}
use grab_seat.Service.Backends.{Redis, Booking, Postgres}
use grab_seat.Store.{booking_stats}
use grab_seat.Store.Table.{of_event, has_seat, stats_query}
use grab_seat.Api.Handlers.{Response, counts, difference, stats_response, handle_stats}
use grab_seat.Api.Server.{get_method, route, stats_route, Served, answered}
use grab_seat.Api.Sold.{sold_now}
use grab_seat.Api.Program.{Visit, at_route, for_method, program}
use grab_seat.World.{World, exec, row}
use grab_seat.System.{System, Reach, web_request, web_answer}
use grab_seat.System.Web.{Responded, Confirms, session_of, web-Won}
use grab_seat.System.Shown.{FirstServed, Won-SoldTo}
use grab_seat.System.Stats.{UniqueSeats, stats_agree}

-- The rows of other seats.
unfoldable without : ℤ → List Booking → List Booking
without seat [] = []
without seat (b ∷ bs) =
    let rest = without seat bs in if int_eq b.seat_id seat then rest else b ∷ rest

length-without : (seat : ℤ) (bs : List Booking) → length (without seat bs) ≤ length bs
unfolding without
length-without seat [] = omega arith
length-without seat (b ∷ bs) = ground (arith, length-without seat bs)

length-without_seat :
    (seat : ℤ) (bs : List Booking)
    → has_seat seat bs ≡ true
    → suc (length (without seat bs)) ≤ length bs
unfolding without has_seat
length-without_seat seat [] h = cc
length-without_seat seat (b ∷ bs) h =
    ground (arith, length-without seat bs, length-without_seat seat bs)

has_seat-without :
    (x seat : ℤ) (bs : List Booking)
    → x ≢ seat
    → has_seat x bs ≡ true
    → has_seat x (without seat bs) ≡ true
unfolding without has_seat
has_seat-without x seat [] other h = h
has_seat-without x seat (b ∷ bs) other h = elim (Bool-cases (int_eq b.seat_id seat)) [
  | inl here ↦ rw here (
      has_seat-without x seat bs other
        (rw (ne→int_eq b.seat_id x (λ e. other (sym e ∙ int_eq→eq b.seat_id seat here))) at h))
  | inr there ↦ rw there (elim (Bool-cases (int_eq b.seat_id x)) [
    | inl mine ↦ rw mine refl
    | inr no_match ↦ rw no_match (has_seat-without x seat bs other (rw no_match at h))
  ])
]

-- Seats that are different from each other.
abbrev pub DistinctSeats : List ℤ → Type 0
DistinctSeats [] = Unit
DistinctSeats (x ∷ xs) = All (λ y. y ≢ x) xs × DistinctSeats xs

still_there :
    (x : ℤ) (seats : List ℤ) (bs : List Booking)
    → All (λ y. y ≢ x) seats
    → All (λ y. has_seat y bs ≡ true) seats
    → All (λ y. has_seat y (without x bs) ≡ true) seats
still_there x [] bs other h = tt
still_there x (y ∷ ys) bs (other, others) (h, hs) =
    (has_seat-without y x bs other h, still_there x ys bs others hs)

-- Rows that have all of these seats are no fewer than the seats.
seats_fit :
    (seats : List ℤ) (bs : List Booking)
    → DistinctSeats seats
    → All (λ x. has_seat x bs ≡ true) seats
    → length seats ≤ length bs
seats_fit [] bs distinct h = omega arith
seats_fit (x ∷ xs) bs (new, distinct) (here, h) = omega (
  arith,
  seats_fit xs (without x bs) distinct (still_there x xs bs new h),
  length-without_seat x bs here,
)

has_sold_seat :
    (b : Booking) (rows : List Booking)
    → Any (λ r. r ≡ b) rows
    → has_seat b.seat_id (of_event b.event_id rows) ≡ true
unfolding has_seat of_event
has_sold_seat b [] h = absurd h
has_sold_seat b (r ∷ rows) (inl same) =
    rw (same, int_eq_refl b.event_id, int_eq_refl b.seat_id) refl
has_sold_seat b (r ∷ rows) (inr h) = elim (Bool-cases (int_eq r.event_id b.event_id)) [
  | inl here ↦ rw here (elim (Bool-cases (int_eq r.seat_id b.seat_id)) [
    | inl mine ↦ rw mine refl
    | inr other ↦ rw other (has_sold_seat b rows h)
  ])
  | inr there ↦ rw there (has_sold_seat b rows h)
]

difference_none : (n : ℕ) → difference n n ≡ pos 0
unfolding difference
difference_none n = ground arith

-- The response of GET /api/stats: no double booking, and at least this many bookings.
abbrev pub Accounts : ℕ → List Event → Served → Type 0
Accounts sales es (answered resp) =
    (n : ℕ) × (resp ≡ record { status = 200; body = counts n n (pos 0) }) × (sales ≤ n)
Accounts sales es _ = ⊥

agreeing :
    (total distinct sales : ℕ)
    → total ≡ distinct
    → sales ≤ total
    → (n : ℕ) × (◌≡◌ {A = Response}
        (record { status = 200; body = counts total distinct (difference total distinct) })
        (record { status = 200; body = counts n n (pos 0) }))
      × (sales ≤ n)
agreeing total distinct sales same few = (total, rw (sym same, difference_none total) refl, few)

module _ (R : Redis) (P : Postgres) where
  -- A POST of /api/confirm for the seat, to an instance of the event, has been answered 200 with the
  -- status "confirmed".
  abbrev pub SoldIn : System R P → ℤ → ℤ → Type 0
  SoldIn s event seat =
      (i : ℕ) × (v : Visit) × (es : List Event) × Responded v (sold_now seat) es (s.tasks i)
      × Confirms v seat
      × (v.server.event.id ≡ event)

  module _ {w : World R P} {s : System R P} (r : Reach R P w s) where
    sold-has_seat :
        (event seat : ℤ)
        → SoldIn s event seat
        → has_seat seat (of_event event (P.rows s.world.db)) ≡ true
    sold-has_seat event seat (i, v, es, x, c, same) =
        subst (λ z. has_seat seat (of_event z (P.rows s.world.db)) ≡ true) same
          (has_sold_seat (row v.server.event.id seat (session_of v)) (P.rows s.world.db)
            (Won-SoldTo R P r i (web_request v) (web_answer (answered (sold_now seat))) seat
              (session_of v) es x (web-Won R P r i v seat es x c)).0)

    -- From a table with one row for a seat, however the HTTP requests to all instances interleave,
    -- whatever fails and whatever Redis loses: GET /api/stats, when its query is served, is answered
    -- 200 with two equal counts and no double booking, and the counts are no less than the number of
    -- seats of the event for which a POST of /api/confirm has been answered 200 with "confirmed".
    pub stats_count :
        (v : Visit) (seats : List ℤ)
        → UniqueSeats (P.rows w.db)
        → v.request.method ≡ get_method
        → route v.request.method v.request.path ≡ stats_route
        → DistinctSeats seats
        → All (SoldIn s v.server.event.id) seats
        → FirstServed R P s.world (Accounts (length seats)) (program v)
    unfolding program for_method at_route handle_stats booking_stats stats_response exec stats_query
        of_event
    stats_count v seats unique get to distinct sold =
        let event = v.server.event.id in
        rw (to, get)
          (agreeing _ _ (length seats) (stats_agree R P event unique r) (
            seats_fit seats (of_event event (P.rows s.world.db)) distinct
              (All-mono (SoldIn s event) _ (sold-has_seat event) seats sold)))
