-- ===== src/Api/Parsing.antt =====
-- backend/api/handlers.go: which requests parseSeatRequest lets through.
use grab_seat.Base.{
  Bool, true, false, ◌≡◌, ◌≢◌, refl, sym, ap, subst, ◌⊎◌, inl, inr, List, [], ◌∷◌, Option, none,
  some, Any, is_some, arith, if◌then◌else◌, Bool-cases,
}
use grab_seat.Base.Int.{ℤ, int_eq, int_eq_iff}
use grab_seat.Base.Text.{Str}
use grab_seat.Base.Assoc.{lookup, insert, lookup-insert}
use grab_seat.Api.Snapshot.{ids_of_seats, Server}
use grab_seat.Api.Handlers.{Response, SeatRequest, valid_seats, check_seat, parse_seat_request}

-- The request is of a session, for a seat of the venue.
abbrev pub Proper : Server → SeatRequest → Str → ℤ → Type 0
Proper s r session seat =
    (r.session ≡ session)
    × (session ≢ [])
    × (r.seat_id ≡ some seat)
    × Any (λ v. v ≡ seat) (ids_of_seats s.seats)

valid_from :
    (seats : List ℤ) (m : List (ℤ × Bool)) (seat : ℤ)
    → is_some (lookup seat (valid_seats seats m)) ≡ true
    → Any (λ v. v ≡ seat) seats ⊎ (is_some (lookup seat m) ≡ true)
unfolding valid_seats
valid_from [] m seat h = inr h
valid_from (v ∷ seats) m seat h = elim (valid_from seats (insert v true m) seat h) [
  | inl found ↦ inl (inr found)
  | inr old ↦ elim (Bool-cases (int_eq v seat)) [
    | inl same ↦ inl (inl ((int_eq_iff v seat).0 same))
    | inr other ↦ inr (ground (arith, lookup-insert v seat true m, old, other))
  ]
]

none_known : (k : ℤ) → is_some (lookup {V = Bool} k []) ≢ true
unfolding lookup
none_known k h = cc

passed :
    (known : Bool) (bad : Response) (sent session : Str) (asked seat : ℤ)
    → (if◌then◌else◌ {A = Response ⊎ (Str × ℤ)} known (inr (sent, asked)) (inl bad))
      ≡ inr (session, seat)
    → (known ≡ true) × (sent ≡ session) × (asked ≡ seat)
passed true bad sent session asked seat h = (refl, cc, cc)
passed false bad sent session asked seat h = absurd cc

checked-Proper :
    (s : Server) (sent : Str) (asked : ℤ) (session : Str) (seat : ℤ)
    → sent ≢ []
    → check_seat s sent asked ≡ inr (session, seat)
    → (sent ≡ session)
      × (session ≢ [])
      × (some asked ≡ some seat)
      × Any (λ v. v ≡ seat) (ids_of_seats s.seats)
unfolding check_seat
checked-Proper s sent asked session seat some_sent h =
    let (known, same, seat_same) =
      passed (is_some (lookup asked (valid_seats (ids_of_seats s.seats) []))) _ sent session asked
        seat h in
    (
      same,
      subst (λ z. z ≢ []) same some_sent,
      ap some seat_same,
      subst (λ z. Any (λ v. v ≡ z) (ids_of_seats s.seats)) seat_same
          (elim (valid_from (ids_of_seats s.seats) [] asked known) [
            | inl found ↦ found
            | inr old ↦ absurd (none_known asked old)
          ]),
    )

fields-Proper :
    (s : Server) (sent : Str) (asked : Option ℤ) (session : Str) (seat : ℤ)
    → parse_seat_request s (record { session = sent; seat_id = asked }) ≡ inr (session, seat)
    → (sent ≡ session)
      × (session ≢ [])
      × (asked ≡ some seat)
      × Any (λ v. v ≡ seat) (ids_of_seats s.seats)
unfolding parse_seat_request
fields-Proper s [] asked session seat h = absurd cc
fields-Proper s (c ∷ sent) none session seat h = absurd cc
fields-Proper s (c ∷ sent) (some asked) session seat h =
    checked-Proper s (c ∷ sent) asked session seat (λ e. cc) h

-- parseSeatRequest lets only proper requests through.
pub parse_seat_request-Proper :
    (s : Server) (r : SeatRequest) (session : Str) (seat : ℤ)
    → parse_seat_request s r ≡ inr (session, seat)
    → Proper s r session seat
parse_seat_request-Proper s r session seat h = fields-Proper s r.session r.seat_id session seat h

-- What a handler sent without asking a service.
abbrev pub Rejection : Response → Type 0
Rejection resp = (resp.status ≡ 400) ⊎ (resp.status ≡ 404)

rejected :
    (known : Bool) (good : Str × ℤ) (missing bad : Response)
    → missing.status ≡ 404
    → (if◌then◌else◌ {A = Response ⊎ (Str × ℤ)} known (inr good) (inl missing)) ≡ inl bad
    → Rejection bad
rejected true good missing bad m h = absurd cc
rejected false good missing bad m h =
    let same : missing ≡ bad = cc in inr (subst (λ (z : Response). z.status ≡ 404) same m)

-- It answers any other request itself.
pub parsed_bad :
    (s : Server) (sent : Str) (asked : Option ℤ) (bad : Response)
    → parse_seat_request s (record { session = sent; seat_id = asked }) ≡ inl bad
    → Rejection bad
unfolding parse_seat_request check_seat
parsed_bad s [] asked bad h = inl (ap (elim [ inl z ↦ z.status | inr _ ↦ 0 ]) (sym h))
parsed_bad s (c ∷ sent) none bad h = inl (ap (elim [ inl z ↦ z.status | inr _ ↦ 0 ]) (sym h))
parsed_bad s (c ∷ sent) (some seat) bad h =
    rejected (is_some (lookup seat (valid_seats (ids_of_seats s.seats) []))) (c ∷ sent, seat) _ bad
      refl h
