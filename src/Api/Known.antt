-- ===== src/Api/Known.antt =====
-- backend/api/api.go and handlers.go: the map validSeats and the seats that it is made of.
use mathlib.Core.List.{Mem, eq-or-mem_of_mem-cons, mem-cons_self, mem-cons_of_mem, not-mem-nil}
use mathlib.Core.HLevel.{⊥_prop}
use mathlib.Core.Logic.Or
use grab_seat.Base.{
  Bool, true, false, ◌≡◌, ◌≢◌, ◌↔◌, refl, sym, inl, inr, List, [], ◌∷◌, Option, none, some, Any,
  is_some, Bool-cases,
}
use grab_seat.Base.Int.{ℤ, int_eq, int_eq_iff}
use grab_seat.Base.Text.{Str}
use grab_seat.Base.Assoc.{lookup, insert, lookup-insert}
use grab_seat.Api.Snapshot.{ids_of_seats, Server}
use grab_seat.Api.Handlers.{SeatRequest, valid_seats, check_seat, parse_seat_request}
use grab_seat.Api.Parsing.{parse_seat_request-Proper}

abbrev pub Known : ℤ → List (ℤ × Bool) → Type 0
Known seat m = is_some (lookup seat m) ≡ true

put : (v seat : ℤ) (m : List (ℤ × Bool)) → v ≡ seat → Known seat (insert v true m)
put v seat m same = rw (lookup-insert v seat true m, (int_eq_iff v seat).1 same) refl

kept : (v seat : ℤ) (m : List (ℤ × Bool)) → Known seat m → Known seat (insert v true m)
kept v seat m old = elim (Bool-cases (int_eq v seat)) [
  | inl same ↦ rw (lookup-insert v seat true m, same) refl
  | inr other ↦ rw (lookup-insert v seat true m, other) old
]

stays :
    (seats : List ℤ) (m : List (ℤ × Bool)) (seat : ℤ)
    → Known seat m
    → Known seat (valid_seats seats m)
unfolding valid_seats
stays [] m seat h = h
stays (v ∷ seats) m seat h = stays seats (insert v true m) seat (kept v seat m h)

misses :
    (seats : List ℤ) (m : List (ℤ × Bool)) (seat : ℤ)
    → is_some (lookup seat (valid_seats seats m)) ≡ false
    → Known seat m
    → ⊥
misses seats m seat missing h = cc (stays seats m seat h, missing)

not_listed :
    (seats : List ℤ) (m : List (ℤ × Bool)) (seat : ℤ)
    → is_some (lookup seat (valid_seats seats m)) ≡ false
    → ¬ Mem seat seats
unfolding valid_seats
not_listed [] m seat missing = not-mem-nil
not_listed (v ∷ seats) m seat missing = λ listed.
    Or.elim ⊥_prop (eq-or-mem_of_mem-cons listed)
      (λ here. absurd (misses seats (insert v true m) seat missing (put v seat m (sym here))))
      (not_listed seats (insert v true m) seat missing)

Any-Mem : (seat : ℤ) (seats : List ℤ) → Any (λ v. v ≡ seat) seats → Mem seat seats
Any-Mem seat [] h = absurd h
Any-Mem seat (v ∷ seats) (inl here) = rw here mem-cons_self
Any-Mem seat (v ∷ seats) (inr there) = mem-cons_of_mem v (Any-Mem seat seats there)

-- The request is of a session, for one of the seats.
abbrev pub Asks : List ℤ → SeatRequest → Str → ℤ → Type 0
Asks seats r session seat =
    (r.session ≡ session) × (session ≢ []) × (r.seat_id ≡ some seat) × Mem seat seats

parsed :
    (s : Server) (sent : Str) (asked : Option ℤ) (session : Str) (seat : ℤ)
    → Asks (ids_of_seats s.seats) (record { session = sent; seat_id = asked }) session seat
    → parse_seat_request s (record { session = sent; seat_id = asked }) ≡ inr (session, seat)
unfolding parse_seat_request check_seat
parsed s [] asked session seat (same, named, asks, listed) = absurd (named (sym same))
parsed s (c ∷ sent) none session seat (same, named, asks, listed) = absurd cc
parsed s (c ∷ sent) (some v) session seat (same, named, asks, listed) =
    elim (Bool-cases (is_some (lookup v (valid_seats (ids_of_seats s.seats) [])))) [
      | inl known ↦ let is_seat : v ≡ seat = cc asks in rw (known, same, is_seat) refl
      | inr missing ↦
          let is_seat : v ≡ seat = cc asks in
          absurd (not_listed (ids_of_seats s.seats) [] v missing (rw is_seat listed))
    ]

pub parse_seat_request_iff :
    (s : Server) (r : SeatRequest) (session : Str) (seat : ℤ)
    → (parse_seat_request s r ≡ inr (session, seat)) ↔ Asks (ids_of_seats s.seats) r session seat
parse_seat_request_iff s r session seat = (
  (λ h.
      let (same, named, asks, listed) = parse_seat_request-Proper s r session seat h in
      (same, named, asks, Any-Mem seat (ids_of_seats s.seats) listed)),
  parsed s r.session r.seat_id session seat,
)
