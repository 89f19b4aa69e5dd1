-- ===== src/Api/Merge.antt =====
-- backend/api/api.go: the seat map of a snapshot, seat by seat.
use grab_seat.Base.{
  ◌++◌, false, ◌≡◌, refl, ap, subst, inl, inr, List, [], ◌∷◌, Option, none, some, is_some,
  Bool-cases, sym, Option-cases, All, All-mono, All-append, arith, if◌then◌else◌,
}
use grab_seat.Base.Int.{ℤ, int_eq, int_eq_iff, int_eq→eq}
use grab_seat.Base.Text.{Str}
use grab_seat.Base.Assoc.{lookup, Fresh, Unique}
use grab_seat.Model.{SeatState}
use grab_seat.Locking.Held.{Held}
use grab_seat.Api.Snapshot.{Booked, booked_state, booked_states, open_holds, seat_states}

-- The state that a list shows of a seat.
unfoldable pub view : ℤ → List SeatState → Option SeatState
view k [] = none
view k (st ∷ sts) = if int_eq st.seat_id k then some st else view k sts

-- Each state is of the seat under which it stands.
abbrev pub Keyed : Held → Type 0
Keyed = All (λ p. p.1.seat_id ≡ p.0)

unfoldable pub shown : ℤ → Option Str → Option SeatState → Option SeatState
shown k (some session) held = some (booked_state k session)
shown k none held = held

view-open_holds :
    (k : ℤ) (booked : Booked) (held : Held)
    → Keyed held
    → lookup k booked ≡ none
    → view k (open_holds booked held) ≡ lookup k held
unfolding view open_holds lookup
view-open_holds k booked [] h free = refl
view-open_holds k booked ((j, st) ∷ held) (same, h) free =
    let ih = view-open_holds k booked held h free in
    elim (Bool-cases (int_eq j k)) [
      | inl is_k ↦
          let free_j : lookup j booked ≡ none =
            subst (λ z. lookup z booked ≡ none) (sym (int_eq→eq j k is_k)) free in
          rw (free_j, same, is_k) refl
      | inr other ↦ elim (Bool-cases (is_some (lookup j booked))) [
        | inl sold ↦ rw (sold, other) ih
        | inr unsold ↦ rw (unsold, same, other) ih
      ]
    ]

view_from :
    (k : ℤ) (booked : Booked) (rest : List SeatState)
    → view k (booked_states booked ++ rest) ≡ shown k (lookup k booked) (view k rest)
unfolding view booked_states lookup shown booked_state
view_from k [] rest = refl
view_from k ((j, session) ∷ booked) rest = elim (Bool-cases (int_eq j k)) [
  | inl same ↦ rw same (ap (λ z. some (booked_state z session)) (int_eq→eq j k same))
  | inr other ↦ rw other (view_from k booked rest)
]

-- Where each hold stands under its seat, the snapshot shows a sold seat as booked by its owner, whoever holds it, a seat that is only held
-- with its hold, and no other seat.
pub view-seat_states :
    (k : ℤ) (booked : Booked) (held : Held)
    → Keyed held
    → view k (seat_states booked held) ≡ shown k (lookup k booked) (lookup k held)
unfolding seat_states shown
view-seat_states k booked held h = elim (Option-cases (lookup k booked)) [
  | inl free ↦
      rw (view_from k booked (open_holds booked held), free) (view-open_holds k booked held h free)
  | inr (session, sold) ↦ rw (view_from k booked (open_holds booked held), sold) refl
]

pub view_sold :
    (k : ℤ) (booked : Booked) (held : Held) {session : Str}
    → Keyed held
    → lookup k booked ≡ some session
    → view k (seat_states booked held) ≡ some (booked_state k session)
unfolding shown
view_sold k booked held h sold = rw (view-seat_states k booked held h, sold) refl

-- No state is of the seat `k`; every seat occurs once.
abbrev Without : ℤ → List SeatState → Type 0
Without k = All (λ u. int_eq u.seat_id k ≡ false)

abbrev pub Once : List SeatState → Type 0
Once [] = Unit
Once (st ∷ sts) = Without st.seat_id sts × Once sts

open_holds-Without :
    (k : ℤ) (booked : Booked) (held : Held)
    → Keyed held
    → Fresh k held
    → Without k (open_holds booked held)
unfolding open_holds
open_holds-Without k booked [] h fresh = tt
open_holds-Without k booked ((j, st) ∷ held) (same, h) (other, fresh) =
    elim (Bool-cases (is_some (lookup j booked))) [
      | inl sold ↦ rw sold (open_holds-Without k booked held h fresh)
      | inr unsold ↦ rw unsold (
        subst (λ z. int_eq z k ≡ false) (sym same) other,
        open_holds-Without k booked held h fresh,
      )
    ]

open_holds-Once :
    (booked : Booked) (held : Held) → Keyed held → Unique held → Once (open_holds booked held)
unfolding open_holds
open_holds-Once booked [] h once = tt
open_holds-Once booked ((j, st) ∷ held) (same, h) (fresh, once) =
    elim (Bool-cases (is_some (lookup j booked))) [
      | inl sold ↦ rw sold (open_holds-Once booked held h once)
      | inr unsold ↦ rw unsold (
        subst (λ z. Without z (open_holds booked held)) (sym same)
            (open_holds-Without j booked held h fresh),
        open_holds-Once booked held h once,
      )
    ]

-- The seats of these states are not sold.
abbrev Unsold : Booked → List SeatState → Type 0
Unsold booked = All (λ u. lookup u.seat_id booked ≡ none)

open_holds-Unsold :
    (booked : Booked) (held : Held) → Keyed held → Unsold booked (open_holds booked held)
unfolding open_holds
open_holds-Unsold booked [] h = tt
open_holds-Unsold booked ((j, st) ∷ held) (same, h) = elim (Option-cases (lookup j booked)) [
  | inl free ↦
      rw free (subst (λ z. lookup z booked ≡ none) (sym same) free, open_holds-Unsold booked held h)
  | inr (session, sold) ↦ rw sold (open_holds-Unsold booked held h)
]

booked_states-Without :
    (k : ℤ) (booked : Booked) → Fresh k booked → Without k (booked_states booked)
unfolding booked_states booked_state
booked_states-Without k [] h = tt
booked_states-Without k (p ∷ booked) (other, h) = (other, booked_states-Without k booked h)

not_first :
    (j : ℤ) (session : Str) (booked : Booked) (u : SeatState)
    → lookup u.seat_id ((j, session) ∷ booked) ≡ none
    → (int_eq u.seat_id j ≡ false) × (lookup u.seat_id booked ≡ none)
unfolding lookup
not_first j session booked u h = elim (Bool-cases (int_eq j u.seat_id)) [
  | inl same ↦ cc
  | inr other ↦ ground (arith, int_eq_iff j u.seat_id, int_eq_iff u.seat_id j)
]

states-Once :
    (booked : Booked) (rest : List SeatState)
    → Unique booked
    → Unsold booked rest
    → Once rest
    → Once (booked_states booked ++ rest)
unfolding booked_states booked_state
states-Once [] rest unique unsold once = once
states-Once ((j, session) ∷ booked) rest (fresh, unique) unsold once = (
  All-append (λ u. int_eq u.seat_id j ≡ false) (booked_states booked) rest
      (booked_states-Without j booked fresh)
      (All-mono _ _ (λ u h. (not_first j session booked u h).0) rest unsold),
  states-Once booked rest unique
      (All-mono _ _ (λ u h. (not_first j session booked u h).1) rest unsold) once,
)

-- If both maps have each key once, the snapshot shows each seat at most once.
pub seat_states-Once :
    (booked : Booked) (held : Held)
    → Unique booked
    → Unique held
    → Keyed held
    → Once (seat_states booked held)
unfolding seat_states
seat_states-Once booked held b u h =
    states-Once booked (open_holds booked held) b (open_holds-Unsold booked held h)
      (open_holds-Once booked held h u)
