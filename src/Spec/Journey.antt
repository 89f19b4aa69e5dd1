-- ===== src/Spec/Journey.antt =====
-- backend/booking/booking.go: one purchase from the free seat to the second click on the button.
use grab_seat.Base.{ℕ, ◌/◌, ◌<◌, ◌≡◌, ◌≢◌, refl, ◌∙◌, subst, none, some, if◌then◌else◌}
use grab_seat.Base.Int.{ℤ}
use grab_seat.Base.Text.{Str, str_eq, str_eq_refl, ne→str_eq}
use grab_seat.Service.{Result, ok}
use grab_seat.Service.Backends.{Redis, Postgres}
use grab_seat.Locking.{second}
use grab_seat.Booking.{
  Outcome, seat_booked, confirmed, already_mine, conflict, BookingService, hold, confirm,
}
use grab_seat.World.{World, delivered, run}
use grab_seat.Spec.{SeatView, seat_view, hold_step, confirm_step}
use grab_seat.Spec.Hold.{hold_refines}
use grab_seat.Spec.Confirm.{confirm_refines}

module _ (R : Redis) (P : Postgres) (b : BookingService) (seat : ℤ) where
  -- A request that is served while the links are up and nothing else happens.
  abbrev pub hold_now : Str → World R P → Result (Outcome × ℕ) × World R P
  hold_now session w = run R P (λ _. delivered) (hold b seat session) w

  abbrev pub confirm_now : Str → World R P → Result Outcome × World R P
  confirm_now session w = run R P (λ _. delivered) (confirm b seat session) w

  abbrev pub free : SeatView
  free = record { holder = none; marker = none; owned_by = none }

  abbrev pub held_by : Str → SeatView
  held_by session = record { holder = some session; marker = none; owned_by = none }

  abbrev pub sold_to : Str → SeatView
  sold_to session = record { holder = none; marker = some session; owned_by = some session }

  pub hold_on :
      (session : Str) (w : World R P) (v : SeatView)
      → 0 < b.hold_ttl / second
      → seat_view R P w seat ≡ v
      → let e = hold_step b seat session w.clock v in
        ((hold_now session w).0 ≡ ok (e.outcome, e.expires))
        × (seat_view R P (hold_now session w).1 seat ≡ e.after)
  hold_on session w v p same =
      let (told, done) = hold_refines R P b seat session w p in
      subst
        (λ z.
          let e = hold_step b seat session w.clock z in
          ((hold_now session w).0 ≡ ok (e.outcome, e.expires))
          × (seat_view R P (hold_now session w).1 seat ≡ e.after))
        same (told, done.this_seat)

  pub confirm_on :
      (session : Str) (w : World R P) (v : SeatView)
      → seat_view R P w seat ≡ v
      → let e = confirm_step b seat session v in
        ((confirm_now session w).0 ≡ ok e.outcome)
        × (seat_view R P (confirm_now session w).1 seat ≡ e.after)
  confirm_on session w v same =
      let (told, done) = confirm_refines R P b seat session w in
      subst
        (λ z.
          let e = confirm_step b seat session z in
          ((confirm_now session w).0 ≡ ok e.outcome)
          × (seat_view R P (confirm_now session w).1 seat ≡ e.after))
        same (told, done.this_seat)

  pub confirm_held :
      (session : Str) (w : World R P)
      → seat_view R P w seat ≡ held_by session
      → ((confirm_now session w).0 ≡ ok confirmed)
        × (seat_view R P (confirm_now session w).1 seat ≡ sold_to session)
  unfolding confirm_step
  confirm_held session w same =
      let (told, after) = confirm_on session w (held_by session) same in
      let mine = str_eq_refl session in (told ∙ (rw mine refl), after ∙ (rw mine refl))

  confirm_sold :
      (buyer session : Str) (w : World R P)
      → seat_view R P w seat ≡ sold_to buyer
      → (confirm_now session w).0 ≡ ok (if str_eq buyer session then already_mine else conflict)
  unfolding confirm_step
  confirm_sold buyer session w same = (confirm_on session w (sold_to buyer) same).0

  hold_sold :
      (buyer session : Str) (w : World R P)
      → 0 < b.hold_ttl / second
      → seat_view R P w seat ≡ sold_to buyer
      → (hold_now session w).0 ≡ ok (seat_booked, 0)
  unfolding hold_step
  hold_sold buyer session w p same = (hold_on session w (sold_to buyer) p same).0

  pub hold_free :
      (session : Str) (w : World R P)
      → 0 < b.hold_ttl / second
      → seat_view R P w seat ≡ free
      → seat_view R P (hold_now session w).1 seat ≡ held_by session
  unfolding hold_step
  hold_free session w p same = (hold_on session w free p same).1

  -- While the links are up, the hold time is a second or more, and no one else interferes: the session
  -- that holds a free seat and confirms it buys it; its second confirm is `already_mine`; any
  -- other session is refused the seat from then on, by Hold as booked and by Confirm as a conflict.
  pub purchase :
      (session other : Str) (w : World R P)
      → 0 < b.hold_ttl / second
      → session ≢ other
      → seat_view R P w seat ≡ free
      → let bought = confirm_now session (hold_now session w).1 in
        (bought.0 ≡ ok confirmed)
        × ((confirm_now session bought.1).0 ≡ ok already_mine)
        × ((hold_now other bought.1).0 ≡ ok (seat_booked, 0))
        × ((confirm_now other bought.1).0 ≡ ok conflict)
  purchase session other w p different is_free =
      let bought : World R P = (confirm_now session (hold_now session w).1).1 in
      let (told, sold) =
        confirm_held session (hold_now session w).1 (hold_free session w p is_free) in
      (
        told,
        confirm_sold session session bought sold ∙ (rw (str_eq_refl session) refl),
        hold_sold session other bought p sold,
        confirm_sold session other bought sold ∙ (rw (ne→str_eq session other different) refl),
      )
