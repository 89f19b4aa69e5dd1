-- ===== src/Spec/Expiry.antt =====
-- backend/booking/booking.go: how long a hold lasts, against the expiry that its session is told.
use grab_seat.Base.{
  ℕ, ◌+◌, ◌*◌, ◌/◌, ◌<◌, ◌≤◌, ◌≡◌, inl, inr, refl, ◌∙◌, ap, Option, none, some, ◌∷◌, arith,
}
use grab_seat.Base.Int.{ℤ}
use grab_seat.Base.Text.{Str, str_eq}
use grab_seat.Service.{ok}
use grab_seat.Service.Backends.{Redis, Postgres}
use grab_seat.Locking.{second, millisecond, hold_reply, publish_event}
use grab_seat.Locking.Keys.{hold_key, booked_key, hold_acquired, hold_booked_apart}
use grab_seat.Locking.Laws.{hold_script_free}
use grab_seat.Booking.{held, taken, confirmed, hold_expired, BookingService, after_try, held_event}
use grab_seat.World.{World, exec, run, wait}
use grab_seat.Spec.{SeatView, seat_view, hold_step, confirm_step}
use grab_seat.Spec.Hold.{resume, resume-script}
use grab_seat.Spec.Journey.{hold_now, confirm_now, free, hold_on, confirm_on, confirm_held}

module _ (R : Redis) (P : Postgres) (b : BookingService) (seat : ℤ) where
  abbrev seconds : ℕ
  seconds = b.hold_ttl / second

  -- The world when Hold has succeeded.
  abbrev grabbed : Str → World R P → World R P
  grabbed session w = record w {
    redis = (R.put_nx_ex (hold_key seat) session seconds w.redis).1;
    channel = held_event b seat session ((w.clock + b.hold_ttl) / millisecond) ∷ w.channel;
  }

  resume_acquired :
      (session : Str) (w : World R P) (s : R.Keyspace)
      → resume R P b seat session w (hold_acquired, s) ≡ (
        ok (held, (w.clock + b.hold_ttl) / millisecond),
        record w {
          redis = s;
          channel = held_event b seat session ((w.clock + b.hold_ttl) / millisecond) ∷ w.channel;
        },
      )
  unfolding resume run exec hold_reply after_try publish_event str_eq
  resume_acquired session w s = refl

  hold_grabs :
      (session : Str) (w : World R P)
      → 0 < seconds
      → seat_view R P w seat ≡ free R P b seat
      → hold_now R P b seat session w
        ≡ (ok (held, (w.clock + b.hold_ttl) / millisecond), grabbed session w)
  hold_grabs session w p is_free =
      resume-script R P b seat session w
      ∙ (ap (resume R P b seat session w) (
            hold_script_free R (hold_key seat) (booked_key seat) session seconds w.redis p
              (ap (λ (v : SeatView). v.marker) is_free) (ap (λ (v : SeatView). v.holder) is_free))
          ∙ resume_acquired session w (R.put_nx_ex (hold_key seat) session seconds w.redis).1)

  -- A seat that is not marked as booked is still not when the hold is set and time has passed.
  still_unmarked :
      (session : Str) (w : World R P) (d : ℕ)
      → 0 < seconds
      → seat_view R P w seat ≡ free R P b seat
      → R.find (wait R P d (grabbed session w)).redis (booked_key seat) ≡ none
  still_unmarked session w d p is_free =
      let unheld : R.find w.redis (hold_key seat) ≡ none =
        ap (λ (v : SeatView). v.holder) is_free in
      let unmarked : R.find w.redis (booked_key seat) ≡ none =
        ap (λ (v : SeatView). v.marker) is_free in
      let now_unmarked : R.find (grabbed session w).redis (booked_key seat) ≡ none =
        R.find-nx (hold_key seat) session seconds w.redis (booked_key seat) p unheld
        ∙ (rw (hold_booked_apart seat seat) unmarked) in
      elim (R.find-elapse d (grabbed session w).redis (booked_key seat)) [
        | inl same ↦ same ∙ now_unmarked
        | inr gone ↦ gone
      ]

  view_later :
      (session : Str) (w : World R P) (d : ℕ) (h : Option Str)
      → 0 < seconds
      → seat_view R P w seat ≡ free R P b seat
      → R.find (wait R P d (grabbed session w)).redis (hold_key seat) ≡ h
      → seat_view R P (wait R P d (grabbed session w)) seat
        ≡ record { holder = h; marker = none; owned_by = none }
  view_later session w d h p is_free holder =
      rw (holder, still_unmarked session w d p is_free, ap (λ (v : SeatView). v.owned_by) is_free)

  -- Later, while the hold is there.
  abbrev pub Lives : Str → Str → World R P → Type 0
  Lives session other w =
      ((hold_now R P b seat other w).0 ≡ ok (taken, 0))
      × ((confirm_now R P b seat session w).0 ≡ ok confirmed)

  -- Later, when the hold has run out.
  abbrev pub Ended : Str → Str → World R P → Type 0
  Ended session other w =
      ((t : ℕ) × ((hold_now R P b seat other w).0 ≡ ok (held, t)))
      × ((confirm_now R P b seat session w).0 ≡ ok hold_expired)

  later-Lives :
      (session other : Str) (w : World R P)
      → 0 < seconds
      → seat_view R P w seat ≡ record { holder = some session; marker = none; owned_by = none }
      → Lives session other w
  unfolding hold_step
  later-Lives session other w p same =
      ((hold_on R P b seat other w _ p same).0, (confirm_held R P b seat session w same).0)

  later-Ended :
      (session other : Str) (w : World R P)
      → 0 < seconds
      → seat_view R P w seat ≡ free R P b seat
      → Ended session other w
  unfolding hold_step confirm_step
  later-Ended session other w p same = (
    ((w.clock + b.hold_ttl) / millisecond, (hold_on R P b seat other w _ p same).0),
    (confirm_on R P b seat session w _ same).0,
  )

  -- A session that holds a free seat is told when its hold runs out. While the links are up, the hold
  -- time is a whole number of seconds, and no one else interferes: at any moment before, any other
  -- session finds the seat taken and the session can buy it; from that moment on, any other session
  -- can hold the seat and the session is told that its hold has expired.
  pub hold_lasts :
      (session other : Str) (w : World R P) (n d : ℕ)
      → 0 < n
      → b.hold_ttl ≡ n * second
      → seat_view R P w seat ≡ free R P b seat
      → let held_now = hold_now R P b seat session w in
        let later = wait R P d held_now.1 in
        (expires : ℕ) × (held_now.0 ≡ ok (held, expires))
        × (later.clock / millisecond < expires → Lives session other later)
        × (expires ≤ later.clock / millisecond → Ended session other later)
  hold_lasts session other w n d p whole is_free =
      let few : seconds ≡ n = omega (arith, whole) in
      let some_seconds : 0 < seconds = omega (arith, few, p) in
      let unheld : R.find w.redis (hold_key seat) ≡ none =
        ap (λ (v : SeatView). v.holder) is_free in
      (
        (w.clock + b.hold_ttl) / millisecond,
        rw (hold_grabs session w some_seconds is_free) refl,
        rw (hold_grabs session w some_seconds is_free) (λ before.
            later-Lives session other (wait R P d (grabbed session w)) some_seconds (
              view_later session w d (some session) some_seconds is_free (
                R.nx_lives (hold_key seat) session seconds d w.redis unheld
                  (omega (arith, whole, few, before))))),
        rw (hold_grabs session w some_seconds is_free) (λ after.
            later-Ended session other (wait R P d (grabbed session w)) some_seconds (
              view_later session w d none some_seconds is_free (
                R.nx_expires (hold_key seat) session seconds d w.redis some_seconds unheld
                  (omega (arith, whole, few, after))))),
      )
