-- ===== src/Spec/Hold.antt =====
-- backend/booking/booking.go: Hold against Spec.hold_step.
use grab_seat.Base.{ℕ, ◌/◌, ◌<◌, ◌≡◌, ◌≢◌, refl, inl, inr, none, some, Option-cases}
use grab_seat.Base.Int.{ℤ}
use grab_seat.Base.Text.{Str, str_eq, str_eq_refl}
use grab_seat.Service.{Result, ok, ◌>>=◌}
use grab_seat.Service.Backends.{Redis, Postgres}
use grab_seat.Locking.{try_hold, hold_reply, publish_event, second}
use grab_seat.Locking.Keys.{
  hold_key, booked_key, hold_acquired, hold_booked, hold_taken, hold_keys_apart, hold_booked_apart,
}
use grab_seat.Locking.Script.{hold_script}
use grab_seat.Locking.Laws.{hold_script_sold, hold_script_held, hold_script_free}
use grab_seat.Booking.{Outcome, taken, seat_booked, BookingService, hold, after_try}
use grab_seat.World.{World, delivered, exec, run}
use grab_seat.Spec.{seat_view, Effect, hold_step, Implements, quietly-Implements}

module _ (R : Redis) (P : Postgres) (b : BookingService) (seat : ℤ) (session : Str)
    (w : World R P) where
  abbrev seconds : ℕ
  seconds = b.hold_ttl / second

  abbrev effect : Effect
  effect = hold_step b seat session w.clock (seat_view R P w seat)

  abbrev result : Result (Outcome × ℕ) × World R P
  result = run R P (λ _. delivered) (hold b seat session) w

  -- What is left of Hold once the script has replied.
  unfoldable pub resume : Str × R.Keyspace → Result (Outcome × ℕ) × World R P
  resume p =
      run R P (λ _. delivered) (hold_reply b.hold_ttl (ok p.0) >>= after_try b seat session)
        (record w { redis = p.1 })

  abbrev pub script : Str × R.Keyspace
  script = hold_script R (hold_key seat) (booked_key seat) session seconds w.redis

  pub resume-script : result ≡ resume script
  unfolding resume run exec hold try_hold
  resume-script = refl

  abbrev DoesAs : Result (Outcome × ℕ) × World R P → Type 0
  DoesAs r = (r.0 ≡ ok (effect.outcome, effect.expires)) × Implements R P seat effect w r.1

  booked_Does :
      {v : Str} → R.find w.redis (booked_key seat) ≡ some v → DoesAs (resume (hold_booked, w.redis))
  unfolding resume hold_reply after_try run hold_step str_eq
  booked_Does e = rw e (refl, quietly-Implements R P seat seat_booked w)

  taken_Does :
      {v : Str}
      → R.find w.redis (booked_key seat) ≡ none
      → R.find w.redis (hold_key seat) ≡ some v
      → DoesAs (resume (hold_taken, w.redis))
  unfolding resume hold_reply after_try run hold_step str_eq
  taken_Does e f = rw (e, f) (refl, quietly-Implements R P seat taken w)

  abbrev grabbed : R.Keyspace
  grabbed = (R.put_nx_ex (hold_key seat) session seconds w.redis).1

  grabbed_view :
      0 < seconds
      → R.find w.redis (hold_key seat) ≡ none
      → (R.find grabbed (hold_key seat) ≡ some session)
        × (R.find grabbed (booked_key seat) ≡ R.find w.redis (booked_key seat))
  grabbed_view p f = (
    rw (
      R.find-nx (hold_key seat) session seconds w.redis (hold_key seat) p f,
      str_eq_refl (hold_key seat),
    ),
    rw (
      R.find-nx (hold_key seat) session seconds w.redis (booked_key seat) p f,
      hold_booked_apart seat seat,
    ),
  )

  grabbed_others :
      0 < seconds
      → R.find w.redis (hold_key seat) ≡ none
      → (x : ℤ) → seat ≢ x
      → (R.find grabbed (hold_key x) ≡ R.find w.redis (hold_key x))
        × (R.find grabbed (booked_key x) ≡ R.find w.redis (booked_key x))
  grabbed_others p f x h = (
    rw (
      R.find-nx (hold_key seat) session seconds w.redis (hold_key x) p f,
      hold_keys_apart seat x h,
    ),
    rw (
      R.find-nx (hold_key seat) session seconds w.redis (booked_key x) p f,
      hold_booked_apart seat x,
    ),
  )

  free_Does :
      0 < seconds
      → R.find w.redis (booked_key seat) ≡ none
      → R.find w.redis (hold_key seat) ≡ none
      → DoesAs (resume (hold_acquired, grabbed))
  unfolding resume hold_reply after_try run hold_step str_eq exec publish_event
  free_Does p e f =
      rw (e, f)
        (
          refl,
          record {
            messages = refl;
            this_seat = let (held_now, kept) = grabbed_view p f in rw (held_now, kept);
            other_seats = λ x h.
                let (hold_kept, mark_kept) = grabbed_others p f x h in rw (hold_kept, mark_kept);
          },
        )

  -- With the links up and a hold time of a second or more, Hold answers, tells the other clients
  -- and changes the seat exactly as `hold_step` says of the seat's hold, marker and owner, and
  -- leaves every other seat alone.
  pub hold_refines :
      0 < b.hold_ttl / second
      → (result.0 ≡ ok (effect.outcome, effect.expires)) × Implements R P seat effect w result.1
  hold_refines p = rw resume-script (elim (Option-cases (R.find w.redis (booked_key seat))) [
    | inl free ↦ elim (Option-cases (R.find w.redis (hold_key seat))) [
      | inl unheld ↦
          rw
            (hold_script_free R (hold_key seat) (booked_key seat) session seconds w.redis p free
              unheld)
            (free_Does p free unheld)
      | inr (v, other) ↦
          rw
            (hold_script_held R (hold_key seat) (booked_key seat) session seconds w.redis free
              other)
            (taken_Does free other)
    ]
    | inr (v, sold) ↦
        rw (hold_script_sold R (hold_key seat) (booked_key seat) session seconds w.redis sold)
          (booked_Does sold)
  ])
